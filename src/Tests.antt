-- ===== src/Tests.antt =====
-- Runs of the model at concrete inputs, and each property applied at one.
mod Setup
mod Requests
mod Connection
mod Text
mod Process
mod Server
mod Running
mod Background
mod Launching
mod Ending
mod Calls
mod Files
mod Threads
mod Forms
mod Shortening
mod Elsewhere
mod Sockets
