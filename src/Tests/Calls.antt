-- ===== src/Tests/Calls.antt =====
-- The calls of SQLite for a POST and for a GET of its token.
