-- ===== src/Startup.antt =====
-- src/main.cpp and src/certificate.cpp: the steps of `main` up to the I/O service, and its end.
pub mod Order
use shadyurl.Common.{
  ℕ, ◌+◌, ◌-◌, ◌^◌, ◌%◌, ◌≡◌, Bool, true, false, not, ◌&&◌, Option, none, some, List, [], ◌∷◌, ◌++◌,
  Bytes, ◌==◌, if◌then◌else◌,
}
use shadyurl.Boost.{StringAlgo}
use shadyurl.ServerState.{
  ServerState, get_config_threads, get_config_address, get_config_port, get_config_port2,
  get_config_log_level, get_config_daemon, get_config_cert_file, get_config_key_file,
  get_config_dh_file, get_config_user, get_config_group,
}
use shadyurl.Daemon.{Creds, Os, check_pid, write_pid, drop_privs}
use shadyurl.PidFile.{ℤ}
use shadyurl.Daemonise.{Proc, Kernel, Run, exited, failed, going, d_no_close_files, daemonise}
use shadyurl.Log.{Priority, set_log_level}

-- What the steps of `main` change, with the ports that are listened on.
pub record Process : Type 0 where
  pub mask : Option Priority
  pub ports : List ℕ
  pub proc : Proc
  pub pid_file : Option Bytes
  pub creds : Creds

-- The libraries and the system: whether `make_address` takes a text, whether each file of the
-- certificate loads, the process's own number as `getpid` gives it, and
-- whether the PID file can be opened with the credentials.
pub record Host : Type 0 where
  pub boost : StringAlgo
  pub os : Os
  pub kernel : Kernel
  pub make_address : Bytes → Bool
  -- whether `open`, `set_option`, `bind` and `listen` of a listener all go well on a port
  pub can_listen : ℕ → Bool
  pub use_certificate_chain_file : Bytes → Bool
  pub use_private_key_file : Bytes → Bool
  pub use_tmp_dh_file : Bytes → Bool
  -- what an `int` holds that is not initialised
  pub uninitialised : ℤ
  -- `kill(pid, 0)` returns 0
  pub exists : ℤ → Bool
  pub getpid : Proc → ℕ
  pub can_open : Creds → Bool

-- `EXIT_FAILURE`, an exception that nothing catches, the exit of a parent in `daemonise`, or the
-- process at the next line.
pub data Launch : Type 0 where
  failure : Process → Launch
  uncaught : Process → Launch
  parent_exit : Launch
  next : Process → Launch

infixl 5 ◌>>=◌
abbrev pub ◌>>=◌ : Launch → (Process → Launch) → Launch
failure s >>= f = failure s
uncaught s >>= f = uncaught s
parent_exit >>= f = parent_exit
next s >>= f = f s

-- The result of a step that is a Boolean and a new state.
abbrev pub check : Bool × Process → Launch
check (true, s) = next s
check (false, s) = failure s

module _ (host : Host) (state : ServerState) where
  unfoldable pub load_server_certificate : Bool
  load_server_certificate =
      host.use_certificate_chain_file (get_config_cert_file state)
      && (host.use_private_key_file (get_config_key_file state)
          && host.use_tmp_dh_file (get_config_dh_file state))

  unfoldable pub set_level : Process → Launch
  set_level s =
      let (done, mask) = set_log_level host.boost (get_config_log_level state) s.mask in
      check (done, record s { mask = mask })

  unfoldable pub take_address : Process → Launch
  take_address s = if host.make_address (get_config_address state) then next s else uncaught s

  -- The constructor of `listener`: a call that fails is logged, and the rest left out.
  unfoldable pub listener : ℕ → Process → Process
  listener port s = if host.can_listen port then record s { ports = s.ports ++ port ∷ [] } else s

  unfoldable pub listen : Process → Launch
  unfolding listener
  listen s =
      let one = listener (get_config_port state) s in
      next (if get_config_port2 state == 0 then one else listener (get_config_port2 state) one)

  abbrev after_fork : Process → Run → Launch
  after_fork s exited = parent_exit
  after_fork s (failed p) = failure (record s { proc = p })
  after_fork s (going p) = next (record s { proc = p })

  unfoldable pub to_background : Process → Launch
  to_background s =
      let forked = after_fork s (daemonise host.kernel d_no_close_files s.proc) in
      if get_config_daemon state then forked else next s

  unfoldable pub save_pid : Process → Launch
  save_pid s =
      let (done, file) = write_pid (host.can_open s.creds) (host.getpid s.proc) s.pid_file in
      check (done, record s { pid_file = file })

  unfoldable pub give_up : Process → Launch
  give_up s =
      let (done, c) = drop_privs host.os (get_config_user state) (get_config_group state) s.creds in
      check (done, record s { creds = c })

  -- From the state `s` with the configuration read.
  unfoldable pub main_steps : Process → Launch
  unfolding set_level take_address listen to_background save_pid give_up load_server_certificate
  main_steps s = do
    s1 ← set_level s
    s2 ← take_address s1
    s3 ← check (load_server_certificate, s2)
    s4 ← listen s3
    s5 ← to_background s4
    s6 ← save_pid s5
    give_up s6

  -- `get_config_threads() - 1` in 32 bits: the threads that run the service beside the main one.
  unfoldable pub extra_threads : ℕ
  extra_threads = (get_config_threads state + (2 ^ 32 - 1)) % 2 ^ 32

-- `main` as far as the I/O service: the table that `config.toml` holds, if it parses.
unfoldable pub main : Host → Option ServerState → Process → Launch
unfolding main_steps
main host none s = failure s
main host (some state) s =
    let started = main_steps host state s in
    if check_pid host.uninitialised host.exists s.pid_file then started else failure s
