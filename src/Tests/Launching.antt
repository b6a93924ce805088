-- ===== src/Tests/Launching.antt =====
-- A start of the server with the default configuration.
use shadyurl.Common.{◌^◌, ◌<◌, ◌≡◌, refl, true, none, some, [], ◌∷◌, bytes_eq, ◌==◌, arith, codes}
use shadyurl.Boost.Reference.{reference}
use shadyurl.ServerState.{get_config_threads}
use shadyurl.Daemon.{check_pid, write_pid, drop_privs, target_ids, user_ids, drop_group, drop_user}
use shadyurl.PidFile.{pos, negsuc, read_int, decimal}
use shadyurl.Log.{info, set_log_level, priority}
use shadyurl.Startup.{
  Process, Host, failure, next, load_server_certificate, set_level, take_address, listener, listen,
  to_background, save_pid, give_up, main_steps, main,
}
use shadyurl.Startup.Order.{IsStarted, main-IsStarted, main_second}
use shadyurl.Tests.Setup.{state}
use shadyurl.Tests.Process.{unix, root}
use shadyurl.Tests.Background.{quiet, shell_child}

abbrev pub machine : Host
machine = record {
  boost = reference;
  os = unix;
  kernel = quiet;
  make_address = λ text. true;
  can_listen = λ port. true;
  use_certificate_chain_file = λ file. true;
  use_private_key_file = λ file. true;
  use_tmp_dh_file = λ file. true;
  uninitialised = pos 0;
  exists = λ pid. elim pid [ pos n ↦ n == 1234 | negsuc n ↦ true ];
  getpid = λ p. 1234;
  can_open = λ c. c.uid == 0;
}

abbrev pub before : Process
before = record {
  mask = none;
  ports = [];
  proc = shell_child;
  pid_file = some (codes "77");
  creds = root;
}

abbrev pub launched : Process
launched = record {
  mask = some info;
  ports = 8080 ∷ [];
  proc = shell_child;
  pid_file = some (codes "1234");
  creds = root;
}

pub launched-run : main machine (some state) before ≡ next launched
unfolding main main_steps check_pid read_int decimal set_level set_log_level priority bytes_eq
    take_address load_server_certificate listener listen to_background save_pid write_pid give_up
    drop_privs target_ids user_ids drop_group drop_user
launched-run = refl

main-IsStarted_example : IsStarted machine state before launched
main-IsStarted_example = main-IsStarted machine state before launched launched-run

two_threads : get_config_threads state < 2 ^ 32
two_threads = omega arith

abbrev second : Process
second = record {
  mask = none;
  ports = [];
  proc = shell_child;
  pid_file = some (codes "1234");
  creds = root;
}

main_second_example : main machine (some state) second ≡ failure second
main_second_example =
    main_second machine state (some state) before launched second launched-run (omega arith) refl
      refl
