-- ===== src/Startup/Order.antt =====
-- What holds of the process when the I/O service runs.
use shadyurl.Common.{
  Option, none, ◌+◌, ◌^◌, ◌<◌, ◌≡◌, ◌⊎◌, refl, Bool, true, false, some, [], ◌∷◌, ◌++◌, append_assoc,
  ◌==◌, if◌then◌else◌, arith, Bool-cases, inl, inr, ◌≤◌, List, ℕ, ap, sym, append-nil,
}
use shadyurl.ServerState.{
  ServerState, get_config_threads, get_config_port, get_config_port2, get_config_log_level,
  get_config_daemon, get_config_user, get_config_group,
}
use shadyurl.Daemon.{check_pid, write_pid, drop_privs}
use shadyurl.PidFile.{pos, int_max, decimal}
use shadyurl.PidFile.Decimal.{read_int-decimal}
use shadyurl.Daemonise.{going, d_no_close_files, daemonise}
use shadyurl.Log.{set_log_level}
use shadyurl.Startup.{
  Process, Host, Launch, failure, uncaught, parent_exit, next, ◌>>=◌, check,
  load_server_certificate, set_level, take_address, listener, listen, to_background, save_pid,
  give_up, main_steps, extra_threads, main,
}

bind-next :
    (m : Launch) (f : Process → Launch) (s' : Process)
    → (m >>= f) ≡ next s'
    → (s : Process) × (m ≡ next s) × (f s ≡ next s')
bind-next (failure s) f s' h = absurd cc
bind-next (uncaught s) f s' h = absurd cc
bind-next parent_exit f s' h = absurd cc
bind-next (next s) f s' h = (s, refl, h)

check-next : (b : Bool) (s s' : Process) → check (b, s) ≡ next s' → (b ≡ true) × (s' ≡ s)
check-next true s s' h = ground arith
check-next false s s' h = cc

module _ (host : Host) (state : ServerState) where
  -- What each step leaves, where it goes on.
  set_level-next :
      (s s' : Process)
      → set_level host state s ≡ next s'
      → (set_log_level host.boost (get_config_log_level state) s.mask ≡ (true, s'.mask))
        × (s' ≡ record s { mask = s'.mask })
  unfolding set_level
  set_level-next s s' h =
      let r = set_log_level host.boost (get_config_log_level state) s.mask in
      let (e, k) = check-next r.0 (record s { mask = r.1 }) s' h in ground (arith, e, k)

  take_address-next : (s s' : Process) → take_address host state s ≡ next s' → s' ≡ s
  unfolding take_address
  take_address-next s s' h = ground arith

  -- The ports of the configuration on which a listener can be set up.
  abbrev open_port : ℕ → List ℕ
  open_port port = if host.can_listen port then port ∷ [] else []

  abbrev open_ports : List ℕ
  open_ports =
      if get_config_port2 state == 0
      then open_port (get_config_port state)
      else open_port (get_config_port state) ++ open_port (get_config_port2 state)

  listener-ports :
      (port : ℕ) (s : Process)
      → listener host state port s ≡ record s { ports = s.ports ++ open_port port }
  unfolding listener
  listener-ports port s = elim (Bool-cases (host.can_listen port)) [
    | inl e ↦ rw e refl
    | inr e ↦ rw e (ap (λ ps. record s { ports = ps }) (sym (append-nil s.ports)))
  ]

  listen-next :
      (s s' : Process)
      → listen host state s ≡ next s'
      → s' ≡ record s { ports = s.ports ++ open_ports }
  unfolding listen
  listen-next s s' h =
      let one = listener-ports (get_config_port state) s in
      let two =
        listener-ports (get_config_port2 state)
          (record s { ports = s.ports ++ open_port (get_config_port state) }) in
      elim (Bool-cases (get_config_port2 state == 0)) [
        | inl e ↦ ground (arith, e, one)
        | inr e ↦ ground (
          arith,
          e,
          one,
          two,
          append_assoc s.ports (open_port (get_config_port state))
              (open_port (get_config_port2 state)),
        )
      ]

  to_background-next :
      (s s' : Process)
      → to_background host state s ≡ next s'
      → ((if get_config_daemon state
            then daemonise host.kernel d_no_close_files s.proc
            else going s.proc)
          ≡ going s'.proc)
        × (s' ≡ record s { proc = s'.proc })
  unfolding to_background
  to_background-next s s' h = ground arith

  save_pid-next :
      (s s' : Process)
      → save_pid host state s ≡ next s'
      → (host.can_open s.creds ≡ true)
        × (s' ≡ record s { pid_file = some (decimal (host.getpid s.proc)) })
  unfolding save_pid write_pid
  save_pid-next s s' h = ground arith

  give_up-next :
      (s s' : Process)
      → give_up host state s ≡ next s'
      → (drop_privs host.os (get_config_user state) (get_config_group state) s.creds
          ≡ (true, s'.creds))
        × (s' ≡ record s { creds = s'.creds })
  unfolding give_up
  give_up-next s s' h =
      let r = drop_privs host.os (get_config_user state) (get_config_group state) s.creds in
      let (e, k) = check-next r.0 (record s { creds = r.1 }) s' h in ground (arith, e, k)

  -- The process `s'` that runs the I/O service in terms of the process `s` that was started.
  pub record IsStarted (s s' : Process) : Type 0 where
    pub alone : check_pid host.uninitialised host.exists s.pid_file ≡ true
    pub level : set_log_level host.boost (get_config_log_level state) s.mask ≡ (true, s'.mask)
    pub certified : load_server_certificate host state ≡ true
    pub ports_are : s'.ports ≡ s.ports ++ open_ports
    pub background :
        (if get_config_daemon state
          then daemonise host.kernel d_no_close_files s.proc
          else going s.proc)
        ≡ going s'.proc
    pub opened : host.can_open s.creds ≡ true
    pub recorded : s'.pid_file ≡ some (decimal (host.getpid s'.proc))
    pub privileges :
        drop_privs host.os (get_config_user state) (get_config_group state) s.creds
        ≡ (true, s'.creds)

  -- `main` comes to run the I/O service only where `kill` finds no process with the recorded number that
  -- it may signal, the log level is known, and the certificate, its key and the parameters load. It then
  -- listens on those ports of the configuration on which a listener could be set up, which may be none,
  -- is in the background if it is to be, has its own number, that of the background process, in the PID
  -- file, which it opened with the rights that it was started with, and `drop_privs` has succeeded.
  pub main-IsStarted : (s s' : Process) → main host (some state) s ≡ next s' → IsStarted s s'
  unfolding main main_steps
  main-IsStarted s s' h = elim (Bool-cases (check_pid host.uninitialised host.exists s.pid_file)) [
    | inr e ↦ absurd (ground (arith, e))
    | inl e ↦
        let f7 : Process → Launch = give_up host state in
        let f6 : Process → Launch = λ r. save_pid host state r >>= f7 in
        let f5 : Process → Launch = λ r. to_background host state r >>= f6 in
        let f4 : Process → Launch = λ r. listen host state r >>= f5 in
        let f3 : Process → Launch = λ r. check (load_server_certificate host state, r) >>= f4 in
        let f2 : Process → Launch = λ r. take_address host state r >>= f3 in
        let h0 : main_steps host state s ≡ next s' = ground (arith, e) in
        let (s1, e1, h1) = bind-next (set_level host state s) f2 s' h0 in
        let (s2, e2, h2) = bind-next (take_address host state s1) f3 s' h1 in
        let (s3, e3, h3) = bind-next (check (load_server_certificate host state, s2)) f4 s' h2 in
        let (s4, e4, h4) = bind-next (listen host state s3) f5 s' h3 in
        let (s5, e5, h5) = bind-next (to_background host state s4) f6 s' h4 in
        let (s6, e6, h6) = bind-next (save_pid host state s5) f7 s' h5 in
        let (level, k1) = set_level-next s s1 e1 in
        let k2 = take_address-next s1 s2 e2 in
        let (cert, k3) = check-next (load_server_certificate host state) s2 s3 e3 in
        let k4 = listen-next s3 s4 e4 in
        let (back, k5) = to_background-next s4 s5 e5 in
        let (opened, k6) = save_pid-next s5 s6 e6 in
        let (privs, k7) = give_up-next s6 s' h6 in
        record {
          alone = e;
          level = ground arith;
          certified = cert;
          ports_are = ground arith;
          background = ground arith;
          opened = ground arith;
          recorded = ground arith;
          privileges = ground arith;
        }
  ]

-- While a server runs that was started, no second one starts on its PID file, with whatever
-- configuration, where its process number is an `int` and the process is there for `kill`.
pub main_second :
    (host : Host) (state : ServerState) (other : Option ServerState) (s s' second : Process)
    → main host (some state) s ≡ next s'
    → host.getpid s'.proc ≤ int_max
    → host.exists (pos (host.getpid s'.proc)) ≡ true
    → second.pid_file ≡ s'.pid_file
    → main host other second ≡ failure second
unfolding main check_pid
main_second host state none s s' second h range there same = refl
main_second host state (some other) s s' second h range there same =
    let pid = host.getpid s'.proc in
    ground (
      arith,
      (main-IsStarted host state s s' h).recorded,
      read_int-decimal host.uninitialised pid range,
    )

-- With a configured number of threads below 2 ^ 32, which toml++ gives: one thread fewer than that is
-- started beside the main one; but for the number 0, 4294967295 are.
pub extra_threads_lem :
    (host : Host) (state : ServerState)
    → get_config_threads state < 2 ^ 32
    → (extra_threads host state + 1 ≡ get_config_threads state)
      ⊎ ((get_config_threads state ≡ 0) × (extra_threads host state ≡ 4294967295))
unfolding extra_threads
extra_threads_lem host state h = ground arith
