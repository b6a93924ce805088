-- ===== src/Daemon.antt =====
-- src/daemon.cpp: dropping privileges, the PID file, and the resource limits. The calls of the
-- operating system are a parameter.
pub mod Privileges
use shadyurl.Common.{
  ℕ, ◌-◌, ◌^◌, ◌≡◌, ◌≢◌, Bool, true, false, not, Option, none, some, List, [], ◌∷◌, Bytes, ◌==◌,
  if◌then◌else◌, c_str, empty,
}
use shadyurl.PidFile.{ℤ, read_int, decimal}

-- The credentials of the process.
pub record Creds : Type 0 where
  pub uid : ℕ
  pub gid : ℕ
  pub groups : List ℕ

-- The calls that change the credentials give the new ones, or nothing where they return -1.
pub record Os : Type 0 where
  -- the user and group number of an entry of the password file
  pub getpwnam : Bytes → Option (ℕ × ℕ)
  pub getgrnam : Bytes → Option ℕ
  pub setgid : ℕ → Creds → Option Creds
  -- `setgroups(0, NULL)`
  pub clear_groups : Creds → Option Creds
  pub initgroups : Bytes → ℕ → Creds → Option Creds
  pub setuid : ℕ → Creds → Option Creds

-- `static_cast<gid_t>(-1)`
abbrev pub unset : ℕ
unset = 2 ^ 32 - 1

module _ (os : Os) (user group : Bytes) where
  -- The user and group that the names stand for, or nothing where one is not known.
  unfoldable pub user_ids : Option (ℕ × ℕ)
  user_ids = if empty user then some (unset, unset) else elim (os.getpwnam (c_str user)) [
    | none ↦ none
    | some (uid, gid) ↦ some (uid, if empty group then gid else unset)
  ]

  unfoldable pub target_ids : Option (ℕ × ℕ)
  unfolding user_ids
  target_ids = elim user_ids [
    | none ↦ none
    | some (uid, gid) ↦
        if empty group
        then some (uid, gid)
        else elim (os.getgrnam (c_str group)) [ none ↦ none | some g ↦ some (uid, g) ]
  ]

  unfoldable pub drop_group : ℕ → Creds → Bool × Creds
  drop_group gid c = if gid == unset then (true, c) else elim (os.setgid gid c) [
    | none ↦ (false, c)
    | some c1 ↦ elim (os.clear_groups c1) [
      | none ↦ (false, c1)
      | some c2 ↦ if empty user then (true, c2) else elim (os.initgroups (c_str user) gid c2) [
        | none ↦ (false, c2)
        | some c3 ↦ (true, c3)
      ]
    ]
  ]

  unfoldable pub drop_user : ℕ → Creds → Bool × Creds
  drop_user uid c =
      if uid == unset
      then (true, c)
      else elim (os.setuid uid c) [ none ↦ (false, c) | some c' ↦ (true, c') ]

  unfoldable pub drop_privs : Creds → Bool × Creds
  drop_privs c = elim target_ids [
    | none ↦ (false, c)
    | some (uid, gid) ↦
        let (done, c') = drop_group gid c in
        let last = drop_user uid c' in if done then last else (false, c')
  ]

-- The PID file, if it can be opened; `before` is what the variable holds that is not initialised, and
-- `exists` whether `kill(pid, 0)` returns 0.
unfoldable pub check_pid : ℤ → (ℤ → Bool) → Option Bytes → Bool
check_pid before exists none = true
check_pid before exists (some text) = not (exists (read_int before text))

-- The new content of the PID file, if it can be opened.
unfoldable pub write_pid : Bool → ℕ → Option Bytes → Bool × Option Bytes
write_pid can_open pid file = if can_open then (true, some (decimal pid)) else (false, file)

-- Whether each of the two limits can be set; the last line is `return 0`.
unfoldable pub set_rlimit : Bool → Bool → Bool
set_rlimit core_ok nofile_ok = if not core_ok then false else if not nofile_ok then false else false
