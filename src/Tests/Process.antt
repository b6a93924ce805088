-- ===== src/Tests/Process.antt =====
-- Privileges and the log level at concrete inputs.
use shadyurl.Common.{
  ℕ, ◌≡◌, ◌↔◌, refl, true, false, none, some, List, [], ◌∷◌, Bytes, codes, bytes_eq, ◌==◌,
  if◌then◌else◌, arith, c_str,
}
use shadyurl.Boost.{lower}
use shadyurl.Boost.Reference.{reference}
use shadyurl.Daemon.{Creds, Os, user_ids, target_ids, drop_group, drop_user, drop_privs}
use shadyurl.Daemon.Privileges.{IsPosix, drop_privs_dropped}
use shadyurl.Log.{warning, set_log_level}
use shadyurl.Log.Level.{name, set_log_level_iff}

-- One user and one group; only root may change its credentials.
abbrev pub unix : Os
unix = record {
  getpwnam = λ user. if bytes_eq user (codes "www") then some (33, 34) else none;
  getgrnam = λ group. if bytes_eq group (codes "web") then some 35 else none;
  setgid = λ gid c. if c.uid == 0 then some (record c { gid = gid }) else none;
  clear_groups = λ c. if c.uid == 0 then some (record c { groups = [] }) else none;
  initgroups =
      λ user gid c. if c.uid == 0 then some (record c { groups = gid ∷ 40 ∷ [] }) else none;
  setuid = λ uid c. if c.uid == 0 then some (record c { uid = uid }) else none;
}

abbrev pub groups_of : Bytes → ℕ → List ℕ
groups_of user gid = gid ∷ 40 ∷ []

unix-setgid : (gid : ℕ) (c c' : Creds) → unix.setgid gid c ≡ some c' → c' ≡ record c { gid = gid }
unix-setgid gid c c' h = ground arith

unix-clear_groups : (c c' : Creds) → unix.clear_groups c ≡ some c' → c' ≡ record c { groups = [] }
unix-clear_groups c c' h = ground arith

unix-initgroups :
    (user : Bytes) (gid : ℕ) (c c' : Creds)
    → unix.initgroups user gid c ≡ some c'
    → c' ≡ record c { groups = groups_of user gid }
unix-initgroups user gid c c' h = ground arith

unix-setuid : (uid : ℕ) (c c' : Creds) → unix.setuid uid c ≡ some c' → c' ≡ record c { uid = uid }
unix-setuid uid c c' h = ground arith

unix-IsPosix : IsPosix unix groups_of
unix-IsPosix = record {
  setgid_sets = unix-setgid;
  clear_groups_sets = unix-clear_groups;
  initgroups_sets = unix-initgroups;
  setuid_sets = unix-setuid;
}

abbrev pub root : Creds
root = record { uid = 0; gid = 0; groups = 0 ∷ 1 ∷ [] }

abbrev guest : Creds
guest = record { uid = 7; gid = 7; groups = 7 ∷ [] }

www_ids : target_ids unix (codes "www") (codes "web") ≡ some (33, 35)
unfolding target_ids user_ids bytes_eq c_str
www_ids = refl

www_dropped : (drop_privs unix (codes "www") (codes "web") root).0 ≡ true
unfolding drop_privs target_ids user_ids drop_group drop_user bytes_eq c_str
www_dropped = refl

guest_refused : (drop_privs unix (codes "www") (codes "web") guest).0 ≡ false
unfolding drop_privs target_ids user_ids drop_group drop_user bytes_eq c_str
guest_refused = refl

drop_privs_dropped_example :
    (drop_privs unix (codes "www") (codes "web") root).1
    ≡ record { uid = 33; gid = 35; groups = 35 ∷ 40 ∷ [] }
drop_privs_dropped_example =
    drop_privs_dropped unix groups_of unix-IsPosix (codes "www") (codes "web") root 33 35 refl
      www_ids (omega arith) (omega arith) www_dropped

set_log_level_iff_example :
    (set_log_level reference (codes "WarninG") none ≡ (true, some warning))
    ↔ (lower (codes "WarninG") ≡ name warning)
set_log_level_iff_example = set_log_level_iff reference (codes "WarninG") warning none
