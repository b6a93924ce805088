-- ===== src/Daemon/Privileges.antt =====
-- What `drop_privs` achieves, and what it leaves alone.
use shadyurl.Common.{
  ℕ, ◌≡◌, ◌≢◌, refl, true, false, some, List, [], Bytes, c_str, empty, arith, Option-cases, inl,
  inr,
}
use shadyurl.Daemon.{Creds, Os, unset, target_ids, drop_group, drop_user, drop_privs}

-- What the manual pages say of the four calls: `group_list` are the groups that the group file gives
-- a user beside the group in the second argument.
pub record IsPosix (os : Os) (group_list : Bytes → ℕ → List ℕ) : Type 0 where
  pub setgid_sets :
      (gid : ℕ) (c c' : Creds) → os.setgid gid c ≡ some c' → c' ≡ record c { gid = gid }
  pub clear_groups_sets :
      (c c' : Creds) → os.clear_groups c ≡ some c' → c' ≡ record c { groups = [] }
  pub initgroups_sets :
      (user : Bytes) (gid : ℕ) (c c' : Creds)
      → os.initgroups user gid c ≡ some c'
      → c' ≡ record c { groups = group_list user gid }
  pub setuid_sets :
      (uid : ℕ) (c c' : Creds) → os.setuid uid c ≡ some c' → c' ≡ record c { uid = uid }

module _ (os : Os) (group_list : Bytes → ℕ → List ℕ) (posix : IsPosix os group_list)
    (user group : Bytes) where
  drop_group-uid : (gid : ℕ) (c : Creds) → (drop_group os user group gid c).1.uid ≡ c.uid
  unfolding drop_group
  drop_group-uid gid c = elim (Option-cases (os.setgid gid c)) [
    | inl e ↦ ground (arith, e)
    | inr (c1, e1) ↦
        let s1 = posix.setgid_sets gid c c1 e1 in
        elim (Option-cases (os.clear_groups c1)) [
          | inl e ↦ ground (arith, e1, s1, e)
          | inr (c2, e2) ↦
              let s2 = posix.clear_groups_sets c1 c2 e2 in
              elim (Option-cases (os.initgroups (c_str user) gid c2)) [
                | inl e ↦ ground (arith, e1, s1, e2, s2, e)
                | inr (c3, e3) ↦
                    ground
                      (arith, e1, s1, e2, s2, e3, posix.initgroups_sets (c_str user) gid c2 c3 e3)
              ]
        ]
  ]

  drop_user-failed :
      (uid : ℕ) (c : Creds)
      → (drop_user os user group uid c).0 ≡ false
      → (drop_user os user group uid c).1 ≡ c
  unfolding drop_user
  drop_user-failed uid c h = ground arith

  drop_group_lem :
      (gid : ℕ) (c : Creds)
      → empty user ≡ false
      → gid ≢ unset
      → (drop_group os user group gid c).0 ≡ true
      → (drop_group os user group gid c).1
        ≡ record c { gid = gid; groups = group_list (c_str user) gid }
  unfolding drop_group
  drop_group_lem gid c some_user set done = elim (Option-cases (os.setgid gid c)) [
    | inl e ↦ ground (arith, e)
    | inr (c1, e1) ↦
        let s1 = posix.setgid_sets gid c c1 e1 in
        elim (Option-cases (os.clear_groups c1)) [
          | inl e ↦ ground (arith, e1, s1, e)
          | inr (c2, e2) ↦
              let s2 = posix.clear_groups_sets c1 c2 e2 in
              elim (Option-cases (os.initgroups (c_str user) gid c2)) [
                | inl e ↦ ground (arith, e1, s1, e2, s2, e)
                | inr (c3, e3) ↦
                    ground
                      (arith, e1, s1, e2, s2, e3, posix.initgroups_sets (c_str user) gid c2 c3 e3)
              ]
        ]
  ]

  drop_user_lem :
      (uid : ℕ) (c : Creds)
      → uid ≢ unset
      → (drop_user os user group uid c).0 ≡ true
      → (drop_user os user group uid c).1 ≡ record c { uid = uid }
  unfolding drop_user
  drop_user_lem uid c set done = elim (Option-cases (os.setuid uid c)) [
    | inl e ↦ ground (arith, e)
    | inr (c', e) ↦ ground (arith, e, posix.setuid_sets uid c c' e)
  ]

  -- Where a user is configured and the names stand for a user and a group, a success means that the
  -- process runs as that user and group, with the groups of that user and no other.
  pub drop_privs_dropped :
      (c : Creds) (uid gid : ℕ)
      → empty user ≡ false
      → target_ids os user group ≡ some (uid, gid)
      → uid ≢ unset
      → gid ≢ unset
      → (drop_privs os user group c).0 ≡ true
      → (drop_privs os user group c).1
        ≡ record { uid = uid; gid = gid; groups = group_list (c_str user) gid }
  unfolding drop_privs
  drop_privs_dropped c uid gid some_user ids set_u set_g done =
      let c' = (drop_group os user group gid c).1 in
      ground (arith, drop_group_lem gid c some_user set_g, drop_user_lem uid c' set_u)

  -- Where `drop_privs` fails, the user of the process is the one that it was: the user is given up last.
  pub drop_privs_failed :
      (c : Creds)
      → (drop_privs os user group c).0 ≡ false
      → (drop_privs os user group c).1.uid ≡ c.uid
  unfolding drop_privs
  drop_privs_failed c failed = elim (Option-cases (target_ids os user group)) [
    | inl e ↦ rw (e, drop_privs) refl
    | inr ((uid, gid), e) ↦
        let c' = (drop_group os user group gid c).1 in
        ground (arith, e, drop_group-uid gid c, drop_user-failed uid c')
  ]
