-- ===== src/Log/Level.antt =====
-- Which names `set_log_level` takes, and what each sets.
use shadyurl.Common.{
  ◌≡◌, ◌≢◌, ◌↔◌, refl, true, false, Option, some, Bytes, codes, arith, inl, inr, Option-cases,
}
use shadyurl.Boost.{StringAlgo, lower}
use shadyurl.Log.{Priority, debug, info, notice, warning, err, crit, alert, priority, set_log_level}

-- The name of a priority, in lower case.
abbrev pub name : Priority → Bytes
name debug = codes "debug"
name info = codes "info"
name notice = codes "notice"
name warning = codes "warning"
name err = codes "error"
name crit = codes "critical"
name alert = codes "alert"

module _ (boost : StringAlgo) where
  priority_lem : (s : Bytes) (p : Priority) → (priority boost s ≡ some p) ↔ (lower s ≡ name p)
  unfolding priority
  priority_lem s p = ground (
    arith,
    boost.iequals_iff s (codes "debug"),
    boost.iequals_iff s (codes "info"),
    boost.iequals_iff s (codes "notice"),
    boost.iequals_iff s (codes "warning"),
    boost.iequals_iff s (codes "error"),
    boost.iequals_iff s (codes "critical"),
    boost.iequals_iff s (codes "alert"),
  )

  -- A text is taken exactly where it is the name of a priority in any case of its letters, and then
  -- that priority is the mask, whatever the mask was.
  pub set_log_level_iff :
      (s : Bytes) (p : Priority) (mask : Option Priority)
      → (set_log_level boost s mask ≡ (true, some p)) ↔ (lower s ≡ name p)
  unfolding set_log_level
  set_log_level_iff s p mask = elim (Option-cases (priority boost s)) [
    | inl e ↦ ground (arith, e, priority_lem s p)
    | inr (q, e) ↦ ground (arith, e, priority_lem s p)
  ]

  -- Any other text is refused, and leaves the mask as it was.
  pub set_log_level-refused :
      (s : Bytes) (mask : Option Priority)
      → ((p : Priority) → lower s ≢ name p)
      → set_log_level boost s mask ≡ (false, mask)
  unfolding set_log_level
  set_log_level-refused s mask other = elim (Option-cases (priority boost s)) [
    | inl e ↦ rw (e, set_log_level) refl
    | inr (q, e) ↦ absurd (other q ((priority_lem s q).0 e))
  ]
