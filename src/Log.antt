-- ===== src/Log.antt =====
-- src/log.cpp: the log level of the configuration, and what `fail` gives to syslog.
pub mod Level
use shadyurl.Common.{
  ℕ, Bool, true, false, Option, none, some, List, [], ◌∷◌, ◌++◌, Bytes, c_str, codes, if◌then◌else◌,
}
use shadyurl.Boost.{StringAlgo}

-- The priorities that a name stands for, `LOG_DEBUG` to `LOG_ALERT`.
pub data Priority : Type 0 where
  debug : Priority
  info : Priority
  notice : Priority
  warning : Priority
  err : Priority
  crit : Priority
  alert : Priority

-- A `beast::error_code`: whether it is `ssl::error::stream_truncated`, and what it says.
pub record ErrorCode : Type 0 where
  pub stream_truncated : Bool
  pub message : Bytes

-- A line for syslog.
pub record Entry : Type 0 where
  pub priority : Priority
  pub text : Bytes

-- A short read is not reported.
unfoldable pub fail : ErrorCode → Bytes → List Entry
fail ec what =
    if ec.stream_truncated
    then []
    else record { priority = info; text = what ++ codes ": " ++ c_str ec.message } ∷ []

module _ (boost : StringAlgo) where
  unfoldable pub priority : Bytes → Option Priority
  priority level =
      if boost.iequals level (codes "debug")
      then some debug
      else if boost.iequals level (codes "info")
      then some info
      else if boost.iequals level (codes "notice")
      then some notice
      else if boost.iequals level (codes "warning")
      then some warning
      else if boost.iequals level (codes "error")
      then some err
      else if boost.iequals level (codes "critical")
      then some crit
      else if boost.iequals level (codes "alert")
      then some alert
      else none

  -- The least urgent priority that is logged; `none` is the mask of the C library, all of them.
  unfoldable pub set_log_level : Bytes → Option Priority → Bool × Option Priority
  set_log_level level mask = elim (priority level) [
    | none ↦ (false, mask)
    | some p ↦ (true, some p)
  ]
