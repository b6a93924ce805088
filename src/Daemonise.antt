-- ===== src/Daemonise.antt =====
-- src/daemon.cpp: `daemonise`, with its flags from include/daemon.hpp. The system calls are a parameter.
pub mod Detached
use shadyurl.Common.{
  ℕ, zero, suc, ◌+◌, ◌*◌, ◌/◌, ◌%◌, ◌≡◌, Bool, true, false, not, Option, none, some, List, [], ◌∷◌,
  Bytes, codes, ◌==◌, if◌then◌else◌,
}

-- What `daemonise` changes of the process.
pub record Proc : Type 0 where
  -- whether it is in a session of its own, and whether it leads that
  pub own_session : Bool
  pub leader : Bool
  pub mask : ℕ
  pub cwd : Bytes
  -- the path of the file that a descriptor stands for
  pub files : ℕ → Option Bytes

-- `fork` returns -1, in the child, or in the parent.
pub data Fork : Type 0 where
  error : Fork
  child : Proc → Fork
  parent : Fork

-- `none` is the result -1.
pub record Kernel : Type 0 where
  pub fork : Proc → Fork
  pub setsid : Proc → Option Proc
  pub umask : ℕ → Proc → Proc
  pub chdir : Bytes → Proc → Option Proc
  pub close : ℕ → Proc → Proc
  -- `sysconf(_SC_OPEN_MAX)`
  pub open_max : Option ℕ
  pub open_file : Bytes → Proc → Option (ℕ × Proc)
  pub dup2 : ℕ → ℕ → Proc → Option Proc

-- How far a process comes: `_exit(EXIT_SUCCESS)`, `return false`, or on to the next line.
pub data Run : Type 0 where
  exited : Run
  failed : Proc → Run
  going : Proc → Run

infixl 5 ◌>>=◌
abbrev pub ◌>>=◌ : Run → (Proc → Run) → Run
exited >>= f = exited
failed p >>= f = failed p
going p >>= f = f p

abbrev pub d_no_chdir : ℕ
d_no_chdir = 1

abbrev pub d_no_close_files : ℕ
d_no_close_files = 2

abbrev pub d_no_reopen_std_fds : ℕ
d_no_reopen_std_fds = 4

abbrev pub d_no_umask0 : ℕ
d_no_umask0 = 8

abbrev pub d_max_close : ℕ
d_max_close = 8192

-- `flags & d`, for a `d` of one bit.
abbrev pub has : ℕ → ℕ → Bool
has flags d = flags / d % 2 == 1

abbrev pub or_failed : Proc → Option Proc → Run
or_failed p none = failed p
or_failed p (some p') = going p'

-- `if(!set)`
abbrev pub unless : Bool → (Proc → Run) → Proc → Run
unless true f p = going p
unless false f p = f p

module _ (kernel : Kernel) where
  unfoldable pub fork_child : Proc → Run
  fork_child p = elim (kernel.fork p) [ error ↦ failed p | child p' ↦ going p' | parent ↦ exited ]

  unfoldable pub clear_mask : Proc → Run
  clear_mask p = going (kernel.umask 0 p)

  unfoldable pub to_root : Proc → Run
  to_root p = or_failed p (kernel.chdir (codes "/") p)

  -- `for(fd = 0; fd < maxfd; fd++) close(fd)`
  unfoldable pub close_below : ℕ → Proc → Proc
  close_below zero p = p
  close_below (suc fd) p = kernel.close fd (close_below fd p)

  abbrev pub max_fd : ℕ
  max_fd = elim kernel.open_max [ none ↦ d_max_close | some n ↦ n ]

  unfoldable pub close_files : Proc → Run
  close_files p = going (close_below max_fd p)

  -- `open` has to give descriptor 0, the lowest that is free.
  unfoldable pub open_null : Proc → Run
  open_null p = elim (kernel.open_file (codes "/dev/null") p) [
    | none ↦ failed p
    | some (fd, p') ↦ if fd == 0 then going p' else failed p'
  ]

  unfoldable pub dup_stdin : ℕ → Proc → Run
  dup_stdin fd p = or_failed p (kernel.dup2 0 fd p)

  unfoldable pub reopen : Proc → Run
  reopen p = do p1 ← open_null (kernel.close 0 p); p2 ← dup_stdin 1 p1; dup_stdin 2 p2

  unfoldable pub daemonise : ℕ → Proc → Run
  daemonise flags p = do
    p1 ← fork_child p
    p2 ← or_failed p1 (kernel.setsid p1)
    p3 ← fork_child p2
    p4 ← unless (has flags d_no_umask0) clear_mask p3
    p5 ← unless (has flags d_no_chdir) to_root p4
    p6 ← unless (has flags d_no_close_files) close_files p5
    unless (has flags d_no_reopen_std_fds) reopen p6
