-- ===== src/Daemonise/Detached.antt =====
-- What `daemonise` achieves where it returns true.
use shadyurl.Common.{
  zero, suc, ◌≡◌, refl, sym, ap, ◌∙◌, Bool, true, false, Option, none, some, Bytes, codes, ℕ, ltb,
  ◌==◌, if◌then◌else◌, arith, inl, inr, Option-cases,
}
use shadyurl.Daemonise.{
  Proc, child, Kernel, Run, exited, failed, going, ◌>>=◌, has, d_no_chdir, d_no_close_files,
  d_no_reopen_std_fds, d_no_umask0, or_failed, fork_child, clear_mask, to_root, close_below, max_fd,
  unless, close_files, open_null, dup_stdin, reopen, daemonise,
}

abbrev pub put : ℕ → Option Bytes → (ℕ → Option Bytes) → ℕ → Option Bytes
put fd file files n = if n == fd then file else files n

abbrev pub with_files : (ℕ → Option Bytes) → Proc → Proc
with_files files p = record p { files = files }

-- What the manual pages say of the calls.
pub record IsKernel (kernel : Kernel) : Type 0 where
  pub fork_lem : (p p' : Proc) → kernel.fork p ≡ child p' → p' ≡ record p { leader = false }
  pub setsid_lem :
      (p p' : Proc)
      → kernel.setsid p ≡ some p'
      → p' ≡ record p { own_session = true; leader = true }
  pub umask_lem : (mask : ℕ) (p : Proc) → kernel.umask mask p ≡ record p { mask = mask }
  pub chdir_lem :
      (path : Bytes) (p p' : Proc) → kernel.chdir path p ≡ some p' → p' ≡ record p { cwd = path }
  pub close_lem : (fd : ℕ) (p : Proc) → kernel.close fd p ≡ record p { files = put fd none p.files }
  pub open_lem :
      (path : Bytes) (fd : ℕ) (p p' : Proc)
      → kernel.open_file path p ≡ some (fd, p')
      → p' ≡ record p { files = put fd (some path) p.files }
  pub dup2_lem :
      (from to : ℕ) (p p' : Proc)
      → kernel.dup2 from to p ≡ some p'
      → p' ≡ record p { files = put to (p.files from) p.files }

bind-going :
    (m : Run) (f : Proc → Run) (p' : Proc)
    → (m >>= f) ≡ going p'
    → (p : Proc) × (m ≡ going p) × (f p ≡ going p')
bind-going exited f p' h = absurd cc
bind-going (failed p) f p' h = absurd cc
bind-going (going p) f p' h = (p, refl, h)

or_failed-going : (p p' : Proc) (o : Option Proc) → or_failed p o ≡ going p' → o ≡ some p'
or_failed-going p p' none h = cc
or_failed-going p p' (some q) h = cc

fork_child-going :
    (kernel : Kernel) (p p' : Proc) → fork_child kernel p ≡ going p' → kernel.fork p ≡ child p'
unfolding fork_child
fork_child-going kernel p p' h = ground arith

-- Descriptors 0, 1 and 2, opened anew.
abbrev dark : (ℕ → Option Bytes) → ℕ → Option Bytes
dark files fd = if ltb fd 3 then some (codes "/dev/null") else files fd

-- Unless the flag is set.
abbrev pub darkened : Bool → (ℕ → Option Bytes) → ℕ → Option Bytes
darkened keep files fd = if keep then files fd else dark files fd

module _ (kernel : Kernel) where
  -- The descriptors after the loop of `close`, unless its flag is set.
  abbrev pub closed : Bool → (ℕ → Option Bytes) → ℕ → Option Bytes
  closed keep files fd =
      if keep then files fd else (if ltb fd (max_fd kernel) then none else files fd)

  -- The process `q` in terms of the process `p` that called `daemonise`.
  pub record IsDetached (flags : ℕ) (p q : Proc) : Type 0 where
    pub apart : q.own_session ≡ true
    pub follower : q.leader ≡ false
    pub mask_is : q.mask ≡ (if has flags d_no_umask0 then p.mask else 0)
    pub cwd_is : q.cwd ≡ (if has flags d_no_chdir then p.cwd else codes "/")
    pub files_are :
        (fd : ℕ)
        → q.files fd
          ≡ darkened
              (has flags d_no_reopen_std_fds)
              (closed (has flags d_no_close_files) p.files)
              fd

module _ (kernel : Kernel) (laws : IsKernel kernel) where
  close_below-kept :
      (n : ℕ) (p : Proc)
      → close_below kernel n p ≡ record p { files = (close_below kernel n p).files }
  unfolding close_below
  close_below-kept zero p = refl
  close_below-kept (suc n) p =
      let q = close_below kernel n p in
      rw (laws.close_lem n q) (ap (with_files (put n none q.files)) (close_below-kept n p))

  close_below-files :
      (n fd : ℕ) (p : Proc)
      → (close_below kernel n p).files fd ≡ (if ltb fd n then none else p.files fd)
  unfolding close_below
  close_below-files zero fd p = ground arith
  close_below-files (suc n) fd p =
      rw (laws.close_lem n (close_below kernel n p)) (ground (arith, close_below-files n fd p))

  open_null-going :
      (p p' : Proc)
      → open_null kernel p ≡ going p'
      → kernel.open_file (codes "/dev/null") p ≡ some (0, p')
  unfolding open_null
  open_null-going p p' h = elim (Option-cases (kernel.open_file (codes "/dev/null") p)) [
    | inl n ↦ ground (arith, n)
    | inr ((fd, q), e) ↦ ground (arith, e)
  ]

  dark_lem :
      (p p1 p2 p3 : Proc)
      → kernel.open_file (codes "/dev/null") (kernel.close 0 p) ≡ some (0, p1)
      → kernel.dup2 0 1 p1 ≡ some p2
      → kernel.dup2 0 2 p2 ≡ some p3
      → (p3 ≡ with_files p3.files p) × ((fd : ℕ) → p3.files fd ≡ dark p.files fd)
  dark_lem p p1 p2 p3 h1 h2 h3 =
      let e0 = laws.close_lem 0 p in
      let e1 = laws.open_lem (codes "/dev/null") 0 (kernel.close 0 p) p1 h1 in
      let e2 = laws.dup2_lem 0 1 p1 p2 h2 in
      let e3 = laws.dup2_lem 0 2 p2 p3 h3 in rw (e3, e2, e1, e0) (refl, λ fd. ground arith)

  reopen-going :
      (p p' : Proc)
      → reopen kernel p ≡ going p'
      → (p' ≡ with_files p'.files p) × ((fd : ℕ) → p'.files fd ≡ dark p.files fd)
  unfolding reopen dup_stdin
  reopen-going p p' h =
      let (p1, e1, h1) =
        bind-going (open_null kernel (kernel.close 0 p))
          (λ q. dup_stdin kernel 1 q >>= dup_stdin kernel 2) p' h in
      let (p2, e2, h2) = bind-going (dup_stdin kernel 1 p1) (dup_stdin kernel 2) p' h1 in
      dark_lem p p1 p2 p' (open_null-going (kernel.close 0 p) p1 e1)
        (or_failed-going p1 p2 (kernel.dup2 0 1 p1) e2)
        (or_failed-going p2 p' (kernel.dup2 0 2 p2) h2)

  going-inj : (p q : Proc) → going p ≡ going q → p ≡ q
  going-inj p q h = cc

  mask_step :
      (b : Bool) (p q : Proc)
      → unless b (clear_mask kernel) p ≡ going q
      → q ≡ record p { mask = if b then p.mask else 0 }
  unfolding clear_mask
  mask_step true p q h = cc
  mask_step false p q h = sym (going-inj (kernel.umask 0 p) q h) ∙ laws.umask_lem 0 p

  cwd_step :
      (b : Bool) (p q : Proc)
      → unless b (to_root kernel) p ≡ going q
      → q ≡ record p { cwd = if b then p.cwd else codes "/" }
  unfolding to_root
  cwd_step true p q h = cc
  cwd_step false p q h =
      laws.chdir_lem (codes "/") p q (or_failed-going p q (kernel.chdir (codes "/") p) h)

  close_step :
      (b : Bool) (p q : Proc)
      → unless b (close_files kernel) p ≡ going q
      → (q ≡ with_files q.files p) × ((fd : ℕ) → q.files fd ≡ closed kernel b p.files fd)
  unfolding close_files
  close_step true p q h = rw (sym (going-inj p q h)) (refl, λ fd. refl)
  close_step false p q h =
      let n = max_fd kernel in
      rw (sym (going-inj (close_below kernel n p) q h))
        (close_below-kept n p, λ fd. close_below-files n fd p)

  reopen_step :
      (b : Bool) (p q : Proc)
      → unless b (reopen kernel) p ≡ going q
      → (q ≡ with_files q.files p) × ((fd : ℕ) → q.files fd ≡ darkened b p.files fd)
  reopen_step true p q h = rw (sym (going-inj p q h)) (refl, λ fd. refl)
  reopen_step false p q h = reopen-going p q h

  -- Where `daemonise` returns true, the process is in a session of its own that it does not lead, so
  -- that it cannot get a controlling terminal; and unless its flag is set, the file mode mask is 0,
  -- the directory is the root, the descriptors below the limit are closed, and 0, 1 and 2 are
  -- /dev/null.
  pub daemonise-IsDetached :
      (flags : ℕ) (p q : Proc) → daemonise kernel flags p ≡ going q → IsDetached kernel flags p q
  unfolding daemonise
  daemonise-IsDetached flags p q h =
      let f7 : Proc → Run = unless (has flags d_no_reopen_std_fds) (reopen kernel) in
      let f6 : Proc → Run =
        λ r. unless (has flags d_no_close_files) (close_files kernel) r >>= f7 in
      let f5 : Proc → Run = λ r. unless (has flags d_no_chdir) (to_root kernel) r >>= f6 in
      let f4 : Proc → Run = λ r. unless (has flags d_no_umask0) (clear_mask kernel) r >>= f5 in
      let f3 : Proc → Run = λ r. fork_child kernel r >>= f4 in
      let f2 : Proc → Run = λ r. or_failed r (kernel.setsid r) >>= f3 in
      let (p1, e1, h1) = bind-going (fork_child kernel p) f2 q h in
      let (p2, e2, h2) = bind-going (or_failed p1 (kernel.setsid p1)) f3 q h1 in
      let (p3, e3, h3) = bind-going (fork_child kernel p2) f4 q h2 in
      let (p4, e4, h4) =
        bind-going (unless (has flags d_no_umask0) (clear_mask kernel) p3) f5 q h3 in
      let (p5, e5, h5) = bind-going (unless (has flags d_no_chdir) (to_root kernel) p4) f6 q h4 in
      let (p6, e6, h6) =
        bind-going (unless (has flags d_no_close_files) (close_files kernel) p5) f7 q h5 in
      let l1 = laws.fork_lem p p1 (fork_child-going kernel p p1 e1) in
      let l2 = laws.setsid_lem p1 p2 (or_failed-going p1 p2 (kernel.setsid p1) e2) in
      let l3 = laws.fork_lem p2 p3 (fork_child-going kernel p2 p3 e3) in
      let l4 = mask_step (has flags d_no_umask0) p3 p4 e4 in
      let l5 = cwd_step (has flags d_no_chdir) p4 p5 e5 in
      let (l6, k6) = close_step (has flags d_no_close_files) p5 p6 e6 in
      let (l7, k7) = reopen_step (has flags d_no_reopen_std_fds) p6 q h6 in
      record {
        apart = ground arith;
        follower = ground arith;
        mask_is = ground arith;
        cwd_is = ground arith;
        files_are = λ fd. ground (arith, k6 fd, k7 fd);
      }
