-- ===== src/Tests/Background.antt =====
-- A process that goes to the background with the flags of `main`.
use shadyurl.Common.{◌≡◌, refl, true, false, none, some, codes, if◌then◌else◌, ltb, arith}
use shadyurl.Daemonise.{
  Proc, child, Kernel, going, fork_child, clear_mask, to_root, close_files, open_null, dup_stdin,
  reopen, daemonise,
}
use shadyurl.Daemonise.Detached.{put, IsKernel, IsDetached, daemonise-IsDetached}

abbrev pub quiet : Kernel
quiet = record {
  fork = λ p. child (record p { leader = false });
  setsid = λ p. some (record p { own_session = true; leader = true });
  umask = λ mask p. record p { mask = mask };
  chdir = λ path p. some (record p { cwd = path });
  close = λ fd p. record p { files = put fd none p.files };
  open_max = some 16;
  open_file = λ path p. some (0, record p { files = put 0 (some path) p.files });
  dup2 = λ from to p. some (record p { files = put to (p.files from) p.files });
}

quiet-IsKernel : IsKernel quiet
quiet-IsKernel = record {
  fork_lem = λ p p' h. cc;
  setsid_lem = λ p p' h. cc;
  umask_lem = λ mask p. refl;
  chdir_lem = λ path p p' h. cc;
  close_lem = λ fd p. refl;
  open_lem = λ path fd p p' h. ground arith;
  dup2_lem = λ from to p p' h. cc;
}

abbrev pub shell_child : Proc
shell_child = record {
  own_session = false;
  leader = true;
  mask = 18;
  cwd = codes "/srv";
  files = λ fd. if ltb fd 6 then some (codes "/dev/tty") else none;
}

abbrev pub background : Proc
background = record {
  own_session = true;
  leader = false;
  mask = 0;
  cwd = codes "/";
  files = put 2 (some (codes "/dev/null")) (
      put 1 (some (codes "/dev/null"))
        (put 0 (some (codes "/dev/null")) (put 0 none shell_child.files)));
}

shell_child-run : daemonise quiet 2 shell_child ≡ going background
unfolding daemonise fork_child clear_mask to_root close_files open_null dup_stdin reopen
shell_child-run = refl

daemonise-IsDetached_example : IsDetached quiet 2 shell_child background
daemonise-IsDetached_example =
    daemonise-IsDetached quiet quiet-IsKernel 2 shell_child background shell_child-run
