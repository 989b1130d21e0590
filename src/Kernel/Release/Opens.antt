-- ===== src/Kernel/Release/Opens.antt =====
-- `sys_open`, `sys_mkdir`, `sys_mknod` and `sys_chdir` give back what they take.
use learn_mit_s.Common.{ℕ, ◌%◌, ◌^◌, not, ◌&&◌, Option, none, some, ◌==◌}
use learn_mit_s.Common.{pos}
use learn_mit_s.Kernel.Inode.{iunlockput, itrunc}
use learn_mit_s.Kernel.Path.{Text}
use learn_mit_s.Kernel.Locks.Trunc.{itrunc-Keeps}
use learn_mit_s.Kernel.Sys.{maxpath, Sys, ◌>>=◌, ◌>>◌, pure, call, end_op, argint, fileclose}
use learn_mit_s.Kernel.Fileio.{minus_one, no_device}
use learn_mit_s.Kernel.Syspath.{
  t_dir, t_file, t_device, has_flag, o_create, o_trunc, lookup, give_up, put_and_give_up,
}
use learn_mit_s.Kernel.Sysopen.{
  create, opened, open_done, open_file, open_inode, open_existing, open_created, open_path,
  sys_open, finish_make, sys_mkdir, sys_mknod, put_cwd, set_cwd, chdir_to, sys_chdir,
}
use learn_mit_s.Kernel.Release.{
  Holding, Has, with_lock, in_op, IsFree, EndsIn, Moves, chain, seq, answer, branch, call-Keeps,
  ilock_seq, iunlock-Moves, iunlockput-Moves, begin_op-Moves, end_op-Moves,
}
use learn_mit_s.Kernel.Release.Files.{
  argstr-Moves, argint-Moves, filealloc-Moves, fileclose-Moves, set_file-Moves, fdalloc-Moves,
}
use learn_mit_s.Kernel.Release.Links.{
  inode-Moves, iput-Moves, lookup-Moves, give_up-Moves, put_and_give_up-Moves,
}
use learn_mit_s.Kernel.Release.Creates.{Created, create-Gives}

open_done-Moves :
    {h : Holding} (ip omode f fd : ℕ)
    → IsFree ip h
    → Moves (with_lock ip (in_op h)) (open_done ip omode f fd) h
unfolding open_done
open_done-Moves {h} ip omode f fd free = seq (inode-Moves ip) λ x.
    seq (set_file-Moves f (opened ip omode x)) λ _.
      seq
        (branch (has_flag o_trunc omode && x.type == t_file)
          (λ e. call-Keeps (itrunc ip) (itrunc-Keeps ip)) λ e. answer tt λ s has. has)
        λ _.
          seq (iunlock-Moves {h = in_op h} ip free)
            λ _. seq end_op-Moves λ _. answer (pos fd) λ s has. has

open_file-Moves :
    {h : Holding} (ip omode f : ℕ)
    → IsFree ip h
    → Moves (with_lock ip (in_op h)) (open_file ip omode f) h
unfolding open_file
open_file-Moves {h} ip omode f free = seq (fdalloc-Moves f) placed
  where
    placed :
        (fd : Option ℕ)
        → Moves
            (with_lock ip (in_op h))
            (elim fd [
              | none ↦ do fileclose f; put_and_give_up ip
              | some d ↦ open_done ip omode f d
            ])
            h
    placed none = seq (fileclose-Moves f) λ _. put_and_give_up-Moves {h = h} ip free
    placed (some d) = open_done-Moves {h = h} ip omode f d free

open_inode-Moves :
    {h : Holding} (ip omode : ℕ)
    → IsFree ip h
    → Moves (with_lock ip (in_op h)) (open_inode ip omode) h
unfolding open_inode
open_inode-Moves {h} ip omode free = seq (inode-Moves ip) λ x.
    branch (x.type == t_device && no_device x.major) (λ e. put_and_give_up-Moves {h = h} ip free)
      λ e. seq filealloc-Moves with_file
  where
    with_file :
        (f : Option ℕ)
        → Moves
            (with_lock ip (in_op h))
            (elim f [ none ↦ put_and_give_up ip | some g ↦ open_file ip omode g ])
            h
    with_file none = put_and_give_up-Moves {h = h} ip free
    with_file (some g) = open_file-Moves {h = h} ip omode g free

open_existing-Moves : {h : Holding} (ip omode : ℕ) → Moves (in_op h) (open_existing ip omode) h
unfolding open_existing
open_existing-Moves {h} ip omode = ilock_seq ip λ free. seq (inode-Moves ip) λ x.
    branch (x.type == t_dir && not (omode == 0)) (λ e. put_and_give_up-Moves {h = h} ip free)
      λ e. open_inode-Moves {h = h} ip omode free

opens-Created :
    (h : Holding) (omode : ℕ) (r : Option ℕ) (s : Sys)
    → Created (in_op h) r s
    → EndsIn (λ _. Has h) (open_created omode r s)
unfolding open_created
opens-Created h omode none s c = (give_up-Moves {h = h}).runs s c
opens-Created h omode (some ip) s (free, has) = (open_inode-Moves {h = h} ip omode free).runs s has

module _ {h : Holding} (omode : ℕ) where
  opens_found :
      (r : Option ℕ)
      → Moves (in_op h) (elim r [ none ↦ give_up | some ip ↦ open_existing ip omode ]) h
  opens_found none = give_up-Moves
  opens_found (some ip) = open_existing-Moves ip omode

  open_path-Moves : (path : Text) → Moves h (open_path path omode) h
  unfolding open_path
  open_path-Moves path = seq begin_op-Moves λ _.
      branch (has_flag o_create omode)
        (λ e. chain (open_created omode) (create-Gives path t_file 0 0) (opens-Created h omode))
        λ e. seq (lookup-Moves path) opens_found

pub sys_open-Moves : {h : Holding} → Moves h sys_open h
unfolding sys_open
sys_open-Moves {h} = seq (argstr-Moves 0 maxpath) with_path
  where
    with_path :
        (r : Option Text)
        → Moves h
            (elim r [ none ↦ pure minus_one | some p ↦ do omode ← argint 1; open_path p omode ])
            h
    with_path none = answer minus_one λ s has. has
    with_path (some p) = seq (argint-Moves 1) λ omode. open_path-Moves omode p

finish_make-Ends :
    (h : Holding) (r : Option ℕ) (s : Sys)
    → Created (in_op h) r s
    → EndsIn (λ _. Has h) (finish_make r s)
unfolding finish_make
finish_make-Ends h none s c = (give_up-Moves {h = h}).runs s c
finish_make-Ends h (some ip) s (free, has) =
    let close : Moves (with_lock ip (in_op h)) (call (iunlockput ip) >> (end_op >> pure (pos 0)))
        h =
      seq (iunlockput-Moves {h = in_op h} ip free)
        λ _. seq end_op-Moves λ _. answer (pos 0) λ s has. has in
    close.runs s has

pub sys_mkdir-Moves : {h : Holding} → Moves h sys_mkdir h
unfolding sys_mkdir
sys_mkdir-Moves {h} = seq begin_op-Moves λ _. seq (argstr-Moves 0 maxpath) with_path
  where
    with_path :
        (r : Option Text)
        → Moves
            (in_op h)
            (elim r [ none ↦ give_up | some p ↦ do i ← create p t_dir 0 0; finish_make i ])
            h
    with_path none = give_up-Moves
    with_path (some p) = chain finish_make (create-Gives p t_dir 0 0) (finish_make-Ends h)

pub sys_mknod-Moves : {h : Holding} → Moves h sys_mknod h
unfolding sys_mknod
sys_mknod-Moves {h} = seq begin_op-Moves λ _. seq (argstr-Moves 0 maxpath) with_path
  where
    with_path :
        (r : Option Text)
        → Moves
            (in_op h)
            (elim r [
              | none ↦ give_up
              | some p ↦ do
                major ← argint 1
                minor ← argint 2
                i ← create p t_device (major % 2 ^ 16) (minor % 2 ^ 16)
                finish_make i
            ])
            h
    with_path none = give_up-Moves
    with_path (some p) = seq (argint-Moves 1) λ major. seq (argint-Moves 2) λ minor.
        chain finish_make (create-Gives p t_device (major % 2 ^ 16) (minor % 2 ^ 16))
          (finish_make-Ends h)

put_cwd-Moves : {h : Holding} → Moves h put_cwd h
put_cwd-Moves = record { runs = λ s has. (iput-Moves s.cwd).runs s has }

set_cwd-Moves : {h : Holding} (ip : ℕ) → Moves h (set_cwd ip) h
set_cwd-Moves ip = record { runs = λ s has. record { fs = has.fs; ops = has.ops } }

chdir_to-Moves : {h : Holding} (ip : ℕ) → Moves (in_op h) (chdir_to ip) h
unfolding chdir_to
chdir_to-Moves {h} ip = ilock_seq ip λ free. seq (inode-Moves ip) λ x.
    branch (not (x.type == t_dir)) (λ e. put_and_give_up-Moves {h = h} ip free)
      λ e. seq (iunlock-Moves {h = in_op h} ip free) λ _.
        seq put_cwd-Moves λ _.
          seq (end_op-Moves {h = h}) λ _. seq (set_cwd-Moves ip) λ _. answer (pos 0) λ s has. has

pub sys_chdir-Moves : {h : Holding} → Moves h sys_chdir h
unfolding sys_chdir
sys_chdir-Moves {h} = seq begin_op-Moves λ _. seq (argstr-Moves 0 maxpath) with_path
  where
    to : (r : Option ℕ) → Moves (in_op h) (elim r [ none ↦ give_up | some ip ↦ chdir_to ip ]) h
    to none = give_up-Moves
    to (some ip) = chdir_to-Moves ip

    with_path :
        (r : Option Text)
        → Moves
            (in_op h)
            (elim r [
              | none ↦ give_up
              | some p ↦ do i ← lookup p; elim i [ none ↦ give_up | some ip ↦ chdir_to ip ]
            ])
            h
    with_path none = give_up-Moves
    with_path (some p) = seq (lookup-Moves p) to
