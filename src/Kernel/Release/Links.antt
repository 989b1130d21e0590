-- ===== src/Kernel/Release/Links.antt =====
-- `sys_link` and `sys_unlink` give back what they take.
use learn_mit_s.Common.{ℕ, ◌≡◌, refl, Option, none, some, ◌==◌}
use learn_mit_s.Common.{pos}
use learn_mit_s.Kernel.Fs.{Inode}
use learn_mit_s.Kernel.Inode.{inode_at, set_inode, iupdate, iput}
use learn_mit_s.Kernel.Path.{Text}
use learn_mit_s.Kernel.Dir.{dirlookup, dirlink, name_bytes, namei, nameiparent}
use learn_mit_s.Kernel.Locks.{set_inode-At}
use learn_mit_s.Kernel.Locks.Inodes.{iupdate-Keeps}
use learn_mit_s.Kernel.Locks.Trunc.{iput-Keeps}
use learn_mit_s.Kernel.Locks.Dirs.{dirlookup-Keeps, dirlink-Keeps, namei-Keeps, nameiparent-Keeps}
use learn_mit_s.Kernel.Sys.{◌>>=◌, pure, call, argstr, maxpath}
use learn_mit_s.Kernel.Fileio.{minus_one}
use learn_mit_s.Kernel.Syspath.{
  t_dir, lookup, lookup_parent, link_in, inode, give_up, put_and_give_up, one_more_link,
  one_less_link, link_bad, link_entry, link_inode, link_paths, sys_link, find_in,
}
use learn_mit_s.Kernel.Release.{
  Holding, with_lock, in_op, IsFree, Moves, seq, answer, branch, call-Keeps, ilock_seq,
  iunlock-Moves, iunlockput-Moves, begin_op-Moves, end_op-Moves,
}
use learn_mit_s.Kernel.Release.Files.{argstr-Moves}

-- Changes of an inode and lookups take nothing.
pub set_inode-Moves :
    {h : Holding} (ip : ℕ) (f : Inode → Inode)
    → ((x : Inode) → (f x).owned ≡ x.owned)
    → Moves h (call (set_inode ip f)) h
set_inode-Moves ip f same = call-Keeps (set_inode ip f) (λ l s at. set_inode-At ip f l s same at)

pub inode-Moves : {h : Holding} (ip : ℕ) → Moves h (inode ip) h
inode-Moves ip = call-Keeps (inode_at ip) (λ l s at. at)

pub iupdate-Moves : {h : Holding} (ip : ℕ) → Moves h (call (iupdate ip)) h
iupdate-Moves ip = call-Keeps (iupdate ip) (iupdate-Keeps ip)

pub iput-Moves : {h : Holding} (ip : ℕ) → Moves h (call (iput ip)) h
iput-Moves ip = call-Keeps (iput ip) (iput-Keeps ip)

pub lookup-Moves : {h : Holding} (path : Text) → Moves h (lookup path) h
lookup-Moves path = record {
  runs =
      λ s has. (call-Keeps (namei s.space s.cwd path) (namei-Keeps s.space s.cwd path)).runs s has;
}

pub lookup_parent-Moves : {h : Holding} (path : Text) → Moves h (lookup_parent path) h
lookup_parent-Moves path = record {
  runs = λ s has.
      (call-Keeps (nameiparent s.space s.cwd path) (nameiparent-Keeps s.space s.cwd path)).runs s
        has;
}

pub link_in-Moves :
    {h : Holding} (dp : ℕ) (name : Text) (inum : ℕ) → Moves h (link_in dp name inum) h
link_in-Moves dp name inum = record {
  runs = λ s has.
      (call-Keeps (dirlink s.space dp (name_bytes name) inum)
          (dirlink-Keeps s.space dp (name_bytes name) inum)).runs
        s has;
}

pub find_in-Moves : {h : Holding} (dp : ℕ) (name : Text) → Moves h (find_in dp name) h
find_in-Moves dp name = record {
  runs = λ s has.
      (call-Keeps (dirlookup s.space dp (name_bytes name))
          (dirlookup-Keeps s.space dp (name_bytes name))).runs
        s has;
}

pub give_up-Moves : {h : Holding} → Moves (in_op h) give_up h
unfolding give_up
give_up-Moves = seq end_op-Moves λ _. answer minus_one λ s has. has

pub put_and_give_up-Moves :
    {h : Holding} (ip : ℕ) → IsFree ip h → Moves (with_lock ip (in_op h)) (put_and_give_up ip) h
unfolding put_and_give_up
put_and_give_up-Moves {h} ip free = seq (iunlockput-Moves {h = in_op h} ip free) λ _. give_up-Moves

link_bad-Moves : {h : Holding} (ip : ℕ) → Moves (in_op h) (link_bad ip) h
unfolding link_bad
link_bad-Moves ip = ilock_seq ip λ free.
    seq (set_inode-Moves ip one_less_link (λ x. refl))
      λ _. seq (iupdate-Moves ip) λ _. put_and_give_up-Moves ip free

link_entry-Moves :
    {h : Holding} (ip dp : ℕ) (name : Text) → Moves (in_op h) (link_entry ip dp name) h
unfolding link_entry
link_entry-Moves {h} ip dp name = ilock_seq dp λ free. seq (inode-Moves ip) λ x.
    seq (link_in-Moves dp name x.inum) λ ok. seq (iunlockput-Moves {h = in_op h} dp free) λ _.
      branch ok (λ e. seq (iput-Moves ip) λ _. seq end_op-Moves λ _. answer (pos 0) λ s has. has)
        λ e. link_bad-Moves ip

link_inode-Moves : {h : Holding} (ip : ℕ) (new : Text) → Moves (in_op h) (link_inode ip new) h
unfolding link_inode
link_inode-Moves {h} ip new = ilock_seq ip λ free. seq (inode-Moves ip) λ x.
    branch (x.type == t_dir) (λ e. put_and_give_up-Moves ip free)
      λ e. seq (set_inode-Moves ip one_more_link (λ y. refl)) λ _. seq (iupdate-Moves ip) λ _.
        seq (iunlock-Moves {h = in_op h} ip free)
          λ _. seq (lookup_parent-Moves new) λ r. link_to r.0 r.1
  where
    link_to :
        (dp : Option ℕ) (name : Text)
        → Moves (in_op h) (elim dp [ none ↦ link_bad ip | some d ↦ link_entry ip d name ]) h
    link_to none name = link_bad-Moves ip
    link_to (some d) name = link_entry-Moves ip d name

start_link :
    {h : Holding} (r : Option ℕ) (new : Text)
    → Moves (in_op h) (elim r [ none ↦ give_up | some ip ↦ link_inode ip new ]) h
start_link none new = give_up-Moves
start_link (some ip) new = link_inode-Moves ip new

link_paths-Moves : {h : Holding} (old new : Text) → Moves h (link_paths old new) h
unfolding link_paths
link_paths-Moves old new = seq begin_op-Moves λ _. seq (lookup-Moves old) λ r. start_link r new

pub sys_link-Moves : {h : Holding} → Moves h sys_link h
unfolding sys_link
sys_link-Moves {h} = seq (argstr-Moves 0 maxpath) first
  where
    second :
        (o : Text) (n : Option Text)
        → Moves h (elim n [ none ↦ pure minus_one | some p ↦ link_paths o p ]) h
    second o none = answer minus_one λ s has. has
    second o (some p) = link_paths-Moves o p

    first :
        (old : Option Text)
        → Moves h
            (elim old [
              | none ↦ pure minus_one
              | some o ↦ do
                new ← argstr 1 maxpath
                elim new [ none ↦ pure minus_one | some n ↦ link_paths o n ]
            ])
            h
    first none = answer minus_one λ s has. has
    first (some o) = seq (argstr-Moves 1 maxpath) (second o)
