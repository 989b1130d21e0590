-- ===== src/Kernel/Release/Unlinks.antt =====
-- `sys_unlink` gives back what it takes.
use learn_mit_s.Common.{
  ℕ, zero, suc, ◌+◌, ◌*◌, ◌/◌, refl, sym, ◌∙◌, inl, inr, arith, ltb, Bool-cases, if-true, if-false,
  Bool, true, false, not, Option, none, some, ◌==◌, if_both, if◌then◌else◌,
}
use learn_mit_s.Common.{ℤ, pos}
use learn_mit_s.Kernel.Fs
use learn_mit_s.Kernel.Fs.{Fs, Inode, M}
use learn_mit_s.Kernel.Inode.{iunlockput}
use learn_mit_s.Kernel.Path.{Text}
use learn_mit_s.Kernel.Str.{memset}
use learn_mit_s.Kernel.Fs.Words.{load16}
use learn_mit_s.Kernel.Content.{Space, readi, writei}
use learn_mit_s.Kernel.Dir.{dirent_size}
use learn_mit_s.Kernel.Locks.{Locks, At, EndsAt, Takes, Keeps, set_inode-At}
use learn_mit_s.Kernel.Locks
use learn_mit_s.Kernel.Locks.Contents.{readi-Keeps, writei-Keeps}
use learn_mit_s.Kernel.Sys.{pure, panic, call, maxpath}
use learn_mit_s.Kernel.Fileio.{minus_one}
use learn_mit_s.Kernel.Syspath.{
  t_dir, give_up, put_and_give_up, one_less_link, isdirempty_from, isdirempty, is_dot, clear_entry,
  unlinked, remove_entry, no_links, empty_or_file, unlink_inode, unlink_entry, unlink_path,
  sys_unlink,
}
use learn_mit_s.Kernel.Release.{
  Holding, Has, with_lock, in_op, IsFree, EndsIn, Moves, seq, answer, branch, panic-Gives,
  call-Keeps, ilock_seq, iunlockput-Moves, begin_op-Moves, end_op-Moves, swap_locks, other-IsFree,
}
use learn_mit_s.Kernel.Release.Files.{argstr-Moves}
use learn_mit_s.Kernel.Release.Links.{
  set_inode-Moves, inode-Moves, iupdate-Moves, lookup_parent-Moves, find_in-Moves, give_up-Moves,
  put_and_give_up-Moves,
}

isdirempty_from-Keeps : (fuel : ℕ) (p : Space) (dp off : ℕ) → Keeps (isdirempty_from fuel p dp off)
unfolding isdirempty_from
isdirempty_from-Keeps zero p dp off l s h = tt
isdirempty_from-Keeps (suc fuel) p dp off l s h =
    let Good : M Bool → Type 0 = λ m. Takes l m l in
    if_both (EndsAt l) (ltb off (s.inodes dp).size) _ _
      (λ e.
        Locks.then_ends l l (readi p dp false 0 off dirent_size (λ a. 0) s) _
          (readi-Keeps p dp false 0 off dirent_size (λ a. 0) l s h)
          λ got.
            if_both Good (not (got.0 == dirent_size)) Fs.panic _ (λ f u at. tt)
              λ f.
                if_both Good (not (load16 got.1 0 == 0)) (Fs.pure false)
                  (isdirempty_from fuel p dp (off + dirent_size)) (λ g u at. at)
                  λ g. isdirempty_from-Keeps fuel p dp (off + dirent_size) l)
      λ e. h

isdirempty-Keeps : (p : Space) (dp : ℕ) → Keeps (isdirempty p dp)
unfolding isdirempty
isdirempty-Keeps p dp l s h =
    isdirempty_from-Keeps ((s.inodes dp).size / dirent_size + 2) p dp (2 * dirent_size) l s h

empty_or_file-Moves : {h : Holding} (ip : ℕ) (x : Inode) → Moves h (empty_or_file ip x) h
empty_or_file-Moves {h} ip x = record {
  runs = λ s has.
      if_both (EndsIn (λ _. Has h)) (x.type == t_dir) _ _
        (λ e. (call-Keeps (isdirempty s.space ip) (isdirempty-Keeps s.space ip)).runs s has)
        λ e. has;
}

clear_entry-Moves : {h : Holding} (dp off : ℕ) → Moves h (clear_entry dp off) h
clear_entry-Moves dp off = record {
  runs = λ s has.
      let de = memset 0 0 dirent_size (λ a. 0) in
      (call-Keeps (writei s.space dp false 0 off dirent_size de)
          (writei-Keeps s.space dp false 0 off dirent_size de)).runs
        s has;
}

-- The two locks are given back in the order in which they were taken.
pub iunlockput_first :
    (h : Holding) (dp ip : ℕ)
    → IsFree dp h
    → IsFree ip (with_lock dp h)
    → Moves (with_lock ip (with_lock dp h)) (call (iunlockput dp)) (with_lock ip h)
iunlockput_first h dp ip a b = record {
  runs = λ s has.
      (iunlockput-Moves {h = with_lock ip h} dp (other-IsFree ip dp h a b)).runs s
        (swap_locks ip dp h s has);
}

pub ip-IsFree : (dp ip : ℕ) (h : Holding) → IsFree ip (with_lock dp h) → IsFree ip h
ip-IsFree dp ip h e = elim (Bool-cases (dp == ip)) [
  | inl y ↦ absurd (ground (arith, sym (if-true true (h.locks.inodes ip) y) ∙ e))
  | inr n ↦ sym (if-false true (h.locks.inodes ip) n) ∙ e
]

module _ {h : Holding} (dp ip : ℕ) (a : IsFree dp h) (b : IsFree ip (with_lock dp h)) where
  unlinked-Moves : Moves (with_lock ip (with_lock dp (in_op h))) (unlinked dp ip) h
  unfolding unlinked
  unlinked-Moves = seq (inode-Moves ip) λ x.
      seq
        (branch (x.type == t_dir)
          (λ e. seq (set_inode-Moves dp one_less_link (λ y. refl)) λ _. iupdate-Moves dp)
          λ e. answer tt λ s has. has)
        λ _. seq (iunlockput_first (in_op h) dp ip a b) λ _.
          seq (set_inode-Moves ip one_less_link (λ y. refl)) λ _. seq (iupdate-Moves ip) λ _.
            seq (iunlockput-Moves {h = in_op h} ip (ip-IsFree dp ip h b))
              λ _. seq end_op-Moves λ _. answer (pos 0) λ s has. has

  remove_entry-Moves :
      (off : ℕ) → Moves (with_lock ip (with_lock dp (in_op h))) (remove_entry dp ip off) h
  unfolding remove_entry
  remove_entry-Moves off = seq (clear_entry-Moves dp off) λ r. cleared r
    where
      cleared :
          (r : Option ℕ)
          → Moves {A = ℤ}
              (with_lock ip (with_lock dp (in_op h)))
              (elim r [
                | none ↦ panic
                | some n ↦ if not (n == dirent_size) then panic else unlinked dp ip
              ])
              h
      cleared none = panic-Gives
      cleared (some n) = branch (not (n == dirent_size)) (λ e. panic-Gives) λ e. unlinked-Moves

unlink_inode-Moves :
    {h : Holding} (dp ip off : ℕ)
    → IsFree dp h
    → Moves (with_lock dp (in_op h)) (unlink_inode dp ip off) h
unfolding unlink_inode
unlink_inode-Moves {h} dp ip off a = ilock_seq ip λ b. seq (inode-Moves ip) λ x.
    branch (no_links x.nlink) (λ e. panic-Gives)
      λ e. seq (empty_or_file-Moves ip x) λ removable.
        branch removable (λ f. remove_entry-Moves dp ip a b off)
          λ f.
            seq (iunlockput-Moves {h = with_lock dp (in_op h)} ip b)
              λ _. put_and_give_up-Moves {h = h} dp a

unlink_entry-Moves : {h : Holding} (dp : ℕ) (name : Text) → Moves (in_op h) (unlink_entry dp name) h
unfolding unlink_entry
unlink_entry-Moves {h} dp name = ilock_seq dp λ free.
    branch (is_dot name) (λ e. put_and_give_up-Moves {h = h} dp free)
      λ e. seq (find_in-Moves dp name) (found free)
  where
    found :
        IsFree dp h
        → (r : Option (ℕ × ℕ))
        → Moves
            (with_lock dp (in_op h))
            (elim r [ none ↦ put_and_give_up dp | some (ip, off) ↦ unlink_inode dp ip off ])
            h
    found free none = put_and_give_up-Moves {h = h} dp free
    found free (some (ip, off)) = unlink_inode-Moves {h = h} dp ip off free

unlink_path-Moves : {h : Holding} (path : Text) → Moves h (unlink_path path) h
unfolding unlink_path
unlink_path-Moves {h} path =
    seq begin_op-Moves λ _. seq (lookup_parent-Moves path) λ r. from_parent r.0 r.1
  where
    from_parent :
        (dp : Option ℕ) (name : Text)
        → Moves (in_op h) (elim dp [ none ↦ give_up | some d ↦ unlink_entry d name ]) h
    from_parent none name = give_up-Moves
    from_parent (some d) name = unlink_entry-Moves d name

pub sys_unlink-Moves : {h : Holding} → Moves h sys_unlink h
unfolding sys_unlink
sys_unlink-Moves {h} = seq (argstr-Moves 0 maxpath) with_path
  where
    with_path :
        (r : Option Text) → Moves h (elim r [ none ↦ pure minus_one | some p ↦ unlink_path p ]) h
    with_path none = answer minus_one λ s has. has
    with_path (some p) = unlink_path-Moves p
