-- ===== src/Kernel/Release/Creates.antt =====
-- `create` gives back what it takes, but the lock of the inode that it answers with.
use learn_mit_s.Common.{ℕ, refl, not, ◌&&◌, ◌||◌, Option, none, some, [], ◌∷◌, ◌==◌}
use learn_mit_s.Kernel.Inode.{ialloc}
use learn_mit_s.Kernel.Path.{Text}
use learn_mit_s.Kernel.Locks.Inodes.{ialloc-Keeps}
use learn_mit_s.Kernel.Sys.{Sys, pure}
use learn_mit_s.Kernel.Syspath.{t_dir, t_file, t_device, one_more_link}
use learn_mit_s.Kernel.Sysopen.{create_found, made, create_dots, create_new, create_in, create}
use learn_mit_s.Kernel.Release.{
  Holding, Has, with_lock, IsFree, Gives, Moves, seq, answer, branch, panic-Gives, call-Keeps,
  ilock_seq, iunlockput-Moves,
}
use learn_mit_s.Kernel.Release.Links.{
  set_inode-Moves, inode-Moves, iupdate-Moves, lookup_parent-Moves, link_in-Moves, find_in-Moves,
}
use learn_mit_s.Kernel.Release.Unlinks.{iunlockput_first, ip-IsFree}

-- `create` answers with an inode that it has locked.
abbrev pub Created : Holding → Option ℕ → Sys → Type 0
Created h none s = Has h s
Created h (some ip) s = IsFree ip h × Has (with_lock ip h) s

create_found-Gives :
    {h : Holding} (dp ip type : ℕ)
    → IsFree dp h
    → Gives (with_lock dp h) (create_found dp ip type) (Created h)
unfolding create_found
create_found-Gives {h} dp ip type free = seq (iunlockput-Moves {h = h} dp free) λ _.
    ilock_seq ip λ at. seq (inode-Moves ip) λ x.
      branch (type == t_file && (x.type == t_file || x.type == t_device))
        (λ e. answer (some ip) λ s has. (at, has))
        λ e. seq (iunlockput-Moves {h = h} ip at) λ _. answer none λ s has. has

create_dots-Moves : {h : Holding} (dp ip : ℕ) → Moves h (create_dots dp ip) h
unfolding create_dots
create_dots-Moves dp ip = seq (set_inode-Moves dp one_more_link (λ x. refl)) λ _.
    seq (iupdate-Moves dp) λ _. seq (inode-Moves ip) λ x.
      seq (link_in-Moves ip (46 ∷ []) x.inum) λ a.
        branch (not a) (λ e. panic-Gives)
          λ e. seq (inode-Moves dp) λ y.
            seq (link_in-Moves ip (46 ∷ 46 ∷ []) y.inum)
              λ b. branch (not b) (λ f. panic-Gives) λ f. answer tt λ s has. has

create_new-Gives :
    {h : Holding} (dp : ℕ) (name : Text) (type major minor : ℕ)
    → IsFree dp h
    → Gives (with_lock dp h) (create_new dp name type major minor) (Created h)
unfolding create_new
create_new-Gives {h = h} dp name type major minor free =
    seq (call-Keeps (ialloc type) (ialloc-Keeps type)) λ ip. ilock_seq ip λ at.
      seq (set_inode-Moves ip (made major minor) (λ x. refl)) λ _. seq (iupdate-Moves ip) λ _.
        seq (branch (type == t_dir) (λ e. create_dots-Moves dp ip) λ e. answer tt λ s has. has) λ _.
          seq (inode-Moves ip) λ x. seq (link_in-Moves dp name x.inum) λ ok.
            branch (not ok) (λ e. panic-Gives)
              λ e.
                seq (iunlockput_first h dp ip free at)
                  λ _. answer (some ip) λ s has. (ip-IsFree dp ip h at, has)

create_in-Gives :
    {h : Holding} (dp : ℕ) (name : Text) (type major minor : ℕ)
    → Gives h (create_in dp name type major minor) (Created h)
unfolding create_in
create_in-Gives {h} dp name type major minor =
    ilock_seq dp λ free. seq (find_in-Moves dp name) (found free)
  where
    found :
        IsFree dp h
        → (r : Option (ℕ × ℕ))
        → Gives
            (with_lock dp h)
            (elim r [
              | none ↦ create_new dp name type major minor
              | some (ip, off) ↦ create_found dp ip type
            ])
            (Created h)
    found free none = create_new-Gives {h = h} dp name type major minor free
    found free (some (ip, off)) = create_found-Gives {h = h} dp ip type free

pub create-Gives :
    {h : Holding} (path : Text) (type major minor : ℕ)
    → Gives h (create path type major minor) (Created h)
unfolding create
create-Gives {h} path type major minor = seq (lookup_parent-Moves path) λ r. from_parent r.0 r.1
  where
    from_parent :
        (dp : Option ℕ) (name : Text)
        → Gives h
            (elim dp [ none ↦ pure none | some d ↦ create_in d name type major minor ])
            (Created h)
    from_parent none name = answer none λ s has. has
    from_parent (some d) name = create_in-Gives d name type major minor
