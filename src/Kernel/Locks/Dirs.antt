-- ===== src/Kernel/Locks/Dirs.antt =====
-- Directories and path lookup give back what they lock.
use learn_mit_s.Common.{
  ℕ, zero, suc, ◌+◌, ◌/◌, Bool, true, false, not, ◌&&◌, Option, none, some, ltb, ◌==◌, if_both,
  if◌then◌else◌, length, [],
}
use learn_mit_s.Kernel.Str.{Mem, strncpy}
use learn_mit_s.Kernel.Fs.{M, ◌>>◌, pure, panic}
use learn_mit_s.Kernel.Fs.Words.{load16, store16}
use learn_mit_s.Kernel.Inode.{iget, idup, iunlock, iput, iunlockput}
use learn_mit_s.Kernel.Path.{Text, dirsiz, skipelem}
use learn_mit_s.Kernel.Content.{Space, readi, writei}
use learn_mit_s.Kernel.Dir.{
  dirent_size, frame, same_name, dirlookup_from, dirlookup, find_empty, wrote_entry, link_entry,
  dirlink, name_bytes, is_empty, namex_found, namex_round, namex_end, namex_step, namex_from,
  is_absolute, namex, namei, nameiparent,
}
use learn_mit_s.Kernel.Locks.{lock_inode, EndsAt, Takes, Keeps, then_ends}
use learn_mit_s.Kernel.Locks.Inodes.{iget-Keeps, idup-Keeps, ilock_then, iunlock-Takes}
use learn_mit_s.Kernel.Locks.Trunc.{iput-Keeps, iunlockput-Takes}
use learn_mit_s.Kernel.Locks.Contents.{readi-Keeps, writei-Keeps}

dirlookup_from-Keeps :
    (fuel : ℕ) (p : Space) (dp : ℕ) (name : Mem) (off : ℕ)
    → Keeps (dirlookup_from fuel p dp name off)
unfolding dirlookup_from
dirlookup_from-Keeps zero p dp name off l s h = tt
dirlookup_from-Keeps (suc fuel) p dp name off l s h =
    let rest = dirlookup_from fuel p dp name (off + dirent_size) in
    let Good : M (Option (ℕ × ℕ)) → Type 0 = λ m. Takes l m l in
    if_both (EndsAt l) (ltb off (s.inodes dp).size) _ _
      (λ e.
        then_ends l l (readi p dp false 0 off dirent_size (frame name) s) _
          (readi-Keeps p dp false 0 off dirent_size (frame name) l s h)
          λ got.
            if_both Good (not (got.0 == dirent_size)) panic _ (λ f u at. tt)
              λ f.
                if_both Good (load16 got.1 0 == 0) rest _
                  (λ g. dirlookup_from-Keeps fuel p dp name (off + dirent_size) l)
                  λ g.
                    if_both Good (same_name got.1) _ rest
                      (λ k u at.
                        then_ends l l (iget (load16 got.1 0) u) _
                          (iget-Keeps (load16 got.1 0) l u at) λ i v have. have)
                      λ k. dirlookup_from-Keeps fuel p dp name (off + dirent_size) l)
      λ e. h

pub dirlookup-Keeps : (p : Space) (dp : ℕ) (name : Mem) → Keeps (dirlookup p dp name)
unfolding dirlookup
dirlookup-Keeps p dp name l s h =
    let x = s.inodes dp in
    if_both (EndsAt l) (not (x.type == 1)) _ _ (λ e. tt)
      λ e. dirlookup_from-Keeps (x.size / dirent_size + 2) p dp name 0 l s h

find_empty-Keeps :
    (fuel : ℕ) (p : Space) (dp off : ℕ) (m : Mem) → Keeps (find_empty fuel p dp off m)
unfolding find_empty
find_empty-Keeps zero p dp off m l s h = tt
find_empty-Keeps (suc fuel) p dp off m l s h =
    let Good : M (ℕ × Mem) → Type 0 = λ a. Takes l a l in
    if_both (EndsAt l) (ltb off (s.inodes dp).size) _ _
      (λ e.
        then_ends l l (readi p dp false 0 off dirent_size m s) _
          (readi-Keeps p dp false 0 off dirent_size m l s h)
          λ got.
            if_both Good (not (got.0 == dirent_size)) panic _ (λ f u at. tt)
              λ f.
                if_both Good (load16 got.1 0 == 0) (pure (off, got.1))
                  (find_empty fuel p dp (off + dirent_size) got.1) (λ g u at. at)
                  λ g. find_empty-Keeps fuel p dp (off + dirent_size) got.1 l)
      λ e. h

wrote_entry-Keeps : (r : Option ℕ) → Keeps (wrote_entry r)
wrote_entry-Keeps none l s h = tt
wrote_entry-Keeps (some n) l s h =
    if_both (λ (m : M Bool). EndsAt l (m s)) (not (n == dirent_size)) panic (pure true) (λ e. tt)
      λ e. h

link_entry-Keeps :
    (p : Space) (dp : ℕ) (name : Mem) (inum : ℕ) (r : Option (ℕ × ℕ))
    → Keeps (link_entry p dp name inum r)
unfolding link_entry
link_entry-Keeps p dp name inum (some (ip, off)) l s h =
    then_ends l l (iput ip s) (λ _. pure false) (iput-Keeps ip l s h) λ _ u at. at
link_entry-Keeps p dp name inum none l s h =
    let n = (s.inodes dp).size / dirent_size + 2 in
    then_ends l l (find_empty n p dp 0 (frame name) s) _
      (find_empty-Keeps n p dp 0 (frame name) l s h)
      λ found u at.
        let de = store16 (strncpy 2 dirent_size dirsiz found.1) 0 inum in
        then_ends l l (writei p dp false 0 found.0 dirent_size de u) wrote_entry
          (writei-Keeps p dp false 0 found.0 dirent_size de l u at) λ r. wrote_entry-Keeps r l

pub dirlink-Keeps : (p : Space) (dp : ℕ) (name : Mem) (inum : ℕ) → Keeps (dirlink p dp name inum)
unfolding dirlink
dirlink-Keeps p dp name inum l s h =
    then_ends l l (dirlookup p dp name s) (link_entry p dp name inum)
      (dirlookup-Keeps p dp name l s h) λ r. link_entry-Keeps p dp name inum r l

module _ (next : ℕ → M (Option ℕ × Text)) (keeps : (i : ℕ) → Keeps (next i)) where
  namex_found-Keeps : (elem : Text) (r : Option (ℕ × ℕ)) → Keeps (namex_found next elem r)
  namex_found-Keeps elem none l s h = h
  namex_found-Keeps elem (some (i, off)) l s h = keeps i l s h

  namex_round-Keeps :
      (p : Space) (ip : ℕ) (parent : Bool) (elem rest : Text)
      → Keeps (namex_round next p ip parent elem rest)
  unfolding namex_round
  namex_round-Keeps p ip parent elem rest l s h = ilock_then l l ip _ s h λ free u at.
      let k = lock_inode ip l in
      let Good : M (Option ℕ × Text) → Type 0 = λ m. EndsAt l (m u) in
      if_both Good (not ((u.inodes ip).type == 1)) (iunlockput ip >> pure (none, elem)) _
        (λ e.
          then_ends l l (iunlockput ip u) (λ _. pure (none, elem)) (iunlockput-Takes ip l free u at)
            λ _ v have. have)
        λ e.
          if_both Good (parent && is_empty rest) (iunlock ip >> pure (some ip, elem)) _
            (λ f.
              then_ends l l (iunlock ip u) (λ _. pure (some ip, elem))
                (iunlock-Takes ip l free u at) λ _ v have. have)
            λ f.
              then_ends k l (dirlookup p ip (name_bytes elem) u) _
                (dirlookup-Keeps p ip (name_bytes elem) k u at)
                λ found v have.
                  then_ends l l (iunlockput ip v) (λ _. namex_found next elem found)
                    (iunlockput-Takes ip l free v have) λ _. namex_found-Keeps elem found l

namex_end-Keeps : (ip : ℕ) (parent : Bool) (name : Text) → Keeps (namex_end ip parent name)
unfolding namex_end
namex_end-Keeps ip true name l s h =
    then_ends l l (iput ip s) (λ _. pure (none, name)) (iput-Keeps ip l s h) λ _ u at. at
namex_end-Keeps ip false name l s h = h

namex_step-Keeps :
    (next : Text → Text → ℕ → M (Option ℕ × Text))
    → ((rest elem : Text) (i : ℕ) → Keeps (next rest elem i))
    → (p : Space) (ip : ℕ) (parent : Bool) (name : Text) (r : Option (Text × Text))
    → Keeps (namex_step next p ip parent name r)
unfolding namex_step
namex_step-Keeps next keeps p ip parent name none = namex_end-Keeps ip parent name
namex_step-Keeps next keeps p ip parent name (some (elem, rest)) =
    namex_round-Keeps (next rest elem) (keeps rest elem) p ip parent elem rest

namex_from-Keeps :
    (fuel : ℕ) (p : Space) (ip : ℕ) (parent : Bool) (path name : Text)
    → Keeps (namex_from fuel p ip parent path name)
unfolding namex_from
namex_from-Keeps zero p ip parent path name l s h = tt
namex_from-Keeps (suc fuel) p ip parent path name l s h =
    namex_step-Keeps (λ rest elem i. namex_from fuel p i parent rest elem)
      (λ rest elem i. namex_from-Keeps fuel p i parent rest elem) p ip parent name (skipelem path) l
      s h

namex-Keeps :
    (p : Space) (cwd : ℕ) (path : Text) (parent : Bool) (name : Text)
    → Keeps (namex p cwd path parent name)
unfolding namex
namex-Keeps p cwd path parent name l s h =
    let start : M ℕ = if is_absolute path then iget 1 else idup cwd in
    then_ends l l (start s) (λ ip. namex_from (length path + 1) p ip parent path name)
      (if_both (λ (m : M ℕ). EndsAt l (m s)) (is_absolute path) (iget 1) (idup cwd)
        (λ e. iget-Keeps 1 l s h) λ e. idup-Keeps cwd l s h)
      λ ip. namex_from-Keeps (length path + 1) p ip parent path name l

pub namei-Keeps : (p : Space) (cwd : ℕ) (path : Text) → Keeps (namei p cwd path)
unfolding namei
namei-Keeps p cwd path l s h =
    then_ends l l (namex p cwd path false [] s) (λ r. pure r.0)
      (namex-Keeps p cwd path false [] l s h) λ r u at. at

pub nameiparent-Keeps : (p : Space) (cwd : ℕ) (path : Text) → Keeps (nameiparent p cwd path)
unfolding nameiparent
nameiparent-Keeps p cwd path l s h = namex-Keeps p cwd path true [] l s h
