-- ===== src/Kernel/Dir.antt =====
-- lab1/kernel/fs.c: directories and path lookup. A directory entry is read into a frame of its own.
use learn_mit_s.Common.{
  ℕ, zero, suc, ◌+◌, ◌-◌, ◌/◌, Bool, true, false, not, ◌&&◌, Option, none, some, [], ◌∷◌, ltb, ◌==◌,
  if◌then◌else◌,
}
use learn_mit_s.Common.{ℤ, pos, length}
use learn_mit_s.Kernel.Str.{Mem, strncmp, strncpy}
use learn_mit_s.Kernel.Fs.{done, panicked, out_of_fuel, M, ◌>>=◌, ◌>>◌, pure, panic}
use learn_mit_s.Kernel.Fs.Words.{load16, store16}
use learn_mit_s.Kernel.Inode.{inode_at, iget, idup, ilock, iunlock, iput, iunlockput}
use learn_mit_s.Kernel.Path.{Text, dirsiz, skipelem}
use learn_mit_s.Kernel.Content.{Space, readi, writei}

-- `struct dirent de` at 0 of a frame of its own, and the name that is looked up behind it.
abbrev pub dirent_size : ℕ
dirent_size = 16

abbrev pub frame : Mem → Mem
frame name a = if ltb a dirent_size then 0 else name (a - dirent_size)

abbrev pub is_zero : ℤ → Bool
is_zero z = elim z [ pos zero ↦ true | _ ↦ false ]

-- `namecmp(name, de.name) == 0`
abbrev pub same_name : Mem → Bool
same_name m = is_zero (strncmp dirent_size 2 dirsiz m)

-- The loop of `dirlookup`: the inode and `*poff`. The fuel counts entries; sizes stay below 2^31.
unfoldable pub dirlookup_from : ℕ → Space → ℕ → Mem → ℕ → M (Option (ℕ × ℕ))
unfolding readi load16 strncmp iget
dirlookup_from zero p dp name off = λ s. out_of_fuel
dirlookup_from (suc fuel) p dp name off = λ s.
    let rest = dirlookup_from fuel p dp name (off + dirent_size) in
    let round : M (Option (ℕ × ℕ)) = (do
      got ← readi p dp false 0 off dirent_size (frame name)
      if not (got.0 == dirent_size)
          then panic
          else if load16 got.1 0 == 0
          then rest
          else if same_name got.1
          then (do i ← iget (load16 got.1 0); pure (some (i, off)))
          else rest) in
    if ltb off (s.inodes dp).size then round s else done none s

unfoldable pub dirlookup : Space → ℕ → Mem → M (Option (ℕ × ℕ))
unfolding dirlookup_from
dirlookup p dp name = λ s.
    let x = s.inodes dp in
    if not (x.type == 1) then panicked else dirlookup_from (x.size / dirent_size + 2) p dp name 0 s

-- The loop of `dirlink`: where the empty entry is, and the frame then.
unfoldable pub find_empty : ℕ → Space → ℕ → ℕ → Mem → M (ℕ × Mem)
unfolding readi load16
find_empty zero p dp off m = λ s. out_of_fuel
find_empty (suc fuel) p dp off m = λ s.
    let rest = find_empty fuel p dp (off + dirent_size) in
    let round : M (ℕ × Mem) = (do
      got ← readi p dp false 0 off dirent_size m
      if not (got.0 == dirent_size)
          then panic
          else if load16 got.1 0 == 0
          then pure (off, got.1)
          else rest got.1) in
    if ltb off (s.inodes dp).size then round s else done (off, m) s

abbrev pub wrote_entry : Option ℕ → M Bool
wrote_entry none = panic
wrote_entry (some n) = if not (n == dirent_size) then panic else pure true

-- `dirlink` where the name is there, and where it is not.
unfoldable pub link_entry : Space → ℕ → Mem → ℕ → Option (ℕ × ℕ) → M Bool
unfolding find_empty iput writei store16 strncpy
link_entry p dp name inum (some (ip, off)) = do iput ip; pure false
link_entry p dp name inum none = do
  x ← inode_at dp
  found ← find_empty (x.size / dirent_size + 2) p dp 0 (frame name)
  wrote ←
      writei p dp false 0 found.0 dirent_size
        (store16 (strncpy 2 dirent_size dirsiz found.1) 0 inum)
  wrote_entry wrote

-- True for 0, false for -1.
unfoldable pub dirlink : Space → ℕ → Mem → ℕ → M Bool
unfolding dirlookup link_entry
dirlink p dp name inum = do present ← dirlookup p dp name; link_entry p dp name inum present

-- The bytes of a name, then its terminator.
abbrev pub name_bytes : Text → Mem
name_bytes [] i = 0
name_bytes (c ∷ cs) zero = c
name_bytes (c ∷ cs) (suc i) = name_bytes cs i

abbrev pub is_empty : Text → Bool
is_empty [] = true
is_empty (c ∷ cs) = false

-- The rest of a round of `namex` with the answer of `dirlookup`; `next` is the next round.
abbrev pub namex_found : (ℕ → M (Option ℕ × Text)) → Text → Option (ℕ × ℕ) → M (Option ℕ × Text)
namex_found next elem none = pure (none, elem)
namex_found next elem (some (i, off)) = next i

-- A round of `namex` at the inode `ip`, for the name `elem` with `rest` behind it.
unfoldable pub namex_round :
    (ℕ → M (Option ℕ × Text)) → Space → ℕ → Bool → Text → Text → M (Option ℕ × Text)
unfolding ilock iunlock iunlockput dirlookup
namex_round next p ip parent elem rest = do
  ilock ip
  x ← inode_at ip
  if not (x.type == 1)
      then (do iunlockput ip; pure (none, elem))
      else if parent && is_empty rest
      then (do iunlock ip; pure (some ip, elem))
      else (do found ← dirlookup p ip (name_bytes elem); iunlockput ip; namex_found next elem found)

-- The end of `namex`, with no name left.
unfoldable pub namex_end : ℕ → Bool → Text → M (Option ℕ × Text)
unfolding iput
namex_end ip parent name = if parent then (do iput ip; pure (none, name)) else pure (some ip, name)

-- The loop of `namex` with the answer of `skipelem`; `next` is the next round.
unfoldable pub namex_step :
    (Text → Text → ℕ → M (Option ℕ × Text))
    → Space
    → ℕ
    → Bool
    → Text
    → Option (Text × Text)
    → M (Option ℕ × Text)
unfolding namex_round namex_end
namex_step next p ip parent name none = namex_end ip parent name
namex_step next p ip parent name (some (elem, rest)) =
    namex_round (next rest elem) p ip parent elem rest

-- The loop of `namex` at `ip`, the fuel a round for each name: the inode or `none` for 0, and `name`.
unfoldable pub namex_from : ℕ → Space → ℕ → Bool → Text → Text → M (Option ℕ × Text)
unfolding skipelem namex_step
namex_from zero p ip parent path name = λ s. out_of_fuel
namex_from (suc fuel) p ip parent path name =
    namex_step (λ rest elem i. namex_from fuel p i parent rest elem) p ip parent name
      (skipelem path)

abbrev pub is_absolute : Text → Bool
is_absolute [] = false
is_absolute (c ∷ cs) = c == 47

-- A path has no more names than bytes; `cwd` is that of `myproc()`.
unfoldable pub namex : Space → ℕ → Text → Bool → Text → M (Option ℕ × Text)
unfolding namex_from iget idup
namex p cwd path parent name = do
  ip ← if is_absolute path then iget 1 else idup cwd
  namex_from (length path + 1) p ip parent path name

unfoldable pub namei : Space → ℕ → Text → M (Option ℕ)
unfolding namex
namei p cwd path = do r ← namex p cwd path false []; pure r.0

unfoldable pub nameiparent : Space → ℕ → Text → M (Option ℕ × Text)
unfolding namex
nameiparent p cwd path = namex p cwd path true []
