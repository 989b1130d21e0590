-- ===== src/Kernel/Syspath.antt =====
-- lab1/kernel/sysfile.c: the system calls on paths. `O_WRONLY` and the other flags are bits of the `int omode`.
use learn_mit_s.Common.{
  ℕ, zero, suc, ◌+◌, ◌-◌, ◌*◌, ◌/◌, ◌%◌, ◌^◌, Bool, true, false, not, ◌||◌, Option, none, some, [],
  ◌∷◌, ltb, leb, ◌==◌, if◌then◌else◌,
}
use learn_mit_s.Common.{ℤ, pos}
use learn_mit_s.Kernel.Str.{Mem, memset, strncmp}
use learn_mit_s.Kernel.Fs
use learn_mit_s.Kernel.Fs.{Inode, M}
use learn_mit_s.Kernel.Fs.Words.{load16}
use learn_mit_s.Kernel.Inode.{inode_at, set_inode, iupdate, ilock, iunlock, iput, iunlockput}
use learn_mit_s.Kernel.Path.{Text, dirsiz}
use learn_mit_s.Kernel.Content.{Space, readi, writei}
use learn_mit_s.Kernel.Dir.{
  dirent_size, is_zero, name_bytes, dirlookup, dirlink, namei, nameiparent,
}
use learn_mit_s.Kernel.Sys.{
  maxpath, done, Act, ◌>>=◌, ◌>>◌, pure, panic, call, begin_op, end_op, argstr,
}
use learn_mit_s.Kernel.Fileio.{minus_one}

abbrev pub t_dir : ℕ
t_dir = 1

abbrev pub t_file : ℕ
t_file = 2

abbrev pub t_device : ℕ
t_device = 3

-- A bit of `omode`.
abbrev pub has_flag : ℕ → ℕ → Bool
has_flag flag omode = omode / flag % 2 == 1

abbrev pub o_wronly : ℕ
o_wronly = 1

abbrev pub o_rdwr : ℕ
o_rdwr = 2

abbrev pub o_create : ℕ
o_create = 0x200

abbrev pub o_trunc : ℕ
o_trunc = 0x400

-- The lookups with the memory and the directory of the process.
abbrev pub lookup : Text → Act (Option ℕ)
lookup path s = call (namei s.space s.cwd path) s

abbrev pub lookup_parent : Text → Act (Option ℕ × Text)
lookup_parent path s = call (nameiparent s.space s.cwd path) s

abbrev pub link_in : ℕ → Text → ℕ → Act Bool
link_in dp name inum s = call (dirlink s.space dp (name_bytes name) inum) s

abbrev pub inode : ℕ → Act Inode
inode ip = call (inode_at ip)

-- The ends of a call: `iunlockput(ip); end_op(); return -1;` and `end_op(); return -1;`
unfoldable pub give_up : Act ℤ
unfolding end_op
give_up = do end_op; pure minus_one

unfoldable pub put_and_give_up : ℕ → Act ℤ
unfolding give_up iunlockput
put_and_give_up ip = do call (iunlockput ip); give_up

-- `nlink` is a `short` by its 16 bits.
abbrev pub one_more_link : Inode → Inode
one_more_link x = record x { nlink = (x.nlink + 1) % 2 ^ 16 }

abbrev pub one_less_link : Inode → Inode
one_less_link x = record x { nlink = (x.nlink + 2 ^ 16 - 1) % 2 ^ 16 }

-- `bad:` of `sys_link`
unfoldable pub link_bad : ℕ → Act ℤ
unfolding put_and_give_up ilock iupdate
link_bad ip = do
  call (ilock ip)
  call (set_inode ip one_less_link)
  call (iupdate ip)
  put_and_give_up ip

-- `sys_link` with the directory of the new name; there is one device.
unfoldable pub link_entry : ℕ → ℕ → Text → Act ℤ
unfolding link_bad ilock iunlockput iput dirlink end_op
link_entry ip dp name = do
  call (ilock dp)
  x ← inode ip
  ok ← link_in dp name x.inum
  call (iunlockput dp)
  if ok then (do call (iput ip); end_op; pure (pos 0)) else link_bad ip

-- `sys_link` with the inode of the old name.
unfoldable pub link_inode : ℕ → Text → Act ℤ
unfolding put_and_give_up link_bad link_entry ilock iunlock iupdate nameiparent
link_inode ip new = do
  call (ilock ip)
  x ← inode ip
  if x.type == t_dir then put_and_give_up ip else (do
    call (set_inode ip one_more_link)
    call (iupdate ip)
    call (iunlock ip)
    (dp, name) ← lookup_parent new
    elim dp [ none ↦ link_bad ip | some d ↦ link_entry ip d name ])

unfoldable pub link_paths : Text → Text → Act ℤ
unfolding give_up link_inode begin_op namei
link_paths old new = do
  begin_op
  r ← lookup old
  elim r [ none ↦ give_up | some ip ↦ link_inode ip new ]

unfoldable pub sys_link : Act ℤ
unfolding link_paths argstr
sys_link = do
  old ← argstr 0 maxpath
  elim old [
    | none ↦ pure minus_one
    | some o ↦ do
      new ← argstr 1 maxpath
      elim new [ none ↦ pure minus_one | some n ↦ link_paths o n ]
  ]

-- The loop of `isdirempty` at `off`; the fuel counts entries.
unfoldable pub isdirempty_from : ℕ → Space → ℕ → ℕ → M Bool
unfolding readi load16
isdirempty_from zero p dp off = λ s. Fs.out_of_fuel
isdirempty_from (suc fuel) p dp off = λ s.
    let rest = isdirempty_from fuel p dp (off + dirent_size) in
    let entry : ℕ × Mem → M Bool = λ got.
      if not (got.0 == dirent_size)
      then Fs.panic
      else if not (load16 got.1 0 == 0)
      then Fs.pure false
      else rest in
    if ltb off (s.inodes dp).size
    then Fs.bind_result (readi p dp false 0 off dirent_size (λ a. 0) s) entry
    else Fs.done true s

unfoldable pub isdirempty : Space → ℕ → M Bool
unfolding isdirempty_from
isdirempty p dp s = isdirempty_from ((s.inodes dp).size / dirent_size + 2) p dp (2 * dirent_size) s

-- Two names in one memory.
abbrev pub two_names : Text → Text → Mem
two_names s t a = if ltb a dirent_size then name_bytes s a else name_bytes t (a - dirent_size)

unfoldable pub namecmp : Text → Text → ℤ
unfolding strncmp
namecmp s t = strncmp 0 dirent_size dirsiz (two_names s t)

abbrev pub is_dot : Text → Bool
is_dot name = is_zero (namecmp name (46 ∷ [])) || is_zero (namecmp name (46 ∷ 46 ∷ []))

-- `writei` of an empty entry at `off`.
abbrev pub clear_entry : ℕ → ℕ → Act (Option ℕ)
clear_entry dp off s =
    call (writei s.space dp false 0 off dirent_size (memset 0 0 dirent_size (λ a. 0))) s

-- The end of `sys_unlink`, behind `writei`.
unfoldable pub unlinked : ℕ → ℕ → Act ℤ
unfolding iupdate iunlockput end_op
unlinked dp ip = do
  x ← inode ip
  if x.type == t_dir then (do call (set_inode dp one_less_link); call (iupdate dp)) else pure tt
  call (iunlockput dp)
  call (set_inode ip one_less_link)
  call (iupdate ip)
  call (iunlockput ip)
  end_op
  pure (pos 0)

unfoldable pub remove_entry : ℕ → ℕ → ℕ → Act ℤ
unfolding writei memset unlinked
remove_entry dp ip off = do
  wrote ← clear_entry dp off
  elim wrote [ none ↦ panic | some n ↦ if not (n == dirent_size) then panic else unlinked dp ip ]

-- `ip->nlink < 1`, by 16 bits.
abbrev pub no_links : ℕ → Bool
no_links nlink = nlink == 0 || leb (2 ^ 15) nlink

abbrev pub empty_or_file : ℕ → Inode → Act Bool
empty_or_file ip x s = if x.type == t_dir then call (isdirempty s.space ip) s else done true s

-- `sys_unlink` with the inode that the entry at `off` is for.
unfoldable pub unlink_inode : ℕ → ℕ → ℕ → Act ℤ
unfolding ilock iunlockput isdirempty remove_entry put_and_give_up
unlink_inode dp ip off = do
  call (ilock ip)
  x ← inode ip
  if no_links x.nlink then panic else (do
    removable ← empty_or_file ip x
    if removable then remove_entry dp ip off else (do call (iunlockput ip); put_and_give_up dp))

abbrev pub find_in : ℕ → Text → Act (Option (ℕ × ℕ))
find_in dp name s = call (dirlookup s.space dp (name_bytes name)) s

-- `sys_unlink` with the directory.
unfoldable pub unlink_entry : ℕ → Text → Act ℤ
unfolding ilock put_and_give_up namecmp dirlookup unlink_inode
unlink_entry dp name = do
  call (ilock dp)
  if is_dot name then put_and_give_up dp else (do
    found ← find_in dp name
    elim found [ none ↦ put_and_give_up dp | some (ip, off) ↦ unlink_inode dp ip off ])

unfoldable pub unlink_path : Text → Act ℤ
unfolding begin_op nameiparent give_up unlink_entry
unlink_path path = do
  begin_op
  (dp, name) ← lookup_parent path
  elim dp [ none ↦ give_up | some d ↦ unlink_entry d name ]

unfoldable pub sys_unlink : Act ℤ
unfolding argstr unlink_path
sys_unlink = do
  path ← argstr 0 maxpath
  elim path [ none ↦ pure minus_one | some p ↦ unlink_path p ]
