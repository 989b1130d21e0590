-- ===== src/Kernel/Sysopen.antt =====
-- lab1/kernel/sysfile.c: `create`, the calls that open and make files, and `sys_chdir`. Numbers of devices are
-- `short`s by their 16 bits.
use learn_mit_s.Common.{
  ℕ, ◌%◌, ◌^◌, not, ◌&&◌, ◌||◌, Option, none, some, [], ◌∷◌, ◌==◌, if◌then◌else◌,
}
use learn_mit_s.Common.{ℤ, pos}
use learn_mit_s.Kernel.File.{File, fd_inode, fd_device}
use learn_mit_s.Kernel.Fs.{Inode}
use learn_mit_s.Kernel.Inode.{set_inode, iupdate, ialloc, ilock, iunlock, iput, iunlockput, itrunc}
use learn_mit_s.Kernel.Path.{Text}
use learn_mit_s.Kernel.Dir.{dirlookup, dirlink, namei, nameiparent}
use learn_mit_s.Kernel.Sys.{
  maxpath, done, Act, ◌>>=◌, ◌>>◌, pure, panic, call, begin_op, end_op, argint, argstr, filealloc,
  set_file, fileclose,
}
use learn_mit_s.Kernel.Fileio.{minus_one, no_device}
use learn_mit_s.Kernel.Sysfile.{fdalloc}
use learn_mit_s.Kernel.Syspath.{
  t_dir, t_file, t_device, has_flag, o_wronly, o_rdwr, o_create, o_trunc, lookup, lookup_parent,
  link_in, inode, give_up, put_and_give_up, one_more_link, find_in,
}

-- `create` where the name is there: the inode is locked then.
unfoldable pub create_found : ℕ → ℕ → ℕ → Act (Option ℕ)
unfolding ilock iunlockput
create_found dp ip type = do
  call (iunlockput dp)
  call (ilock ip)
  x ← inode ip
  if type == t_file && (x.type == t_file || x.type == t_device)
      then pure (some ip)
      else (do call (iunlockput ip); pure none)

abbrev pub made : ℕ → ℕ → Inode → Inode
made major minor x = record x { major = major; minor = minor; nlink = 1 }

-- The entries of a new directory.
unfoldable pub create_dots : ℕ → ℕ → Act (Unit {0})
unfolding iupdate dirlink
create_dots dp ip = do
  call (set_inode dp one_more_link)
  call (iupdate dp)
  x ← inode ip
  a ← link_in ip (46 ∷ []) x.inum
  if not a
      then panic
      else (do y ← inode dp; b ← link_in ip (46 ∷ 46 ∷ []) y.inum; if not b then panic else pure tt)

unfoldable pub create_new : ℕ → Text → ℕ → ℕ → ℕ → Act (Option ℕ)
unfolding ialloc ilock iupdate create_dots dirlink iunlockput
create_new dp name type major minor = do
  ip ← call (ialloc type)
  call (ilock ip)
  call (set_inode ip (made major minor))
  call (iupdate ip)
  if type == t_dir then create_dots dp ip else pure tt
  x ← inode ip
  ok ← link_in dp name x.inum
  if not ok then panic else (do call (iunlockput dp); pure (some ip))

unfoldable pub create_in : ℕ → Text → ℕ → ℕ → ℕ → Act (Option ℕ)
unfolding ilock dirlookup create_found create_new
create_in dp name type major minor = do
  call (ilock dp)
  found ← find_in dp name
  elim found [
    | none ↦ create_new dp name type major minor
    | some (ip, off) ↦ create_found dp ip type
  ]

-- The inode, locked, or `none` for 0.
unfoldable pub create : Text → ℕ → ℕ → ℕ → Act (Option ℕ)
unfolding nameiparent create_in
create path type major minor = do
  (dp, name) ← lookup_parent path
  elim dp [ none ↦ pure none | some d ↦ create_in d name type major minor ]

-- `sys_open` fills in the file.
abbrev pub opened : ℕ → ℕ → Inode → File → File
opened ip omode x f = record f {
  kind = if x.type == t_device then fd_device else fd_inode;
  major = if x.type == t_device then x.major else f.major;
  off = if x.type == t_device then f.off else 0;
  ip = ip;
  readable = not (has_flag o_wronly omode);
  writable = has_flag o_wronly omode || has_flag o_rdwr omode;
}

-- The end of `sys_open` with a file and a descriptor.
unfoldable pub open_done : ℕ → ℕ → ℕ → ℕ → Act ℤ
unfolding itrunc iunlock end_op
open_done ip omode f fd = do
  x ← inode ip
  set_file f (opened ip omode x)
  if has_flag o_trunc omode && x.type == t_file then call (itrunc ip) else pure tt
  call (iunlock ip)
  end_op
  pure (pos fd)

unfoldable pub open_file : ℕ → ℕ → ℕ → Act ℤ
unfolding fdalloc fileclose put_and_give_up open_done
open_file ip omode f = do
  fd ← fdalloc f
  elim fd [ none ↦ do fileclose f; put_and_give_up ip | some d ↦ open_done ip omode f d ]

-- `sys_open` with the inode, which is locked.
unfoldable pub open_inode : ℕ → ℕ → Act ℤ
unfolding filealloc put_and_give_up open_file
open_inode ip omode = do
  x ← inode ip
  if x.type == t_device && no_device x.major
      then put_and_give_up ip
      else (do f ← filealloc; elim f [ none ↦ put_and_give_up ip | some g ↦ open_file ip omode g ])

unfoldable pub open_existing : ℕ → ℕ → Act ℤ
unfolding ilock put_and_give_up open_inode
open_existing ip omode = do
  call (ilock ip)
  x ← inode ip
  if x.type == t_dir && not (omode == 0) then put_and_give_up ip else open_inode ip omode

-- `sys_open` with the answer of `create`.
unfoldable pub open_created : ℕ → Option ℕ → Act ℤ
unfolding give_up open_inode
open_created omode none = give_up
open_created omode (some ip) = open_inode ip omode

unfoldable pub open_path : Text → ℕ → Act ℤ
unfolding begin_op create namei give_up open_created open_existing
open_path path omode = do
  begin_op
  if has_flag o_create omode
      then (do r ← create path t_file 0 0; open_created omode r)
      else (do r ← lookup path; elim r [ none ↦ give_up | some ip ↦ open_existing ip omode ])

unfoldable pub sys_open : Act ℤ
unfolding argstr argint open_path
sys_open = do
  path ← argstr 0 maxpath
  elim path [ none ↦ pure minus_one | some p ↦ do omode ← argint 1; open_path p omode ]

unfoldable pub finish_make : Option ℕ → Act ℤ
unfolding give_up iunlockput end_op
finish_make none = give_up
finish_make (some ip) = do call (iunlockput ip); end_op; pure (pos 0)

unfoldable pub sys_mkdir : Act ℤ
unfolding begin_op argstr create finish_make
sys_mkdir = do
  begin_op
  path ← argstr 0 maxpath
  elim path [ none ↦ give_up | some p ↦ do r ← create p t_dir 0 0; finish_make r ]

-- The numbers are passed on as `short`s.
unfoldable pub sys_mknod : Act ℤ
unfolding begin_op argstr argint create finish_make
sys_mknod = do
  begin_op
  path ← argstr 0 maxpath
  elim path [
    | none ↦ give_up
    | some p ↦ do
      major ← argint 1
      minor ← argint 2
      r ← create p t_device (major % 2 ^ 16) (minor % 2 ^ 16)
      finish_make r
  ]

abbrev pub put_cwd : Act (Unit {0})
put_cwd s = call (iput s.cwd) s

abbrev pub set_cwd : ℕ → Act (Unit {0})
set_cwd ip s = done tt (record s { cwd = ip })

unfoldable pub chdir_to : ℕ → Act ℤ
unfolding ilock put_and_give_up iunlock iput end_op
chdir_to ip = do
  call (ilock ip)
  x ← inode ip
  if not (x.type == t_dir)
      then put_and_give_up ip
      else (do call (iunlock ip); put_cwd; end_op; set_cwd ip; pure (pos 0))

unfoldable pub sys_chdir : Act ℤ
unfolding begin_op argstr namei give_up chdir_to
sys_chdir = do
  begin_op
  path ← argstr 0 maxpath
  elim path [
    | none ↦ give_up
    | some p ↦ do r ← lookup p; elim r [ none ↦ give_up | some ip ↦ chdir_to ip ]
  ]
