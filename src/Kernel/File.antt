-- ===== src/Kernel/File.antt =====
-- lab1/kernel/file.c: the table of open files and its reference counts. A `struct file *` is an index into
-- the table. A count is an `int` by its 32 bits. Each body under `ftable.lock` is one step.
pub mod Descriptors
pub mod Sharing
mod Tests
use learn_mit_s.Common.{
  ℕ, zero, suc, ◌+◌, ◌-◌, ◌%◌, ◌^◌, Bool, not, ◌||◌, Option, none, some, leb, ◌==◌, if◌then◌else◌,
  update,
}

abbrev pub nfile : ℕ
nfile = 100

pub data FileType : Type 0 where
  fd_none fd_pipe fd_inode fd_device : FileType

pub record File : Type 0 where
  pub kind : FileType
  pub ref : ℕ
  pub readable : Bool
  pub writable : Bool
  pub pipe : ℕ
  pub ip : ℕ
  pub off : ℕ
  pub major : ℕ

abbrev pub Files : Type 0
Files = ℕ → File

-- `ref < 1`
abbrev pub below_one : ℕ → Bool
below_one ref = ref == 0 || leb (2 ^ 31) ref

-- The loop of `filealloc` over the `r` entries from `i` on.
unfoldable pub find_free : ℕ → ℕ → Files → Option ℕ
find_free zero i t = none
find_free (suc r) i t = let rest = find_free r (i + 1) t in if (t i).ref == 0 then some i else rest

abbrev pub taken : Files → Option ℕ → Option (ℕ) × Files
taken t none = (none, t)
taken t (some i) = (some i, update t i (record (t i) { ref = 1 }))

unfoldable pub filealloc : Files → Option ℕ × Files
unfolding find_free
filealloc t = taken t (find_free nfile 0 t)

-- `none` is the panic.
unfoldable pub filedup : ℕ → Files → Option Files
filedup f t =
    if below_one (t f).ref
    then none
    else some (update t f (record (t f) { ref = ((t f).ref + 1) % 2 ^ 32 }))

-- What `fileclose` goes on to do: nothing, `pipeclose` of a pipe and an end, or `iput` of an inode in a
-- transaction.
pub data Closing : Type 0 where
  nothing : Closing
  close_pipe : (pipe : ℕ) (writable : Bool) → Closing
  put_inode : (ip : ℕ) → Closing

abbrev pub closing : File → FileType → Closing
closing ff fd_none = nothing
closing ff fd_pipe = close_pipe ff.pipe ff.writable
closing ff fd_inode = put_inode ff.ip
closing ff fd_device = put_inode ff.ip

-- `none` is the panic.
unfoldable pub fileclose : ℕ → Files → Option (Closing × Files)
fileclose f t =
    let ref = ((t f).ref + 2 ^ 32 - 1) % 2 ^ 32 in
    if below_one (t f).ref
    then none
    else if not (below_one ref)
    then some (nothing, update t f (record (t f) { ref = ref }))
    else some (closing (t f) (t f).kind, update t f (record (t f) { ref = 0; kind = fd_none }))
