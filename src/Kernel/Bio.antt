-- ===== src/Kernel/Bio.antt =====
-- lab1/kernel/bio.c: the buffer cache. The doubly linked list is a list of buffers, from `head.next`
-- (most recently used) to `head.prev`; a buffer keeps its place in `bcache.buf` as `id`, which is what
-- a `struct buf *` is. `owner` is the sleep lock: the pid that holds it. Each body under `bcache.lock`
-- is one step; `virtio_disk_rw` is a read or write of the disk by device and block number.
pub mod Lookup
pub mod Unique
mod Tests
use learn_mit_s.Common.{
  ℕ, zero, suc, ◌+◌, ◌-◌, ◌%◌, ◌^◌, Bool, true, false, not, ◌&&◌, Option, none, some, List, [], ◌∷◌,
  ◌==◌, if◌then◌else◌,
}

-- The 1024 bytes of a block.
abbrev pub Bytes : Type 0
Bytes = ℕ → ℕ

pub record Buf : Type 0 where
  pub id : ℕ
  pub valid : Bool
  pub dev : ℕ
  pub blockno : ℕ
  pub owner : Option ℕ
  pub refcnt : ℕ
  pub bytes : Bytes

pub record Bcache : Type 0 where
  pub bufs : List Buf
  pub disk : ℕ → ℕ → Bytes

-- `b->dev == dev && b->blockno == blockno`
abbrev pub is_for : ℕ → ℕ → Buf → Bool
is_for dev blockno b = b.dev == dev && b.blockno == blockno

-- The buffer as its memory is before `binit`: zeroes.
abbrev pub zero_buf : ℕ → Buf
zero_buf i = record {
  id = i;
  valid = false;
  dev = 0;
  blockno = 0;
  owner = none;
  refcnt = 0;
  bytes = λ _. 0;
}

-- `binit` inserts each of `n` buffers behind the head, so the last one comes first.
unfoldable pub binit : ℕ → List Buf
binit zero = []
binit (suc n) = zero_buf n ∷ binit n

-- What a search finds behind the buffer `b`, put back behind it.
abbrev pub behind : Buf → Option (ℕ × List Buf) → Option (ℕ × List Buf)
behind b none = none
behind b (some (i, bs)) = some (i, b ∷ bs)

abbrev pub first_some {ℓ} : {A : Type ℓ} → Option A → Option A → Option A
first_some (some r) s = some r
first_some none s = s

-- The loop of `bget` from the most recently used buffer.
unfoldable pub find_cached : ℕ → ℕ → List Buf → Option (ℕ × List Buf)
find_cached dev blockno [] = none
find_cached dev blockno (b ∷ bs) =
    let rest = behind b (find_cached dev blockno bs) in
    if is_for dev blockno b
    then some (b.id, record b { refcnt = (b.refcnt + 1) % 2 ^ 32 } ∷ bs)
    else rest

abbrev pub recycled : ℕ → ℕ → Buf → Buf
recycled dev blockno b = record b { dev = dev; blockno = blockno; valid = false; refcnt = 1 }

-- The loop of `bget` from the least recently used buffer: a buffer is looked at after all behind it.
unfoldable pub find_unused : ℕ → ℕ → List Buf → Option (ℕ × List Buf)
find_unused dev blockno [] = none
find_unused dev blockno (b ∷ bs) =
    first_some (behind b (find_unused dev blockno bs))
      (if b.refcnt == 0 then some (b.id, recycled dev blockno b ∷ bs) else none)

-- Up to `acquiresleep`: the buffer and the list, `none` for the panic.
unfoldable pub bget : ℕ → ℕ → List Buf → Option (ℕ × List Buf)
bget dev blockno bs = first_some (find_cached dev blockno bs) (find_unused dev blockno bs)

-- Through the pointer `i`.
unfoldable pub buf_at : ℕ → List Buf → Option Buf
buf_at i [] = none
buf_at i (b ∷ bs) = if b.id == i then some b else buf_at i bs

unfoldable pub set_buf : ℕ → (Buf → Buf) → List Buf → List Buf
set_buf i f [] = []
set_buf i f (b ∷ bs) = if b.id == i then f b ∷ bs else b ∷ set_buf i f bs

-- `acquiresleep(&b->lock)` by `pid` and the rest of `bread`: `none` while another holds the lock.
unfoldable pub bread_locked : ℕ → ℕ → Bcache → Option Bcache
unfolding buf_at set_buf
bread_locked pid i c = elim (buf_at i c.bufs) [
  | none ↦ none
  | some b ↦ elim b.owner [
    | some q ↦ none
    | none ↦
        let read = if b.valid then b.bytes else c.disk b.dev b.blockno in
        some (record c {
          bufs = set_buf i (λ x. record x { owner = some pid; valid = true; bytes = read }) c.bufs;
        })
  ]
]

abbrev holds : ℕ → Option ℕ → Bool
holds pid none = false
holds pid (some q) = q == pid

-- `none` is the panic of a caller that does not hold the buffer.
unfoldable pub bwrite : ℕ → ℕ → Bcache → Option Bcache
unfolding buf_at
bwrite pid i c = elim (buf_at i c.bufs) [
  | none ↦ none
  | some b ↦
      let disk = λ (d n : ℕ). if d == b.dev && n == b.blockno then b.bytes else c.disk d n in
      if not (holds pid b.owner) then none else some (record c { disk = disk })
]

-- The list without the buffer `i`.
unfoldable pub unlink : ℕ → List Buf → List Buf
unlink i [] = []
unlink i (b ∷ bs) = if b.id == i then bs else b ∷ unlink i bs

unfoldable pub brelse : ℕ → ℕ → List Buf → Option (List Buf)
unfolding buf_at set_buf unlink
brelse pid i bs = elim (buf_at i bs) [
  | none ↦ none
  | some b ↦
      let b' = record b { owner = none; refcnt = (b.refcnt + 2 ^ 32 - 1) % 2 ^ 32 } in
      if not (holds pid b.owner)
      then none
      else if b'.refcnt == 0
      then some (b' ∷ unlink i bs)
      else some (set_buf i (λ _. b') bs)
]

unfoldable pub bpin : ℕ → List Buf → List Buf
unfolding set_buf
bpin i bs = set_buf i (λ b. record b { refcnt = (b.refcnt + 1) % 2 ^ 32 }) bs

unfoldable pub bunpin : ℕ → List Buf → List Buf
unfolding set_buf
bunpin i bs = set_buf i (λ b. record b { refcnt = (b.refcnt + 2 ^ 32 - 1) % 2 ^ 32 }) bs
