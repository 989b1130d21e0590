-- ===== src/Kernel/Bio/Tests.antt =====
-- The theorems on the buffer cache at one of two buffers.
use learn_mit_s.Common.{◌≡◌, refl, ◌↔◌, true, none, some, List, [], ◌∷◌, arith}
use learn_mit_s.Kernel.Bio.{Buf, zero_buf, binit, find_cached, find_unused, bget}
use learn_mit_s.Kernel.Bio.Lookup.{NotCached, InUse, bget-none_iff}
use learn_mit_s.Kernel.Bio.Unique.{Counted, Unique, Got, bget-Got}

-- Block 7 is in use; the other buffer is free.
abbrev cache : List Buf
cache =
    record (zero_buf 1) { dev = 1; blockno = 7; refcnt = 1; valid = true; owner = some 3 }
    ∷ zero_buf 0
    ∷ []

cache-Unique : Unique cache
cache-Unique = ground arith

cache-Counted : Counted cache
cache-Counted = ground arith

bget-none_iff_example : (bget 1 8 cache ≡ none) ↔ (NotCached 1 8 cache × InUse cache)
bget-none_iff_example = bget-none_iff 1 8 cache

abbrev with_8 : List Buf
with_8 =
    record (zero_buf 1) { dev = 1; blockno = 7; refcnt = 1; valid = true; owner = some 3 }
    ∷ record (zero_buf 0) { dev = 1; blockno = 8; refcnt = 1 }
    ∷ []

bget_recycles : bget 1 8 cache ≡ some (0, with_8)
unfolding bget find_cached find_unused
bget_recycles = refl

bget-Got_example : Got 1 8 0 with_8
bget-Got_example = bget-Got 1 8 cache cache-Counted cache-Unique bget_recycles

-- The last buffer initialised comes first, and a released buffer moves to the front.
binit_order : binit 2 ≡ zero_buf 1 ∷ zero_buf 0 ∷ []
unfolding binit
binit_order = refl
