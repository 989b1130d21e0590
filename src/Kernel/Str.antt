-- ===== src/Kernel/Str.antt =====
-- lab1/kernel/string.c over a memory of bytes, a function from addresses to values below 256.
-- A `char *` is an address. A count `uint n`, or `int n` with a negative one taken for 0, is the
-- number of rounds that a loop has left.
pub mod Memmove
pub mod Compare
pub mod Copy
mod Tests
use learn_mit_s.Common.{
  ℕ, zero, suc, ◌+◌, ◌%◌, ◌&&◌, not, ltb, ◌==◌, if◌then◌else◌, update, Option, some, none, ℤ, pos,
  sub_ℕ,
}

abbrev pub Mem : Type 0
Mem = ℕ → ℕ

-- `for(i = 0; i < n; i++) cdst[i] = c`, with `n` rounds left at index `i`; storing into a `char`
-- keeps the low byte of `c`.
unfoldable pub memset_from : ℕ → ℕ → ℕ → ℕ → Mem → Mem
memset_from zero i dst c m = m
memset_from (suc n) i dst c m = memset_from n (i + 1) dst c (update m (dst + i) (c % 256))

unfoldable pub memset : ℕ → ℕ → ℕ → Mem → Mem
unfolding memset_from
memset dst c n m = memset_from n 0 dst c m

unfoldable pub memcmp : ℕ → ℕ → ℕ → Mem → ℤ
memcmp s1 s2 zero m = pos 0
memcmp s1 s2 (suc n) m =
    let rest = memcmp (s1 + 1) (s2 + 1) n m in
    if not (m s1 == m s2) then sub_ℕ (m s1) (m s2) else rest

-- `while(n-- > 0) *d++ = *s++`
unfoldable pub copy_up : ℕ → ℕ → ℕ → Mem → Mem
copy_up zero d s m = m
copy_up (suc n) d s m = copy_up n (d + 1) (s + 1) (update m d (m s))

-- `s += n; d += n; while(n-- > 0) *--d = *--s`: with `n` bytes left the byte `n - 1` is copied.
unfoldable pub copy_down : ℕ → ℕ → ℕ → Mem → Mem
copy_down zero d s m = m
copy_down (suc n) d s m = copy_down n d s (update m (d + n) (m (s + n)))

unfoldable pub memmove : ℕ → ℕ → ℕ → Mem → Mem
unfolding copy_up copy_down
memmove dst src n m =
    if ltb src dst && ltb dst (src + n) then copy_down n dst src m else copy_up n dst src m

unfoldable pub memcpy : ℕ → ℕ → ℕ → Mem → Mem
unfolding memmove
memcpy dst src n m = memmove dst src n m

-- The loop and, where it stops with bytes left, the difference at which it stopped.
unfoldable pub strncmp : ℕ → ℕ → ℕ → Mem → ℤ
strncmp p q zero m = pos 0
strncmp p q (suc n) m =
    let rest = strncmp (p + 1) (q + 1) n m in
    if not (m p == 0) && m p == m q then rest else sub_ℕ (m p) (m q)

-- `while(n-- > 0) *s++ = 0`
unfoldable pub fill_nul : ℕ → ℕ → Mem → Mem
fill_nul zero s m = m
fill_nul (suc n) s m = fill_nul n (s + 1) (update m s 0)

unfoldable pub strncpy : ℕ → ℕ → ℕ → Mem → Mem
unfolding fill_nul
strncpy s t zero m = m
strncpy s t (suc n) m =
    let rest = strncpy (s + 1) (t + 1) n (update m s (m t)) in
    if m t == 0 then fill_nul n (s + 1) (update m s (m t)) else rest

-- `while(--n > 0 && (*s++ = *t++) != 0); *s = 0`, with `n` the bytes left besides the last `*s = 0`.
unfoldable pub safestrcpy_loop : ℕ → ℕ → ℕ → Mem → Mem
safestrcpy_loop zero s t m = update m s 0
safestrcpy_loop (suc n) s t m =
    let m' = update m s (m t) in
    let rest = safestrcpy_loop n (s + 1) (t + 1) m' in
    if m t == 0 then update m' (s + 1) 0 else rest

unfoldable pub safestrcpy : ℕ → ℕ → ℕ → Mem → Mem
unfolding safestrcpy_loop
safestrcpy s t zero m = m
safestrcpy s t (suc n) m = safestrcpy_loop n s t m

-- `for(n = 0; s[n]; n++)`. `none` is fuel run out, where the C loop would run on.
unfoldable pub strlen_from : ℕ → ℕ → ℕ → Mem → Option ℕ
strlen_from zero s n m = none
strlen_from (suc fuel) s n m =
    let rest = strlen_from fuel s (n + 1) m in if m (s + n) == 0 then some n else rest

unfoldable pub strlen : ℕ → ℕ → Mem → Option ℕ
unfolding strlen_from
strlen fuel s m = strlen_from fuel s 0 m
