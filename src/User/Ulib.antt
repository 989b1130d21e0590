-- ===== src/User/Ulib.antt =====
-- lab1/user/ulib.c: the string functions of user programs, over the byte memory of Kernel.Str. A loop that
-- looks for the end of a string runs on fuel, and gives `none` when that runs out.
pub mod Strings
pub mod Decimal
mod Tests
use learn_mit_s.Common.{
  ℕ, zero, suc, ◌+◌, ◌-◌, ◌*◌, ◌%◌, ◌^◌, not, ◌&&◌, ◌||◌, Option, none, some, List, [], ◌∷◌, ltb,
  leb, ◌==◌, if◌then◌else◌, update, ℤ, sub_ℕ,
}
use learn_mit_s.Kernel.Str.{Mem, copy_up, copy_down}

-- `while((*s++ = *t++) != 0)`
unfoldable pub strcpy : ℕ → ℕ → ℕ → Mem → Option Mem
strcpy zero s t m = none
strcpy (suc fuel) s t m =
    let m1 = update m s (m t) in
    let rest = strcpy fuel (s + 1) (t + 1) m1 in if m t == 0 then some m1 else rest

unfoldable pub strcmp : ℕ → ℕ → ℕ → Mem → Option ℤ
strcmp zero p q m = none
strcmp (suc fuel) p q m =
    let rest = strcmp fuel (p + 1) (q + 1) m in
    if not (m p == 0) && m p == m q then rest else some (sub_ℕ (m p) (m q))

-- The address found, or 0.
unfoldable pub strchr : ℕ → ℕ → ℕ → Mem → Option ℕ
strchr zero s c m = none
strchr (suc fuel) s c m =
    let rest = strchr fuel (s + 1) c m in
    if m s == 0 then some 0 else if m s == c then some s else rest

-- The loop of `gets` with room for `r` more bytes at `i`; the input is what `read` gives, a byte a time,
-- until it ends or fails. The index at which it stops, and the memory.
unfoldable pub gets_from : ℕ → ℕ → ℕ → List ℕ → Mem → ℕ × Mem
gets_from zero i buf input m = (i, m)
gets_from (suc r) i buf [] m = (i, m)
gets_from (suc r) i buf (c ∷ input) m =
    let m1 = update m (buf + i) c in
    let rest = gets_from r (i + 1) buf input m1 in if c == 10 || c == 13 then (i + 1, m1) else rest

unfoldable pub gets : ℕ → ℕ → List ℕ → Mem → Mem
unfolding gets_from
gets buf max input m = let (i, m1) = gets_from (max - 1) 0 buf input m in update m1 (buf + i) 0

-- The loop of `atoi` with the value `n` so far, an `int` by its 32 bits.
unfoldable pub atoi_from : ℕ → ℕ → ℕ → Mem → Option ℕ
atoi_from zero n s m = none
atoi_from (suc fuel) n s m =
    let rest = atoi_from fuel ((n * 10 + m s - 48) % 2 ^ 32) (s + 1) m in
    if leb 48 (m s) && leb (m s) 57 then rest else some n

unfoldable pub atoi : ℕ → ℕ → Mem → Option ℕ
unfolding atoi_from
atoi fuel s m = atoi_from fuel 0 s m

-- The loops are those of `memmove` in the kernel; the test that chooses is not.
unfoldable pub memmove_user : ℕ → ℕ → ℕ → Mem → Mem
memmove_user dst src n m = if ltb dst src then copy_up n dst src m else copy_down n dst src m
