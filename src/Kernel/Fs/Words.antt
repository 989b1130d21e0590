-- ===== src/Kernel/Fs/Words.antt =====
-- Numbers of two and four bytes in a block, the lowest byte first.
use learn_mit_s.Common.{ℕ, ◌+◌, ◌*◌, ◌/◌, ◌%◌, ◌^◌, ◌≤◌, ◌<◌, ◌≡◌, ◌⊎◌, arith, ◌==◌, if◌then◌else◌}
use learn_mit_s.Kernel.Str.{Mem}

unfoldable pub load16 : Mem → ℕ → ℕ
load16 m a = m a + 256 * m (a + 1)

unfoldable pub store16 : Mem → ℕ → ℕ → Mem
store16 m a v x = if x == a then v % 256 else if x == a + 1 then v / 256 % 256 else m x

unfoldable pub load32 : Mem → ℕ → ℕ
load32 m a = m a + 256 * m (a + 1) + 0x1_0000 * m (a + 2) + 0x100_0000 * m (a + 3)

unfoldable pub store32 : Mem → ℕ → ℕ → Mem
store32 m a v x =
    if x == a
    then v % 256
    else if x == a + 1
    then v / 256 % 256
    else if x == a + 2
    then v / 0x1_0000 % 256
    else if x == a + 3
    then v / 0x100_0000 % 256
    else m x

pub load16-store16 : (m : Mem) (a v : ℕ) → v < 2 ^ 16 → load16 (store16 m a v) a ≡ v
unfolding load16 store16
load16-store16 m a v h = ground (arith, h)

pub load32-store32 : (m : Mem) (a v : ℕ) → v < 2 ^ 32 → load32 (store32 m a v) a ≡ v
unfolding load32 store32
load32-store32 m a v h = ground (arith, h)

-- A store elsewhere.
pub store16_ne : (m : Mem) (a v x : ℕ) → (x < a) ⊎ (a + 2 ≤ x) → store16 m a v x ≡ m x
unfolding store16
store16_ne m a v x h = ground (arith, h)

pub store32_ne : (m : Mem) (a v x : ℕ) → (x < a) ⊎ (a + 4 ≤ x) → store32 m a v x ≡ m x
unfolding store32
store32_ne m a v x h = ground (arith, h)

pub load16_kept :
    (m m' : Mem) (a : ℕ) → ((x : ℕ) → a ≤ x → x < a + 2 → m' x ≡ m x) → load16 m' a ≡ load16 m a
unfolding load16
load16_kept m m' a h =
    let h0 = h a (omega arith) (omega arith) in
    let h1 = h (a + 1) (omega arith) (omega arith) in omega (arith, h0, h1)

pub load32_kept :
    (m m' : Mem) (a : ℕ) → ((x : ℕ) → a ≤ x → x < a + 4 → m' x ≡ m x) → load32 m' a ≡ load32 m a
unfolding load32
load32_kept m m' a h =
    let h0 = h a (omega arith) (omega arith) in
    let h1 = h (a + 1) (omega arith) (omega arith) in
    let h2 = h (a + 2) (omega arith) (omega arith) in
    let h3 = h (a + 3) (omega arith) (omega arith) in omega (arith, h0, h1, h2, h3)
