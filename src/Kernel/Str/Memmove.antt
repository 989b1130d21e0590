-- ===== src/Kernel/Str/Memmove.antt =====
-- `memmove` copies as if through a temporary, whether the ranges overlap or not.
use learn_mit_s.Common.{
  ℕ, zero, suc, ◌+◌, ◌-◌, ◌≤◌, ◌≡◌, ◌&&◌, ◌⊎◌, inl, inr, arith, ltb, leb, if◌then◌else◌, update,
  Bool-cases,
}
use learn_mit_s.Kernel.Str.{Mem, copy_up, copy_down, memmove}

-- The memory after `n` bytes from `s` have gone to `d` at once.
abbrev pub moved : ℕ → ℕ → ℕ → Mem → Mem
moved n d s m a = if leb d a && ltb a (d + n) then m (s + (a - d)) else m a

pub copy_up_lem :
    (n d s : ℕ) (m : Mem) → (d ≤ s) ⊎ (s + n ≤ d) → (a : ℕ) → copy_up n d s m a ≡ moved n d s m a
unfolding copy_up
copy_up_lem zero d s m h a = ground arith
copy_up_lem (suc n) d s m h a =
    ground (arith, copy_up_lem n (d + 1) (s + 1) (update m d (m s)) (omega arith) a)

pub copy_down_lem : (n d s : ℕ) (m : Mem) → s ≤ d → (a : ℕ) → copy_down n d s m a ≡ moved n d s m a
unfolding copy_down
copy_down_lem zero d s m h a = ground arith
copy_down_lem (suc n) d s m h a =
    ground (arith, copy_down_lem n d s (update m (d + n) (m (s + n))) h a)

-- For any two ranges, overlapping or not, `memmove` leaves at each byte of the destination what the
-- source held at the start, and changes no other byte.
pub memmove_lem : (dst src n : ℕ) (m : Mem) (a : ℕ) → memmove dst src n m a ≡ moved n dst src m a
unfolding memmove
memmove_lem dst src n m a = elim (Bool-cases (ltb src dst && ltb dst (src + n))) [
  | inl e ↦ rw e (copy_down_lem n dst src m (ground arith) a)
  | inr e ↦ rw e (copy_up_lem n dst src m (ground arith) a)
]
