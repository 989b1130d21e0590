-- ===== src/Kernel/Usercopy/Tests.antt =====
-- The last two bytes of a user page, copied in.
use learn_mit_s.Common.{
  ℕ, zero, suc, ◌%◌, ◌≡◌, refl, inr, Bool, false, Option, none, some, arith, ◌==◌, if◌then◌else◌,
}
use learn_mit_s.Kernel.Kalloc.{Kmem, null}
use learn_mit_s.Kernel.Vm.{make_pte, walk_from, walk, walkaddr}
use learn_mit_s.Kernel.Str.{Mem}
use learn_mit_s.Kernel.Usercopy.{translate, copyin_from, copyin}
use learn_mit_s.Kernel.Usercopy.In.{Apart, Copied, copyin-Copied}

abbrev root : ℕ
root = 0x8000_1000

-- One user page, at 0x3000.
abbrev words : ℕ → ℕ
words a =
    if a == root
    then make_pte 0x8000_2000 0
    else if a == 0x8000_2000
    then make_pte 0x8000_3000 0
    else if a == 0x8000_3018
    then make_pte 0x8000_4000 30
    else 0

abbrev tables : Kmem
tables = record { freelist = null; mem = words }

abbrev bytes : Mem
bytes a = a % 256

apart : Apart (translate root tables) 100 0x3ffe 2
unfolding translate walkaddr walk walk_from
apart zero h w = inr (omega arith)
apart (suc zero) h w = inr (omega arith)
apart (suc (suc i)) h w = absurd (omega (arith, h))

copyin-Copied_example :
    (r : Bool) × (t : Mem) × (copyin root tables 100 0x3ffe 2 bytes ≡ some (r, t))
    × Copied (translate root tables) 100 0x3ffe 2 bytes r t
copyin-Copied_example = copyin-Copied root tables 100 0x3ffe 2 bytes apart

abbrev reply : Option (Bool × Mem) → Option Bool
reply none = none
reply (some (r, m)) = some r

-- The third byte has no page.
past_end : reply (copyin root tables 100 0x3ffe 3 bytes) ≡ some false
unfolding copyin copyin_from translate walkaddr walk walk_from
past_end = refl
