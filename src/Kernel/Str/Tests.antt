-- ===== src/Kernel/Str/Tests.antt =====
-- The theorems on string.c at concrete memories, and runs of its functions.
use learn_mit_s.Common.{zero, suc, ◌%◌, ◌≡◌, refl, ◌||◌, arith, ◌==◌, if◌then◌else◌, pos}
use learn_mit_s.Kernel.Str.{Mem, memmove, strncmp}
use learn_mit_s.Kernel.Str.Memmove.{memmove_lem}
use learn_mit_s.Kernel.Str.Compare.{NoNul}

-- "hi" at 10 and again at 20, and the address elsewhere.
abbrev hi : Mem
hi a =
    if a == 10 || a == 20
    then b'h'
    else if a == 11 || a == 21
    then b'i'
    else if a == 12 || a == 22
    then 0
    else a % 256

memmove_overlap : memmove 12 10 5 (λ a. a) 14 ≡ 12
unfolding memmove
memmove_overlap = refl

memmove_lem_example : memmove 12 10 5 (λ a. a) 14 ≡ 12
memmove_lem_example = memmove_lem 12 10 5 (λ a. a) 14

strncmp_stops : strncmp 10 20 9 hi ≡ pos 0
unfolding strncmp
strncmp_stops = refl

hi-NoNul : NoNul 10 2 hi
hi-NoNul zero h = ground arith
hi-NoNul (suc zero) h = ground arith
hi-NoNul (suc (suc j)) h = absurd (omega arith)
