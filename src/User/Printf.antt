-- ===== src/User/Printf.antt =====
-- lab1/user/printf.c: the printing of a number.
use learn_mit_s.Common.{
  ℕ, zero, suc, ◌+◌, ◌-◌, ◌/◌, ◌%◌, ◌^◌, Bool, ◌&&◌, List, [], ◌∷◌, ltb, leb, ◌==◌, if◌then◌else◌,
}

-- `digits[d]`: the characters `0` to `9` and `A` to `F`.
abbrev pub digit : ℕ → ℕ
digit d = if ltb d 10 then 48 + d else 55 + d

-- The loop that fills `buf` from the least digit on, with what is in `buf` already behind, the way the
-- last loop prints it. Fuel: a round for each digit.
unfoldable pub push_digits : ℕ → ℕ → ℕ → List ℕ → List ℕ
push_digits zero x base out = out
push_digits (suc fuel) x base out =
    let out' = digit (x % base) ∷ out in
    let rest = push_digits fuel (x / base) base out' in if x / base == 0 then out' else rest

-- What `printint` prints. `xx` is an `int` by its 32 bits, negative from 2^31 on; 32 rounds are
-- enough. The callers pass base 10 or 16, for which `buf` is long enough.
unfoldable pub printint : ℕ → ℕ → Bool → List ℕ
unfolding push_digits
printint xx base sgn =
    if sgn && leb (2 ^ 31) xx
    then 45 ∷ push_digits 32 ((2 ^ 32 - xx) % 2 ^ 32) base []
    else push_digits 32 xx base []
