-- ===== src/Kernel/Path/Tests.antt =====
-- The path `//a/b/`.
use learn_mit_s.Common.{◌≡◌, refl, some, [], ◌∷◌, arith}
use learn_mit_s.Kernel.Path.{Text, skip_slashes, element, skip_rest, skipelem}
use learn_mit_s.Kernel.Path.Elements.{PathOf, none_left, next}

abbrev path : Text
path = 47 ∷ 47 ∷ 97 ∷ 47 ∷ 98 ∷ 47 ∷ []

path-PathOf : PathOf path ((97 ∷ []) ∷ (98 ∷ []) ∷ [])
path-PathOf =
    next 2 97 [] _ _ ((λ e. absurd (omega arith)), tt) refl
      (next 1 98 [] _ _ ((λ e. absurd (omega arith)), tt) refl (none_left 1))

first : skipelem path ≡ some (97 ∷ [], 98 ∷ 47 ∷ [])
unfolding skipelem skip_rest skip_slashes element
first = refl
