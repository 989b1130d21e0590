-- ===== src/Kernel/Path/Elements.antt =====
-- The names that a walk along a path looks up are its elements, cut to the length of a directory entry.
use learn_mit_s.Common.{
  ℕ, zero, suc, ◌<◌, ◌≡◌, refl, sym, ap, ◌∙◌, ◌≢◌, none, some, List, [], ◌∷◌, ◌++◌, map, arith,
  take, ==_ne, All, length,
}
use mathlib.Core.Path.{subst}
use learn_mit_s.Kernel.Path.{Text, dirsiz, skip_slashes, element, skip_rest, skipelem, names_from}

-- The path with `n` slashes before it.
abbrev pub slashes : ℕ → Text → Text
slashes zero path = path
slashes (suc n) path = 47 ∷ slashes n path

abbrev pub NoSlash : Text → Type 0
NoSlash e = All (λ c. c ≢ 47) e

-- An element ends here.
abbrev pub Stops : Text → Type 0
Stops [] = Unit
Stops (c ∷ path) = c ≡ 47

-- The path has these elements: bytes other than slashes, between runs of slashes of any length.
pub data PathOf : Text → List Text → Type 0 where
  none_left : (n : ℕ) → PathOf (slashes n []) []
  next :
      (n c : ℕ) (e rest : Text) (es : List Text)
      → NoSlash (c ∷ e)
      → Stops rest
      → PathOf rest es
      → PathOf (slashes n (c ∷ (e ++ rest))) ((c ∷ e) ∷ es)

skip-slashes : (n : ℕ) (path : Text) → skip_slashes (slashes n path) ≡ skip_slashes path
unfolding skip_slashes
skip-slashes zero path = refl
skip-slashes (suc n) path = skip-slashes n path

skip-byte : (c : ℕ) (path : Text) → c ≢ 47 → skip_slashes (c ∷ path) ≡ c ∷ path
unfolding skip_slashes
skip-byte c path ne = rw (==_ne c 47 ne) refl

element_lem : (e rest : Text) → NoSlash e → Stops rest → element (e ++ rest) ≡ (e, rest)
unfolding element
element_lem [] [] h s = refl
element_lem [] (c ∷ rest) h s = rw s refl
element_lem (c ∷ e) rest (ne, h) s = rw (==_ne c 47 ne, element_lem e rest h s) refl

skipelem-next :
    (n c : ℕ) (e rest : Text)
    → NoSlash (c ∷ e)
    → Stops rest
    → skipelem (slashes n (c ∷ (e ++ rest))) ≡ some (take dirsiz (c ∷ e), skip_slashes rest)
unfolding skipelem skip_rest
skipelem-next n c e rest (ne, h) s =
    ap skip_rest (skip-slashes n (c ∷ (e ++ rest)) ∙ skip-byte c (e ++ rest) ne)
    ∙ ap (λ q. some (take dirsiz q.0, skip_slashes q.1)) (element_lem (c ∷ e) rest (ne, h) s)

skipelem-none : (n : ℕ) → skipelem (slashes n []) ≡ none
unfolding skipelem skip_rest skip_slashes
skipelem-none n = ap skip_rest (skip-slashes n [])

PathOf-skip : (path : Text) (es : List Text) → PathOf path es → PathOf (skip_slashes path) es
unfolding skip_slashes
PathOf-skip path es (none_left n) = subst (λ p. PathOf p []) (sym (skip-slashes n [])) (none_left 0)
PathOf-skip path es (next n c e rest fs (ne, h) s k) =
    subst (λ p. PathOf p ((c ∷ e) ∷ fs))
      (sym (skip-slashes n (c ∷ (e ++ rest)) ∙ skip-byte c (e ++ rest) ne))
      (next 0 c e rest fs (ne, h) s k)

-- Along a path with these elements, and fuel for more rounds than there are elements, the walk ends,
-- and the names that it looks up are the elements in order, each cut to its first 14 bytes.
pub names_from_lem :
    (fuel : ℕ) (path : Text) (es : List Text)
    → PathOf path es
    → length es < fuel
    → names_from fuel path ≡ some (map (take dirsiz) es)
unfolding names_from
names_from_lem zero path es k lt = absurd (omega arith)
names_from_lem (suc fuel) path es (none_left n) lt = rw (names_from, skipelem-none n) refl
names_from_lem (suc fuel) path es (next n c e rest fs h s k) lt =
    let more = names_from_lem fuel (skip_slashes rest) fs (PathOf-skip rest fs k) (omega arith) in
    rw (names_from, skipelem-next n c e rest h s) (rw more refl)
