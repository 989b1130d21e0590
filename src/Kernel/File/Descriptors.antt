-- ===== src/Kernel/File/Descriptors.antt =====
-- Runs of calls that open, duplicate and close descriptors, and how the references of a file are counted.
use learn_mit_s.Common.{
  ℕ, zero, suc, ◌+◌, ◌-◌, ◌^◌, ◌≤◌, ◌<◌, ◌≡◌, sym, ap, ◌∙◌, ◌≢◌, inl, inr, none, some, List, [],
  ◌∷◌, ◌++◌, arith, ◌==◌, if◌then◌else◌, Bool-cases, Option-cases, ==_refl, ==_ne, length, update,
  update_ne, update_self, some_inj, ℕ_discrete,
}
use learn_mit_s.Kernel.File.{
  nfile, File, Files, find_free, taken, filealloc, filedup, Closing, fileclose,
}

-- How many of the descriptors refer to the file.
abbrev pub count : ℕ → List ℕ → ℕ
count f [] = 0
count f (x ∷ xs) = let n = count f xs in if x == f then suc n else n

-- The table and the files that the open descriptors refer to.
pub record Open : Type 0 where
  pub table : Files
  pub held : List ℕ

-- A call works on a descriptor that is open.
pub data Step (s : Open) : Open → Type 0 where
  open_file :
      (f : ℕ) (t : Files)
      → filealloc s.table ≡ (some f, t)
      → Step s (record { table = t; held = f ∷ s.held })
  dup :
      (f : ℕ) (pre post : List ℕ) {t : Files}
      → s.held ≡ pre ++ f ∷ post
      → filedup f s.table ≡ some t
      → Step s (record { table = t; held = f ∷ s.held })
  close :
      (f : ℕ) (pre post : List ℕ) {t : Files} {c : Closing}
      → s.held ≡ pre ++ f ∷ post
      → fileclose f s.table ≡ some (c, t)
      → Step s (record { table = t; held = pre ++ post })

-- Runs with fewer than 2^31 - 1 descriptors open, from a table in which no file is.
pub data Reach (t : Files) : Open → Type 0 where
  boot : Reach t (record { table = t; held = [] })
  step : {s u : Open} → Reach t s → length s.held < 2 ^ 31 - 1 → Step s u → Reach t u

count-append : (f : ℕ) (xs ys : List ℕ) → count f (xs ++ ys) ≡ count f xs + count f ys
count-append f [] ys = omega arith
count-append f (x ∷ xs) ys = ground (arith, count-append f xs ys)

pub count_le-length : (f : ℕ) (xs : List ℕ) → count f xs ≤ length xs
count_le-length f [] = omega arith
count_le-length f (x ∷ xs) = ground (arith, count_le-length f xs)

-- Each count is the number of descriptors that refer to the file.
abbrev pub Counted : Open → Type 0
Counted s = (i : ℕ) → (s.table i).ref ≡ count i s.held

find_free-free : (r i : ℕ) (t : Files) (f : ℕ) → find_free r i t ≡ some f → (t f).ref ≡ 0
unfolding find_free
find_free-free zero i t f e = ground (arith, e)
find_free-free (suc r) i t f e = elim (Bool-cases ((t i).ref == 0)) [
  | inl y ↦
      let at : find_free (suc r) i t ≡ some i = rw y in
      let same = some_inj (sym at ∙ e) in ap (λ j. (t j).ref) (sym same) ∙ ground arith
  | inr n ↦
      let next : find_free (suc r) i t ≡ find_free r (i + 1) t = rw n in
      find_free-free r (i + 1) t f (sym next ∙ e)
]

-- The count of one more descriptor for `f`.
pub update-Counted :
    (s : Open) (f : ℕ) (g : File) (hs : List ℕ)
    → Counted s
    → g.ref ≡ count f hs
    → ((i : ℕ) → f ≢ i → count i s.held ≡ count i hs)
    → Counted (record { table = update s.table f g; held = hs })
update-Counted s f g hs v e h i = elim (ℕ_discrete f i) [
  | yes y ↦
      ap (λ (x : File). x.ref) (ap (update s.table f g) (sym y) ∙ update_self s.table f g)
      ∙ e
      ∙ ap (λ j. count j hs) y
  | no n ↦ ap (λ (x : File). x.ref) (update_ne s.table f g i n) ∙ v i ∙ h i n
]

pub count-cons_ne : (f i : ℕ) (xs : List ℕ) → f ≢ i → count i (f ∷ xs) ≡ count i xs
count-cons_ne f i xs ne = rw (==_ne f i ne)

pub count-cons_self : (f : ℕ) (xs : List ℕ) → count f (f ∷ xs) ≡ suc (count f xs)
count-cons_self f xs = rw (==_refl f)

-- A file that `filealloc` finds is one that no descriptor refers to.
pub alloc_cases :
    (t t' : Files) (f : ℕ)
    → filealloc t ≡ (some f, t')
    → ((t f).ref ≡ 0) × (t' ≡ update t f (record (t f) { ref = 1 }))
unfolding filealloc
alloc_cases t t' f e = elim (Option-cases (find_free nfile 0 t)) [
  | inl n ↦
      let missed : filealloc t ≡ (none, t) = ap (taken t) n in
      let no : none ≡ some f = ap (λ q. q.0) (sym missed ∙ e) in ground (arith, no)
  | inr (g, y) ↦
      let hit : filealloc t ≡ (some g, update t g (record (t g) { ref = 1 })) = ap (taken t) y in
      let both = sym hit ∙ e in
      let same : g ≡ f = some_inj (ap (λ q. q.0) both) in
      (
        find_free-free nfile 0 t f (y ∙ ap some same),
        sym (ap (λ q. q.1) both) ∙ ap (λ j. update t j (record (t j) { ref = 1 })) same,
      )
]

-- The count of a file that is held, and its count without one of the descriptors.
pub held_count :
    (s : Open) (f : ℕ) (pre post : List ℕ)
    → Counted s
    → s.held ≡ pre ++ f ∷ post
    → (s.table f).ref ≡ suc (count f (pre ++ post))
held_count s f pre post v e =
    v f
    ∙ ap (count f) e
    ∙ omega (arith, count-append f pre (f ∷ post), count-append f pre post, count-cons_self f post)

pub others_count :
    (s : Open) (f : ℕ) (pre post : List ℕ) (i : ℕ)
    → s.held ≡ pre ++ f ∷ post
    → f ≢ i
    → count i s.held ≡ count i (pre ++ post)
others_count s f pre post i e ne =
    ap (count i) e
    ∙ omega
        (arith, count-append i pre (f ∷ post), count-append i pre post, count-cons_ne f i post ne)
