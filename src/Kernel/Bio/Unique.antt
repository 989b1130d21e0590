-- ===== src/Kernel/Bio/Unique.antt =====
-- The cache never holds a block twice: a lookup keeps the blocks of the buffers distinct, and gives the
-- buffer of the block.
use learn_mit_s.Common.{
  ℕ, ◌+◌, ◌-◌, ◌%◌, ◌^◌, ◌<◌, ◌≡◌, refl, ◌≢◌, ◌⊎◌, Bool, true, false, Option, none, some, List, [],
  ◌∷◌, arith, ◌==◌, if◌then◌else◌, ==_refl, ==_ne, All,
}
use learn_mit_s.Kernel.Bio.{
  Buf, is_for, first_some, behind, recycled, find_cached, find_unused, bget, buf_at,
}
use mathlib.Core.Path.{subst}
use learn_mit_s.Kernel.Bio.Lookup.{NotCached, find_cached-none}

-- `a` and `b` are for different blocks, or `a` is one that no device has been given to yet.
abbrev pub Differ : Buf → Buf → Type 0
Differ a b = ((a.dev ≢ b.dev) ⊎ (a.blockno ≢ b.blockno)) ⊎ (a.dev ≡ 0)

Differ-symm : (a b : Buf) → Differ a b → Differ b a
Differ-symm a b d = ground arith

-- No two buffers are for one block of a device other than 0, which stands for no device, and no two
-- have one place.
pub record Apart (a b : Buf) : Type 0 where
  pub blocks : Differ a b
  pub places : a.id ≢ b.id

abbrev pub Unique : List Buf → Type 0
Unique [] = Unit
Unique (b ∷ bs) = All (Apart b) bs × Unique bs

-- `Q` holds of what a search returns, if it finds anything.
abbrev OnFound : (ℕ → List Buf → Type 0) → Option (ℕ × List Buf) → Type 0
OnFound Q none = Unit
OnFound Q (some (i, bs)) = Q i bs

OnFound-behind :
    (Q R : ℕ → List Buf → Type 0) (b : Buf)
    → ((i : ℕ) (bs : List Buf) → Q i bs → R i (b ∷ bs))
    → (r : Option (ℕ × List Buf)) → OnFound Q r
    → OnFound R (behind b r)
OnFound-behind Q R b f none h = tt
OnFound-behind Q R b f (some (i, bs)) h = f i bs h

OnFound-first :
    (Q : ℕ → List Buf → Type 0) (r s : Option (ℕ × List Buf))
    → OnFound Q r
    → (r ≡ none → OnFound Q s)
    → OnFound Q (first_some r s)
OnFound-first Q none s h k = k refl
OnFound-first Q (some x) s h k = h

OnFound-if :
    (Q : ℕ → List Buf → Type 0) (t : Bool) (r s : Option (ℕ × List Buf))
    → (t ≡ true → OnFound Q r)
    → (t ≡ false → OnFound Q s)
    → OnFound Q (if t then r else s)
OnFound-if Q true r s h k = h refl
OnFound-if Q false r s h k = k refl

-- What the searches keep of a buffer `a` in front of them: it is apart from every buffer behind it,
-- and from the place that they return.
abbrev Behind : Buf → ℕ → List Buf → Type 0
Behind a i bs = All (Apart a) bs × (a.id ≢ i)

Behind-cons : (a b : Buf) (i : ℕ) (bs : List Buf) → Apart a b → Behind a i bs → Behind a i (b ∷ bs)
Behind-cons a b i bs p (h, ne) = ((p, h), ne)

find_cached-Behind :
    (a : Buf) (dev blockno : ℕ) (bs : List Buf)
    → All (Apart a) bs
    → OnFound (Behind a) (find_cached dev blockno bs)
unfolding find_cached
find_cached-Behind a dev blockno [] h = tt
find_cached-Behind a dev blockno (b ∷ bs) (p, h) =
    OnFound-if (Behind a) (is_for dev blockno b) _ _
      (λ y. ((record { blocks = p.blocks; places = p.places }, h), p.places))
      (λ n.
        OnFound-behind (Behind a) (Behind a) b (λ i cs. Behind-cons a b i cs p) _
          (find_cached-Behind a dev blockno bs h))

find_unused-Behind :
    (a : Buf) (dev blockno : ℕ) (bs : List Buf)
    → is_for dev blockno a ≡ false
    → All (Apart a) bs
    → OnFound (Behind a) (find_unused dev blockno bs)
unfolding find_unused
find_unused-Behind a dev blockno [] f h = tt
find_unused-Behind a dev blockno (b ∷ bs) f (p, h) =
    OnFound-first (Behind a) _ _
      (OnFound-behind (Behind a) (Behind a) b (λ i cs. Behind-cons a b i cs p) _
        (find_unused-Behind a dev blockno bs f h))
      (λ e.
        OnFound-if (Behind a) (b.refcnt == 0) _ _
          (λ y. ((record { blocks = ground arith; places = p.places }, h), p.places)) (λ n. tt))

-- No use count is the largest of an `uint`.
abbrev pub Counted : List Buf → Type 0
Counted bs = All (λ (b : Buf). b.refcnt < 2 ^ 32 - 1) bs

-- The list is as it should be, and the buffer at the place is for the block, and in use.
pub record Got (dev blockno i : ℕ) (bs : List Buf) : Type 0 where
  pub unique : Unique bs
  pub buf : Buf
  pub at : buf_at i bs ≡ some buf
  pub right : (buf.dev ≡ dev) × (buf.blockno ≡ blockno)
  pub used : 0 < buf.refcnt

Got-head :
    (dev blockno : ℕ) (b : Buf) (bs : List Buf)
    → Unique (b ∷ bs)
    → (b.dev ≡ dev) × (b.blockno ≡ blockno)
    → 0 < b.refcnt
    → Got dev blockno b.id (b ∷ bs)
unfolding buf_at
Got-head dev blockno b bs u r p = record {
  unique = u;
  buf = b;
  at = rw (==_refl b.id);
  right = r;
  used = p;
}

Got-Behind :
    (dev blockno i : ℕ) (b : Buf) (bs : List Buf)
    → Behind b i bs
    → Got dev blockno i bs
    → Got dev blockno i (b ∷ bs)
unfolding buf_at
Got-Behind dev blockno i b bs (h, ne) g = record {
  unique = (h, g.unique);
  buf = g.buf;
  at = rw (==_ne b.id i ne) g.at;
  right = g.right;
  used = g.used;
}

OnFound-both :
    (Q R : ℕ → List Buf → Type 0) (r : Option (ℕ × List Buf))
    → OnFound Q r
    → OnFound R r
    → OnFound (λ i bs. Q i bs × R i bs) r
OnFound-both Q R none h k = tt
OnFound-both Q R (some (i, bs)) h k = (h, k)

module _ (dev blockno : ℕ) where
  abbrev Step : Buf → Option (ℕ × List Buf) → Type 0
  Step b r =
      OnFound (Behind b) r → OnFound (Got dev blockno) r → OnFound (Got dev blockno) (behind b r)

  step : (b : Buf) (r : Option (ℕ × List Buf)) → Step b r
  step b r h k =
      OnFound-behind (λ i bs. Behind b i bs × Got dev blockno i bs) (Got dev blockno) b
        (λ i bs q. Got-Behind dev blockno i b bs q.0 q.1) r
        (OnFound-both (Behind b) (Got dev blockno) r h k)

  find_cached-Got :
      (bs : List Buf)
      → Counted bs
      → Unique bs
      → OnFound (Got dev blockno) (find_cached dev blockno bs)
  unfolding find_cached
  find_cached-Got [] m u = tt
  find_cached-Got (b ∷ bs) (few, m) (h, u) =
      OnFound-if (Got dev blockno) (is_for dev blockno b) _ _
        (λ y.
          Got-head dev blockno (record b { refcnt = (b.refcnt + 1) % 2 ^ 32 }) bs (again bs h, u)
            (ground arith) (omega arith))
        (λ n. step b _ (find_cached-Behind b dev blockno bs h) (find_cached-Got bs m u))
    where
      again :
          (bs : List Buf)
          → All (Apart b) bs
          → All (Apart (record b { refcnt = (b.refcnt + 1) % 2 ^ 32 })) bs
      again [] h = tt
      again (c ∷ bs) (p, h) = (record { blocks = p.blocks; places = p.places }, again bs h)

  recycled-Apart :
      (b : Buf) (bs : List Buf)
      → NotCached dev blockno bs
      → All (Apart b) bs
      → All (Apart (recycled dev blockno b)) bs
  recycled-Apart b [] n h = tt
  recycled-Apart b (c ∷ bs) (n, ns) (p, h) =
      (record { blocks = ground arith; places = p.places }, recycled-Apart b bs ns h)

  find_unused-Got :
      (bs : List Buf)
      → NotCached dev blockno bs
      → Unique bs
      → OnFound (Got dev blockno) (find_unused dev blockno bs)
  unfolding find_unused
  find_unused-Got [] n u = tt
  find_unused-Got (b ∷ bs) (n, ns) (h, u) =
      OnFound-first (Got dev blockno) _ _
        (step b _ (find_unused-Behind b dev blockno bs n h) (find_unused-Got bs ns u))
        (λ e.
          OnFound-if (Got dev blockno) (b.refcnt == 0) _ _
            (λ y.
              Got-head dev blockno (recycled dev blockno b) bs (recycled-Apart b bs ns h, u)
                (refl, refl) (omega arith))
            (λ z. tt))

  bget-OnFound :
      (bs : List Buf) → Counted bs → Unique bs → OnFound (Got dev blockno) (bget dev blockno bs)
  unfolding bget
  bget-OnFound bs m u =
      OnFound-first (Got dev blockno) _ _ (find_cached-Got bs m u)
        (λ e. find_unused-Got bs ((find_cached-none dev blockno bs).0 e) u)

  -- From a cache in which no block of a device other than 0 is held twice, and no use count is about to
  -- wrap, `bget` returns a buffer that is for the block asked for and is in use, and still no such
  -- block is held twice.
  pub bget-Got :
      (bs : List Buf) {i : ℕ} {cs : List Buf}
      → Counted bs
      → Unique bs
      → bget dev blockno bs ≡ some (i, cs)
      → Got dev blockno i cs
  bget-Got bs m u e = subst (OnFound (Got dev blockno)) e (bget-OnFound bs m u)
