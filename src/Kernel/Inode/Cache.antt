-- ===== src/Kernel/Inode/Cache.antt =====
-- The inode cache: an inode has one entry in use, and `iget` finds it or makes it.
use learn_mit_s.Common.{
  ℕ, zero, suc, ◌+◌, ◌≤◌, ◌<◌, ◌≡◌, refl, sym, ap, ◌∙◌, ◌≢◌, ◌⊎◌, inl, inr, Bool, true, false, ◌&&◌,
  Option, none, some, arith, ltb, ◌==◌, Bool-cases, update, update_self, update_ne, ℕ_discrete,
  ==→eq, ==_false, if-true, if-false, some_inj,
}
use mathlib.Core.Path.{subst}
use learn_mit_s.Kernel.Fs.{Inode, Fs, Result, done, panicked}
use learn_mit_s.Kernel.Inode.{ninode, reused, once_more, first_empty, iget_from, iget}

abbrev pub IsFor : Fs → ℕ → ℕ → Type 0
IsFor s inum i = (0 < (s.inodes i).ref) × ((s.inodes i).inum ≡ inum)

-- No inode has two entries in use.
abbrev pub Unique : Fs → Type 0
Unique s = (i j inum : ℕ) → i < ninode → j < ninode → IsFor s inum i → IsFor s inum j → i ≡ j

abbrev with_inode : ℕ → (Inode → Inode) → Fs → Fs
with_inode i f s = record s { inodes = update s.inodes i (f (s.inodes i)) }

-- The ways that the search from `i` on ends.
abbrev pub NoneFor : Fs → ℕ → ℕ → ℕ → Type 0
NoneFor s inum i n = (k : ℕ) → i ≤ k → k < n → ¬ IsFor s inum k

data Ends (s : Fs) (inum i n : ℕ) (empty : Option ℕ) (r : Result ℕ) : Type 0 where
  found :
      (k : ℕ)
      → i ≤ k
      → k < n
      → IsFor s inum k
      → r ≡ done k (with_inode k once_more s)
      → Ends s inum i n empty r
  made :
      (e : ℕ)
      → (empty ≡ some e) ⊎ ((i ≤ e) × (e < n) × ((s.inodes e).ref ≡ 0))
      → NoneFor s inum i n
      → r ≡ done e (with_inode e (reused inum) s)
      → Ends s inum i n empty r
  full :
      empty ≡ none
      → ((k : ℕ) → i ≤ k → k < n → (s.inodes k).ref ≢ 0)
      → NoneFor s inum i n
      → r ≡ panicked
      → Ends s inum i n empty r

first_empty-some :
    (free : Bool) (i e : ℕ) (o : Option ℕ)
    → first_empty free i o ≡ some e
    → (o ≡ some e) ⊎ ((free ≡ true) × (i ≡ e))
first_empty-some free i e (some k) h = inl h
first_empty-some true i e none h = inr (refl, some_inj h)
first_empty-some false i e none h = inl h

first_empty-none :
    (free : Bool) (i : ℕ) (o : Option ℕ) → first_empty free i o ≡ none → (o ≡ none) × (free ≡ false)
first_empty-none free i (some k) h = absurd (ground (arith, h))
first_empty-none true i none h = absurd (ground (arith, h))
first_empty-none false i none h = (refl, refl)

NoneFor-next :
    (s : Fs) (inum i n : ℕ) → ¬ IsFor s inum i → NoneFor s inum (i + 1) n → NoneFor s inum i n
NoneFor-next s inum i n not_this none_for k lo hi = elim (ℕ_discrete i k) [
  | yes same ↦ subst (λ x. ¬ IsFor s inum x) same not_this
  | no ne ↦ none_for k (omega (arith, lo, ne)) hi
]

-- A round that goes on.
passed :
    (s : Fs) (inum i n : ℕ) (empty : Option ℕ) (r r' : Result ℕ)
    → i < n
    → r ≡ r'
    → ¬ IsFor s inum i
    → Ends s inum (i + 1) n (first_empty ((s.inodes i).ref == 0) i empty) r'
    → Ends s inum i n empty r
passed s inum i n empty r r' lt on not_this (found k lo hi this e) =
    found k (omega (arith, lo)) hi this (on ∙ e)
passed s inum i n empty r r' lt on not_this (made e h none_for q) =
    let place : (empty ≡ some e) ⊎ ((i ≤ e) × (e < n) × ((s.inodes e).ref ≡ 0)) = elim h [
      | inr (lo, hi, z) ↦ inr (omega (arith, lo), hi, z)
      | inl o ↦ elim (first_empty-some ((s.inodes i).ref == 0) i e empty o) [
        | inl before ↦ inl before
        | inr (z, same) ↦
            let ref : (s.inodes e).ref ≡ (s.inodes i).ref = ap (λ k. (s.inodes k).ref) (sym same) in
            inr (omega (arith, same), omega (arith, same, lt), ref ∙ ==→eq (s.inodes i).ref 0 z)
      ]
    ] in
    made e place (NoneFor-next s inum i n not_this none_for) (on ∙ q)
passed s inum i n empty r r' lt on not_this (full h busy none_for q) =
    let (before, used) = first_empty-none ((s.inodes i).ref == 0) i empty h in
    full before
      (λ k lo hi. elim (ℕ_discrete i k) [
        | yes same ↦ subst (λ x. (s.inodes x).ref ≢ 0) same (==_false (s.inodes i).ref 0 used)
        | no ne ↦ busy k (omega (arith, lo, ne)) hi
      ])
      (NoneFor-next s inum i n not_this none_for) (on ∙ q)

iget_from-Ends :
    (r i inum : ℕ) (empty : Option ℕ) (s : Fs)
    → Ends s inum i (i + r) empty (iget_from r i inum empty s)
unfolding iget_from
iget_from-Ends zero i inum none s =
    full refl (λ k lo hi. absurd (omega (arith, lo, hi)))
      (λ k lo hi. absurd (omega (arith, lo, hi))) refl
iget_from-Ends zero i inum (some e) s =
    made e (inl refl) (λ k lo hi. absurd (omega (arith, lo, hi))) refl
iget_from-Ends (suc r) i inum empty s =
    let x = s.inodes i in
    let here = done i (with_inode i once_more s) in
    let rest = iget_from r (i + 1) inum (first_empty (x.ref == 0) i empty) s in
    elim (Bool-cases (ltb 0 x.ref && x.inum == inum)) [
      | inl this ↦
          found i (omega arith) (omega arith) (ground (arith, this), ground (arith, this))
            (if-true here rest this)
      | inr other ↦
          passed s inum i (i + suc r) empty (iget_from (suc r) i inum empty s) rest (omega arith)
            (if-false here rest other) (λ h. ground (arith, other, h))
            (subst (λ n. Ends s inum (i + 1) n (first_empty (x.ref == 0) i empty) rest)
              (omega arith) (iget_from-Ends r (i + 1) inum (first_empty (x.ref == 0) i empty) s))
    ]

-- What `iget` has done in the state `t` that holds the entry `i`.
pub record Got (s : Fs) (inum i : ℕ) (t : Fs) : Type 0 where
  pub inside : i < ninode
  pub entry : IsFor t inum i
  pub unique : Unique t
  pub others : (k : ℕ) → k ≢ i → t.inodes k ≡ s.inodes k
  pub counted :
      (IsFor s inum i × (t.inodes i ≡ record (s.inodes i) { ref = (s.inodes i).ref + 1 }))
      ⊎ (NoneFor s inum 0 ninode
          × ((s.inodes i).ref ≡ 0)
          × ((t.inodes i).ref ≡ 1)
          × ((t.inodes i).valid ≡ false))

-- The entries of a state in which one is changed.
module _ (s : Fs) (i : ℕ) (f : Inode → Inode) where
  other_entry : (n k : ℕ) → i ≢ k → IsFor (with_inode i f s) n k → IsFor s n k
  other_entry n k ne h =
      subst (λ x. (0 < x.ref) × (x.inum ≡ n)) (update_ne s.inodes i (f (s.inodes i)) k ne) h

  this_entry : (n k : ℕ) → i ≡ k → IsFor (with_inode i f s) n k → (f (s.inodes i)).inum ≡ n
  this_entry n k e h =
      ap (λ x. x.inum)
        (sym (update_self s.inodes i (f (s.inodes i))) ∙ ap (λ j. (with_inode i f s).inodes j) e)
      ∙ h.1

  changed-Unique :
      (inum : ℕ)
      → Unique s
      → (f (s.inodes i)).inum ≡ inum
      → ((k : ℕ) → k < ninode → k ≢ i → ¬ IsFor s inum k)
      → Unique (with_inode i f s)
  changed-Unique inum u e alone a b n ha hb x y = elim (ℕ_discrete i a) [
    | yes ia ↦ elim (ℕ_discrete i b) [
      | yes ib ↦ sym ia ∙ ib
      | no nb ↦
          let same : n ≡ inum = sym (this_entry n a ia x) ∙ e in
          let y' : IsFor s inum b = subst (λ m. IsFor s m b) same (other_entry n b nb y) in
          absurd (alone b hb (λ q. nb (sym q)) y')
    ]
    | no na ↦ elim (ℕ_discrete i b) [
      | yes ib ↦
          let same : n ≡ inum = sym (this_entry n b ib y) ∙ e in
          let x' : IsFor s inum a = subst (λ m. IsFor s m a) same (other_entry n a na x) in
          absurd (alone a ha (λ q. na (sym q)) x')
      | no nb ↦ u a b n ha hb (other_entry n a na x) (other_entry n b nb y)
    ]
  ]

-- From a cache in which no inode has two entries in use, `iget` leads to such a cache. It panics only when all
-- 50 entries are in use and none is for the inode; else it returns the entry of the inode, with one more
-- reference, or where there is none, an entry that was not in use, with one reference and not valid. No
-- other entry changes.
pub iget-Got :
    (inum : ℕ) (s : Fs)
    → Unique s
    → ((iget inum s ≡ panicked)
        × NoneFor s inum 0 ninode
        × ((k : ℕ) → k < ninode → (s.inodes k).ref ≢ 0))
      ⊎ ((i : ℕ) × (t : Fs) × (iget inum s ≡ done i t) × Got s inum i t)
unfolding iget
iget-Got inum s u = elim (iget_from-Ends ninode 0 inum none s) [
  | full h busy none_for q ↦ inl (q, none_for, λ k lt. busy k (omega arith) lt)
  | found k lo hi this q ↦
      let now = update_self s.inodes k (once_more (s.inodes k)) in
      inr (
        k,
        with_inode k once_more s,
        q,
        record {
          inside = hi;
          entry = subst (λ x. (0 < x.ref) × (x.inum ≡ inum)) (sym now) (omega arith, this.1);
          unique =
              changed-Unique s k once_more inum u this.1
                (λ j lt ne h. ne (u j k inum lt hi h this));
          others = λ j ne. update_ne s.inodes k (once_more (s.inodes k)) j (λ e. ne (sym e));
          counted = inl (this, now);
        },
      )
  | made e place none_for q ↦
      let (lt, free) : (e < ninode) × ((s.inodes e).ref ≡ 0) = elim place [
        | inl seen ↦ absurd (ground (arith, seen))
        | inr (lo, hi, z) ↦ (hi, z)
      ] in
      let now = update_self s.inodes e (reused inum (s.inodes e)) in
      inr (
        e,
        with_inode e (reused inum) s,
        q,
        record {
          inside = lt;
          entry = subst (λ x. (0 < x.ref) × (x.inum ≡ inum)) (sym now) (omega arith, refl);
          unique =
              changed-Unique s e (reused inum) inum u refl
                (λ j h ne this. none_for j (omega arith) h this);
          others = λ j ne. update_ne s.inodes e (reused inum (s.inodes e)) j (λ q. ne (sym q));
          counted = inr (none_for, free, ap (λ x. x.ref) now, ap (λ x. x.valid) now);
        },
      )
]
