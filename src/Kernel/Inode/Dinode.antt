-- ===== src/Kernel/Inode/Dinode.antt =====
-- The layout of an inode on disk: what is stored is loaded.
use learn_mit_s.Common.{
  ℕ, zero, suc, ◌+◌, ◌*◌, ◌^◌, ◌≤◌, ◌<◌, ◌≡◌, refl, sym, ap, ◌∙◌, ◌⊎◌, inl, arith, lt→ltb,
  ℕ_discrete, if-true,
}
use learn_mit_s.Kernel.Str.{Mem}
use learn_mit_s.Kernel.Fs.{ndirect, Inode}
use learn_mit_s.Kernel.Fs.Words.{
  store16, load32, store32, load16-store16, load32-store32, store16_ne, store32_ne, load16_kept,
  load32_kept,
}
use learn_mit_s.Kernel.Inode.{store_addrs, store_dinode, load_dinode}

-- Fields that fit the structure on disk.
pub record Fits (x : Inode) : Type 0 where
  pub type : x.type < 2 ^ 16
  pub major : x.major < 2 ^ 16
  pub minor : x.minor < 2 ^ 16
  pub nlink : x.nlink < 2 ^ 16
  pub size : x.size < 2 ^ 32
  pub addrs : (i : ℕ) → x.addrs i < 2 ^ 32

-- The same fields on disk.
pub record SameDisk (x y : Inode) : Type 0 where
  pub type : x.type ≡ y.type
  pub major : x.major ≡ y.major
  pub minor : x.minor ≡ y.minor
  pub nlink : x.nlink ≡ y.nlink
  pub size : x.size ≡ y.size
  pub addrs : (i : ℕ) → i < ndirect + 1 → x.addrs i ≡ y.addrs i

store_addrs_ne :
    (r i a : ℕ) (addrs : ℕ → ℕ) (d : Mem) (x : ℕ)
    → (x < a + 12 + 4 * i) ⊎ (a + 12 + 4 * (i + r) ≤ x)
    → store_addrs r i a addrs d x ≡ d x
unfolding store_addrs
store_addrs_ne zero i a addrs d x h = refl
store_addrs_ne (suc r) i a addrs d x h =
    store_addrs_ne r (i + 1) a addrs (store32 d (a + 12 + 4 * i) (addrs i)) x (ground (arith, h))
    ∙ store32_ne d (a + 12 + 4 * i) (addrs i) x (ground (arith, h))

load32-store_addrs :
    (r i a : ℕ) (addrs : ℕ → ℕ) (d : Mem) (j : ℕ)
    → ((i : ℕ) → addrs i < 2 ^ 32)
    → i ≤ j
    → j < i + r
    → load32 (store_addrs r i a addrs d) (a + 12 + 4 * j) ≡ addrs j
unfolding store_addrs
load32-store_addrs zero i a addrs d j small lo hi = absurd (omega (arith, lo, hi))
load32-store_addrs (suc r) i a addrs d j small lo hi = elim (ℕ_discrete i j) [
  | no ne ↦
      load32-store_addrs r (i + 1) a addrs (store32 d (a + 12 + 4 * i) (addrs i)) j small
        (omega (arith, lo, ne)) (omega (arith, hi))
  | yes e ↦
      let d1 = store32 d (a + 12 + 4 * i) (addrs i) in
      ap (λ k. load32 (store_addrs r (i + 1) a addrs d1) (a + 12 + 4 * k)) (sym e)
      ∙ load32_kept d1 (store_addrs r (i + 1) a addrs d1) (a + 12 + 4 * i)
          (λ x l h. store_addrs_ne r (i + 1) a addrs d1 x (inl (omega (arith, h))))
      ∙ load32-store32 d (a + 12 + 4 * i) (addrs i) (small i)
      ∙ ap addrs e
]

-- The stores of `iupdate`, one after another.
module _ (a : ℕ) (x : Inode) (d : Mem) where
  abbrev d1 : Mem
  d1 = store16 d a x.type

  abbrev d2 : Mem
  d2 = store16 d1 (a + 2) x.major

  abbrev d3 : Mem
  d3 = store16 d2 (a + 4) x.minor

  abbrev d4 : Mem
  d4 = store16 d3 (a + 6) x.nlink

  abbrev d5 : Mem
  d5 = store32 d4 (a + 8) x.size

  abbrev d6 : Mem
  d6 = store_addrs (ndirect + 1) 0 a x.addrs d5

  after_size : (n : ℕ) → n < a + 12 → d6 n ≡ d5 n
  after_size n h = store_addrs_ne (ndirect + 1) 0 a x.addrs d5 n (inl (omega (arith, h)))

  after_nlink : (n : ℕ) → n < a + 8 → d6 n ≡ d4 n
  after_nlink n h = after_size n (omega (arith, h)) ∙ store32_ne d4 (a + 8) x.size n (inl h)

  after_minor : (n : ℕ) → n < a + 6 → d6 n ≡ d3 n
  after_minor n h = after_nlink n (omega (arith, h)) ∙ store16_ne d3 (a + 6) x.nlink n (inl h)

  after_major : (n : ℕ) → n < a + 4 → d6 n ≡ d2 n
  after_major n h = after_minor n (omega (arith, h)) ∙ store16_ne d2 (a + 4) x.minor n (inl h)

  after_type : (n : ℕ) → n < a + 2 → d6 n ≡ d1 n
  after_type n h = after_major n (omega (arith, h)) ∙ store16_ne d1 (a + 2) x.major n (inl h)

  pub load-store_dinode : (y : Inode) → Fits x → SameDisk (load_dinode a (store_dinode a x d) y) x
  unfolding store_dinode load_dinode
  load-store_dinode y f = record {
    type = load16_kept d1 d6 a (λ n l h. after_type n h) ∙ load16-store16 d a x.type f.type;
    major =
        load16_kept d2 d6 (a + 2) (λ n l h. after_major n (omega (arith, h)))
        ∙ load16-store16 d1 (a + 2) x.major f.major;
    minor =
        load16_kept d3 d6 (a + 4) (λ n l h. after_minor n (omega (arith, h)))
        ∙ load16-store16 d2 (a + 4) x.minor f.minor;
    nlink =
        load16_kept d4 d6 (a + 6) (λ n l h. after_nlink n (omega (arith, h)))
        ∙ load16-store16 d3 (a + 6) x.nlink f.nlink;
    size =
        load32_kept d5 d6 (a + 8) (λ n l h. after_size n (omega (arith, h)))
        ∙ load32-store32 d4 (a + 8) x.size f.size;
    addrs = λ i lt.
        if-true (load32 d6 (a + 12 + 4 * i)) (y.addrs i) (lt→ltb i (ndirect + 1) lt)
        ∙ load32-store_addrs (ndirect + 1) 0 a x.addrs d5 i f.addrs (omega arith)
            (omega (arith, lt));
  }
