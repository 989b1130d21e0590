-- ===== src/Kernel/Locks.antt =====
-- Which locks of inodes and buffers are held, lab1/kernel/fs.c, and how the calls change that.
pub mod Blocks
pub mod Inodes
pub mod Trunc
pub mod Contents
pub mod Dirs
use learn_mit_s.Common.{
  ℕ, ◌≡◌, refl, sym, ap, ◌∙◌, Bool, true, false, if_both, if◌then◌else◌, update, update_ne,
  update_self, ℕ_discrete, ◌==◌, Bool-cases, inl, inr,
}
use learn_mit_s.Kernel.Fs.{
  Inode, Fs, Result, done, panicked, asleep, out_of_fuel, M, bind_result, ◌>>=◌, ◌>>◌, bread,
  brelse,
}
use learn_mit_s.Kernel.Fs.Bitmap.{with_held}
use learn_mit_s.Kernel.Inode.{set_inode}

pub record Locks : Type 0 where
  pub inodes : ℕ → Bool
  pub buffers : ℕ → Bool

-- The locks that are held in a state.
pub record At (l : Locks) (s : Fs) : Type 0 where
  pub inodes : (i : ℕ) → (s.inodes i).owned ≡ l.inodes i
  pub buffers : (b : ℕ) → s.held b ≡ l.buffers b

abbrev pub lock_inode : ℕ → Locks → Locks
lock_inode ip l = record l { inodes = update l.inodes ip true }

abbrev pub lock_buffer : ℕ → Locks → Locks
lock_buffer b l = record l { buffers = update l.buffers b true }

-- Where a call comes back it has these locks.
abbrev pub EndsAt {ℓ} : {A : Type ℓ} → Locks → Result A → Type 0
EndsAt l (done a s) = At l s
EndsAt l panicked = Unit
EndsAt l asleep = Unit
EndsAt l out_of_fuel = Unit

abbrev pub Takes {ℓ} : {A : Type ℓ} → Locks → M A → Locks → Type 0
Takes l m l' = (s : Fs) → At l s → EndsAt l' (m s)

abbrev pub Keeps {ℓ} : {A : Type ℓ} → M A → Type 0
Keeps m = (l : Locks) → Takes l m l

pub then_ends {ℓ κ} :
    {A : Type ℓ} {B : Type κ} (l l' : Locks) (r : Result A) (f : A → M B)
    → EndsAt l r
    → ((a : A) → Takes l (f a) l')
    → EndsAt l' (bind_result r f)
then_ends l l' (done a s) f h k = k a s h
then_ends l l' panicked f h k = tt
then_ends l l' asleep f h k = tt
then_ends l l' out_of_fuel f h k = tt

pub bind_ends {ℓ κ μ} :
    {A : Type ℓ} {B : Type κ} {C : Type μ} (l : Locks) (r : Result A) (f : A → M B) (g : B → M C)
    → EndsAt l (bind_result r (λ a. f a >>= g))
    → EndsAt l (bind_result (bind_result r f) g)
bind_ends l (done a s) f g h = h
bind_ends l panicked f g h = h
bind_ends l asleep f g h = h
bind_ends l out_of_fuel f g h = h

update_back : (f : ℕ → Bool) (i j : ℕ) → f i ≡ false → update (update f i true) i false j ≡ f j
update_back f i j h = elim (ℕ_discrete i j) [
  | yes y ↦
      ap (update (update f i true) i false) (sym y)
      ∙ update_self (update f i true) i false
      ∙ sym h
      ∙ ap f y
  | no n ↦ update_ne (update f i true) i false j n ∙ update_ne f i true j n
]

update_same {ℓ} :
    {A : Type ℓ} (f g : ℕ → A) (i : ℕ) (v : A)
    → ((j : ℕ) → f j ≡ g j)
    → (j : ℕ) → update f i v j ≡ update g i v j
update_same f g i v h j = ap (λ x. if i == j then v else x) (h j)

pub bread_then {ℓ} :
    {B : Type ℓ} (l l' : Locks) (b : ℕ) (k : M B) (s : Fs)
    → At l s
    → (l.buffers b ≡ false
        → At (lock_buffer b l) (with_held b true s)
        → EndsAt l' (k (with_held b true s)))
    → EndsAt l' (bind_result (bread b s) (λ _. k))
unfolding bread
bread_then l l' b k s h f =
    if_both (λ r. EndsAt l' (bind_result r (λ _. k))) (s.held b) asleep
      (done tt (with_held b true s)) (λ _. tt)
      λ n.
        f (sym (h.buffers b) ∙ n)
          record { inodes = h.inodes; buffers = update_same s.held l.buffers b true h.buffers }

pub brelse-Takes : (b : ℕ) (l : Locks) → l.buffers b ≡ false → Takes (lock_buffer b l) (brelse b) l
unfolding brelse
brelse-Takes b l free s h =
    if_both (EndsAt l) (s.held b) (done tt (with_held b false s)) panicked
      (λ _. record {
        inodes = h.inodes;
        buffers = λ j.
            update_same s.held (update l.buffers b true) b false h.buffers j
            ∙ update_back l.buffers b j free;
      })
      λ _. tt

update_kept : (f : ℕ → Bool) (i : ℕ) (v : Bool) (j : ℕ) → v ≡ f i → update f i v j ≡ f j
update_kept f i v j h = elim (ℕ_discrete i j) [
  | yes y ↦ ap (update f i v) (sym y) ∙ update_self f i v ∙ h ∙ ap f y
  | no n ↦ update_ne f i v j n
]

owned_update :
    (f : ℕ → Inode) (ip : ℕ) (x : Inode) (i : ℕ)
    → (update f ip x i).owned ≡ update (λ j. (f j).owned) ip x.owned i
owned_update f ip x i = elim (Bool-cases (ip == i)) [ inl e ↦ rw e refl | inr e ↦ rw e refl ]

-- A change of an inode that leaves its lock alone.
pub set_inode-At :
    (ip : ℕ) (f : Inode → Inode) (l : Locks) (s : Fs)
    → ((x : Inode) → (f x).owned ≡ x.owned)
    → At l s
    → At l (record s { inodes = update s.inodes ip (f (s.inodes ip)) })
set_inode-At ip f l s same h = record {
  inodes = λ i.
      owned_update s.inodes ip (f (s.inodes ip)) i
      ∙ update_kept (λ j. (s.inodes j).owned) ip (f (s.inodes ip)).owned i (same (s.inodes ip))
      ∙ h.inodes i;
  buffers = h.buffers;
}

-- Taking and giving back the lock of an inode.
pub own-At :
    (ip : ℕ) (l : Locks) (s : Fs)
    → At l s
    → At
        (lock_inode ip l)
        (record s { inodes = update s.inodes ip (record (s.inodes ip) { owned = true }) })
own-At ip l s h = record {
  inodes = λ i.
      owned_update s.inodes ip (record (s.inodes ip) { owned = true }) i
      ∙ update_same (λ j. (s.inodes j).owned) l.inodes ip true h.inodes i;
  buffers = h.buffers;
}

pub disown-At :
    (ip : ℕ) (l : Locks) (s : Fs)
    → l.inodes ip ≡ false
    → At (lock_inode ip l) s
    → At l (record s { inodes = update s.inodes ip (record (s.inodes ip) { owned = false }) })
disown-At ip l s free h = record {
  inodes = λ i.
      owned_update s.inodes ip (record (s.inodes ip) { owned = false }) i
      ∙ update_same (λ j. (s.inodes j).owned) (update l.inodes ip true) ip false h.inodes i
      ∙ update_back l.inodes ip i free;
  buffers = h.buffers;
}
