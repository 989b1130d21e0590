-- ===== src/Kernel/Release.antt =====
-- What a process holds while it is in a system call, lab1/kernel/sysfile.c: locks of inodes and buffers, and
-- transactions.
pub mod Files
pub mod Links
pub mod Unlinks
pub mod Descriptors
pub mod Reads
pub mod Creates
pub mod Opens
pub mod Calls
mod Tests
use learn_mit_s.Common.{
  ℕ, suc, ◌-◌, ◌≡◌, sym, ap, ◌∙◌, Bool, true, false, inl, inr, arith, if◌then◌else◌, Bool-cases,
  if_both, update, update_ne, update_self, ℕ_discrete,
}
use learn_mit_s.Kernel.Fs
use learn_mit_s.Kernel.Fs.{M}
use learn_mit_s.Kernel.Inode.{ilock, iunlock, iunlockput}
use learn_mit_s.Kernel.Locks.{Locks, At, lock_inode, EndsAt, Takes, Keeps}
use learn_mit_s.Kernel.Locks.Inodes.{ilock-Takes, ilock_locked, returns, iunlock-Takes}
use learn_mit_s.Kernel.Locks.Trunc.{iunlockput-Takes}
use learn_mit_s.Kernel.Sys.{
  Sys, Outcome, done, panicked, asleep, out_of_fuel, Act, pure, panic, bind_outcome, ◌>>=◌, ◌>>◌,
  in_fs, call, begin_op, end_op,
}

pub record Holding : Type 0 where
  pub locks : Locks
  pub ops : ℕ

pub record Has (h : Holding) (s : Sys) : Type 0 where
  pub fs : At h.locks s.fs
  pub ops : s.ops ≡ h.ops

abbrev pub with_lock : ℕ → Holding → Holding
with_lock ip h = record h { locks = lock_inode ip h.locks }

abbrev pub in_op : Holding → Holding
in_op h = record h { ops = suc h.ops }

-- No one has the lock of the inode.
abbrev pub IsFree : ℕ → Holding → Type 0
IsFree ip h = h.locks.inodes ip ≡ false

-- What holds of the answer and the state where a call comes back.
abbrev pub EndsIn {ℓ} : {A : Type ℓ} → (A → Sys → Type 0) → Outcome A → Type 0
EndsIn P (done a s) = P a s
EndsIn P panicked = Unit
EndsIn P asleep = Unit
EndsIn P out_of_fuel = Unit

pub record Gives {ℓ} {A : Type ℓ} (h : Holding) (m : Act A) (P : A → Sys → Type 0) : Type 0 where
  pub runs : (s : Sys) → Has h s → EndsIn P (m s)

abbrev pub Moves {ℓ} : {A : Type ℓ} → Holding → Act A → Holding → Type 0
Moves h m h' = Gives h m (λ _. Has h')

then_ends {ℓ κ} :
    {A : Type ℓ} {B : Type κ} (P : A → Sys → Type 0) (Q : B → Sys → Type 0) (r : Outcome A)
    (f : A → Act B)
    → EndsIn P r
    → ((a : A) (s : Sys) → P a s → EndsIn Q (f a s))
    → EndsIn Q (bind_outcome r f)
then_ends P Q (done a s) f h k = k a s h
then_ends P Q panicked f h k = tt
then_ends P Q asleep f h k = tt
then_ends P Q out_of_fuel f h k = tt

-- A call, and what follows.
pub chain {ℓ κ} :
    {A : Type ℓ} {B : Type κ} {h : Holding} {P : A → Sys → Type 0} {Q : B → Sys → Type 0}
    {m : Act A} (f : A → Act B)
    → Gives h m P
    → ((a : A) (s : Sys) → P a s → EndsIn Q (f a s))
    → Gives h (m >>= f) Q
chain {P} {Q} {m} f a b = record { runs = λ s has. then_ends P Q (m s) f (a.runs s has) b }

pub seq {ℓ κ} :
    {A : Type ℓ} {B : Type κ} {h h' : Holding} {Q : B → Sys → Type 0} {m : Act A} {f : A → Act B}
    → Moves h m h'
    → ((a : A) → Gives h' (f a) Q)
    → Gives h (m >>= f) Q
seq {f} a b = chain f a (λ x s has. (b x).runs s has)

pub answer {ℓ} :
    {A : Type ℓ} {h : Holding} {P : A → Sys → Type 0} (a : A)
    → ((s : Sys) → Has h s → P a s)
    → Gives h (pure a) P
answer a f = record { runs = f }

-- Each branch by its own proof.
pub branch {ℓ} :
    {A : Type ℓ} {h : Holding} {P : A → Sys → Type 0} (b : Bool) {x y : Act A}
    → (b ≡ true → Gives h x P)
    → (b ≡ false → Gives h y P)
    → Gives h (if b then x else y) P
branch {h} {P} b {x} {y} f g = if_both (λ m. Gives h m P) b x y f g

-- A call that panics gives anything.
pub panic-Gives {ℓ} : {A : Type ℓ} {h : Holding} {P : A → Sys → Type 0} → Gives h panic P
panic-Gives = record { runs = λ s has. tt }

-- Calls of the file system.
in_fs-EndsIn {ℓ} :
    {A : Type ℓ} (l : Locks) (n : ℕ) (r : Fs.Result A) (s : Sys)
    → EndsAt l r
    → s.ops ≡ n
    → EndsIn (λ _. Has (record { locks = l; ops = n })) (in_fs r s)
in_fs-EndsIn l n (Fs.done a t) s h e = record { fs = h; ops = e }
in_fs-EndsIn l n Fs.panicked s h e = tt
in_fs-EndsIn l n Fs.asleep s h e = tt
in_fs-EndsIn l n Fs.out_of_fuel s h e = tt

pub call-Moves {ℓ} :
    {A : Type ℓ} {l : Locks} {n : ℕ} (m : M A) (l' : Locks)
    → Takes l m l'
    → Moves (record { locks = l; ops = n }) (call m) (record { locks = l'; ops = n })
call-Moves {n} m l' t = record {
  runs = λ s has. in_fs-EndsIn l' n (m s.fs) s (t s.fs has.fs) has.ops;
}

pub call-Keeps {ℓ} : {A : Type ℓ} {h : Holding} (m : M A) → Keeps m → Moves h (call m) h
call-Keeps {h} m t = call-Moves m h.locks (t h.locks)

no_return {ℓ κ} :
    {A : Type ℓ} {B : Type κ} (Q : B → Sys → Type 0) (r : Fs.Result A) (s : Sys) (f : A → Act B)
    → returns r ≡ false
    → EndsIn Q (bind_outcome (in_fs r s) f)
no_return Q (Fs.done a t) s f e = absurd (ground (arith, e))
no_return Q Fs.panicked s f e = tt
no_return Q Fs.asleep s f e = tt
no_return Q Fs.out_of_fuel s f e = tt

pub ilock_seq {ℓ} :
    {B : Type ℓ} {h : Holding} {Q : B → Sys → Type 0} (ip : ℕ) {k : Act B}
    → (IsFree ip h → Gives (with_lock ip h) k Q)
    → Gives h (call (ilock ip) >> k) Q
ilock_seq {h} {Q} ip {k} f = record {
  runs = λ s has. elim (Bool-cases (h.locks.inodes ip)) [
    | inl y ↦ no_return Q (ilock ip s.fs) s (λ _. k) (ilock_locked ip s.fs (has.fs.inodes ip ∙ y))
    | inr n ↦
        let locked : Moves h (call (ilock ip)) (with_lock ip h) =
          call-Moves (ilock ip) (lock_inode ip h.locks) (ilock-Takes ip h.locks) in
        (seq locked (λ _. f n)).runs s has
  ];
}

pub iunlock-Moves :
    {h : Holding} (ip : ℕ) → IsFree ip h → Moves (with_lock ip h) (call (iunlock ip)) h
iunlock-Moves {h} ip free = call-Moves (iunlock ip) h.locks (iunlock-Takes ip h.locks free)

pub iunlockput-Moves :
    {h : Holding} (ip : ℕ) → IsFree ip h → Moves (with_lock ip h) (call (iunlockput ip)) h
iunlockput-Moves {h} ip free = call-Moves (iunlockput ip) h.locks (iunlockput-Takes ip h.locks free)

pub begin_op-Moves : {h : Holding} → Moves h begin_op (in_op h)
unfolding begin_op
begin_op-Moves = record { runs = λ s has. record { fs = has.fs; ops = omega (arith, has.ops) } }

pub end_op-Moves : {h : Holding} → Moves (in_op h) end_op h
unfolding end_op
end_op-Moves = record { runs = λ s has. record { fs = has.fs; ops = omega (arith, has.ops) } }

-- Two locks that are held come in either order.
pub swap_locks :
    (ip dp : ℕ) (h : Holding) (s : Sys)
    → Has (with_lock ip (with_lock dp h)) s
    → Has (with_lock dp (with_lock ip h)) s
swap_locks ip dp h s has = record {
  fs = record { inodes = λ i. has.fs.inodes i ∙ either_order i; buffers = has.fs.buffers };
  ops = has.ops;
}
  where
    either_order :
        (i : ℕ)
        → update (update h.locks.inodes dp true) ip true i
          ≡ update (update h.locks.inodes ip true) dp true i
    either_order i = ground arith

pub other-IsFree :
    (ip dp : ℕ) (h : Holding)
    → IsFree dp h
    → IsFree ip (with_lock dp h)
    → IsFree dp (with_lock ip h)
other-IsFree ip dp h a b = elim (ℕ_discrete ip dp) [
  | yes y ↦ absurd (
      ground (
        arith,
        sym (ap (update h.locks.inodes dp true) y ∙ update_self h.locks.inodes dp true) ∙ b,
      ))
  | no n ↦ update_ne h.locks.inodes ip true dp n ∙ a
]
