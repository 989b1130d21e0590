-- ===== src/Kernel/Vm/Mapping.antt =====
-- `mappages` maps the pages that it is asked to map, in order, and changes no other mapping of any table.
use learn_mit_s.Common.{
  ℕ, zero, suc, ◌+◌, ◌-◌, ◌*◌, ◌/◌, ◌%◌, ◌^◌, ◌≤◌, ◌<◌, ◌≡◌, refl, sym, ap, ◌∙◌, ◌≢◌, ◌⊎◌, inl, inr,
  Bool, true, false, Option, none, some, [], arith, leb, ltb, ◌==◌, if◌then◌else◌, Bool-cases,
  Option-cases, update, update_self, update_ne,
}
use mathlib.Core.Path.{subst}
use learn_mit_s.Kernel.Kalloc.{pgsize, Kmem}
use learn_mit_s.Kernel.Vm.{
  Run, done, is_valid, make_pte, store_word, maxva, pgrounddown, walk_from, walk, mappages_from,
  mappages,
}
use learn_mit_s.Kernel.Vm.Owners.{Owners, IsRoot, Inv, slot, value_at, entry}
use learn_mit_s.Kernel.Vm.Walk.{path_from, IsSlot, Keeps, Found-some, walk_from-Walked}
use learn_mit_s.Kernel.Vm.Entries.{slot_injective, slot-page, set-Inv, set-slot}

-- From `s` to `t` the `k` pages from `a` on are mapped in the table `pt`, to the pages from `pa` on; no
-- other entry of any table has another value.
pub record Mapped (endk : ℕ) (own : Owners) (pt a pa perm k : ℕ) (s t : Kmem) : Type 0 where
  pub after : Owners
  pub inv : Inv endk after t
  pub roots : (q : ℕ) → IsRoot own q → IsRoot after q
  pub inside :
      (va : ℕ)
      → a ≤ va
      → va < a + k * pgsize
      → entry 2 pt va t.mem ≡ make_pte (pa + (pgrounddown va - a)) perm
  pub outside :
      (q va : ℕ)
      → IsRoot own q
      → va < maxva
      → (q ≢ pt) ⊎ ((va < a) ⊎ (a + k * pgsize ≤ va))
      → entry 2 q va t.mem ≡ entry 2 q va s.mem

Keeps-Mapped :
    (endk : ℕ) (own own' : Owners) (pt a pa perm : ℕ) (s t : Kmem)
    → Inv endk own' t
    → Keeps own own' s t
    → Mapped endk own pt a pa perm 0 s t
Keeps-Mapped endk own own' pt a pa perm s t v k = record {
  after = own';
  inv = v;
  roots = λ q e. k.owned q _ e;
  inside = λ va lo hi. absurd (omega arith);
  outside = λ q va e lt h. k.same 2 q va q [] e;
}

-- The entry for the page at `a` is written.
put-Mapped :
    (endk : ℕ) (own own' : Owners) (pt a pa perm at : ℕ) (s t : Kmem)
    → Inv endk own' t
    → Keeps own own' s t
    → IsRoot own pt
    → a < maxva
    → a % pgsize ≡ 0
    → IsSlot own' pt a (path_from 2 a []) at
    → slot 2 pt a t.mem ≡ some at
    → Mapped endk own pt a pa perm 1 s (store_word at (make_pte pa perm) t)
put-Mapped endk own own' pt a pa perm at s t v k root lt al h found = record {
  after = own';
  inv = set-Inv v h w;
  roots = λ q e. k.owned q _ e;
  inside = λ va lo hi.
      ap (λ b. value_at b (update t.mem at w))
        (set-slot v h w 2 pt va pt [] (k.owned pt _ root)
          ∙ slot-page pt va a t.mem (omega arith)
          ∙ found)
      ∙ update_self t.mem at w
      ∙ ap (λ p. make_pte p perm) (omega arith);
  outside = λ q va e lt' far.
      ap (λ b. value_at b (update t.mem at w)) (set-slot v h w 2 q va q [] (k.owned q _ e))
      ∙ other q va (slot 2 q va t.mem) e lt' far refl
      ∙ k.same 2 q va q [] e;
}
  where
    w : ℕ
    w = make_pte pa perm

    other :
        (q va : ℕ) (b : Option ℕ)
        → IsRoot own q
        → va < maxva
        → (q ≢ pt) ⊎ ((va < a) ⊎ (a + 1 * pgsize ≤ va))
        → slot 2 q va t.mem ≡ b
        → value_at b (update t.mem at w) ≡ value_at b t.mem
    other q va none e lt' far f = refl
    other q va (some b) e lt' far f = update_ne t.mem at w b (λ same.
        let (p, g) =
          slot_injective endk pt q a va b own' t.mem v.tree (k.owned pt _ root) (k.owned q _ e) lt
            lt' (found ∙ ap some same) f in
        omega (arith, p, g, far))

Mapped-trans :
    (endk : ℕ) (own : Owners) (pt a pa perm k : ℕ) (s t u : Kmem)
    → IsRoot own pt
    → a % pgsize ≡ 0
    → a < maxva
    → (m : Mapped endk own pt a pa perm 1 s t)
    → Mapped endk m.after pt (a + pgsize) (pa + pgsize) perm k t u
    → Mapped endk own pt a pa perm (suc k) s u
Mapped-trans endk own pt a pa perm k s t u root al top m n = record {
  after = n.after;
  inv = n.inv;
  roots = λ q e. n.roots q (m.roots q e);
  inside = λ va lo hi. elim (Bool-cases (ltb va (a + pgsize))) [
    | inl y ↦
        n.outside pt va (m.roots pt root) (ground arith) (inr (inl (ground arith)))
        ∙ m.inside va lo (ground arith)
    | inr z ↦ n.inside va (ground arith) (ground arith) ∙ ap (λ p. make_pte p perm) (ground arith)
  ];
  outside = λ q va e lt far.
      n.outside q va (m.roots q e) lt (omega arith) ∙ m.outside q va e lt (omega arith);
}

-- Of `n` pages after the first all are mapped, or fewer when memory ran out.
pub data Ended (n : ℕ) : Bool → ℕ → Type 0 where
  all_done : Ended n true (suc n)
  some_done : (k : ℕ) → k ≤ n → Ended n false k

Ended-le : {n k : ℕ} {ok : Bool} → Ended n ok k → k ≤ suc n
Ended-le all_done = omega arith
Ended-le (some_done k le) = omega arith

Ended-suc : {n k : ℕ} {ok : Bool} → Ended n ok k → Ended (suc n) ok (suc k)
Ended-suc all_done = all_done
Ended-suc (some_done k le) = some_done (suc k) (omega arith)

abbrev pub Unmapped : ℕ → ℕ → ℕ → Kmem → Type 0
Unmapped pt a top s = (va : ℕ) → a ≤ va → va < top → is_valid (entry 2 pt va s.mem) ≡ false

-- How the run ends.
pub record MapsTo (endk : ℕ) (own : Owners) (pt a pa perm n : ℕ) (s : Kmem) (run : Run Bool)
    : Type 0 where
  pub ok : Bool
  pub state : Kmem
  pub pages : ℕ
  pub ran : run ≡ done ok state
  pub mapped : Mapped endk own pt a pa perm pages s state
  pub ended : Ended n ok pages

-- What the loop does with some fuel.
abbrev Loops : (fuel endk pt perm : ℕ) → Type 0
Loops fuel endk pt perm =
    (n a pa : ℕ) (own : Owners) (s : Kmem)
    → n < fuel
    → Inv endk own s
    → IsRoot own pt
    → a % pgsize ≡ 0
    → a + n * pgsize < maxva
    → Unmapped pt a (a + n * pgsize + pgsize) s
    → MapsTo endk own pt a pa perm n s (mappages_from fuel pt a (a + n * pgsize) pa perm s)

-- The loop behind the write of the entry for `a`.
abbrev rest_of : (fuel pt a last pa perm : ℕ) → Kmem → Run Bool
rest_of fuel pt a last pa perm t =
    if a == last then done true t else mappages_from fuel pt (a + pgsize) last (pa + pgsize) perm t

rest_of-MapsTo :
    (fuel endk pt perm : ℕ)
    → Loops fuel endk pt perm
    → (n a pa : ℕ) (own : Owners) (s t : Kmem) → n < suc fuel
    → IsRoot own pt
    → a % pgsize ≡ 0
    → a + n * pgsize < maxva
    → Unmapped pt a (a + n * pgsize + pgsize) s
    → Mapped endk own pt a pa perm 1 s t
    → MapsTo endk own pt a pa perm n s (rest_of fuel pt a (a + n * pgsize) pa perm t)
rest_of-MapsTo fuel endk pt perm loop zero a pa own s t lt root al top un m =
    let here : (a == a + 0 * pgsize) ≡ true = ground arith in
    record { ok = true; state = t; pages = 1; ran = rw here refl; mapped = m; ended = all_done }
rest_of-MapsTo fuel endk pt perm loop (suc n) a pa own s t lt root al top un m =
    let on : (a == a + suc n * pgsize) ≡ false = ground arith in
    let last : a + pgsize + n * pgsize ≡ a + suc n * pgsize = omega arith in
    let un' : Unmapped pt (a + pgsize) (a + pgsize + n * pgsize + pgsize) t = λ va lo hi.
      ap is_valid (m.outside pt va root (omega arith) (omega arith))
      ∙ un va (omega arith) (omega arith) in
    let r =
      loop n (a + pgsize) (pa + pgsize) m.after t (omega arith) m.inv (m.roots pt root)
        (omega arith) (omega arith) un' in
    record {
      ok = r.ok;
      state = r.state;
      pages = suc r.pages;
      ran =
          rw on (
            ap (λ x. mappages_from fuel pt (a + pgsize) x (pa + pgsize) perm t) (sym last) ∙ r.ran);
      mapped =
          Mapped-trans endk own pt a pa perm r.pages s t r.state root al
            (omega (arith, Ended-le r.ended)) m r.mapped;
      ended = Ended-suc r.ended;
    }

mappages_from-MapsTo : (fuel endk pt perm : ℕ) → Loops fuel endk pt perm
unfolding mappages_from walk
mappages_from-MapsTo zero endk pt perm n a pa own s lt v root al top un = absurd (omega arith)
mappages_from-MapsTo (suc fuel) endk pt perm n a pa own s lt v root al top un =
    let inside : leb maxva a ≡ false = ground arith in
    let w = walk_from-Walked endk 2 a pt pt [] own s v root in
    elim (Option-cases (walk_from 2 pt a true s).0) [
      | inl e ↦ record {
        ok = false;
        state = (walk_from 2 pt a true s).1;
        pages = 0;
        ran = rw inside (rw e refl);
        mapped = Keeps-Mapped endk own w.after pt a pa perm s _ w.inv w.keeps;
        ended = some_done 0 (omega arith);
      }
      | inr (at, e) ↦
          let t = (walk_from 2 pt a true s).1 in
          let (place_at, found) = Found-some at w.entry_found e in
          let empty : is_valid (t.mem at) ≡ false =
            ap is_valid (sym (ap (λ b. value_at b t.mem) found) ∙ w.keeps.same 2 pt a pt [] root)
            ∙ un a (omega arith) (omega arith) in
          let m =
            put-Mapped endk own w.after pt a pa perm at s t w.inv w.keeps root (omega arith) al
              place_at found in
          let r =
            rest_of-MapsTo fuel endk pt perm (mappages_from-MapsTo fuel endk pt perm) n a pa own s
              (store_word at (make_pte pa perm) t) lt root al top un m in
          record {
            ok = r.ok;
            state = r.state;
            pages = r.pages;
            ran = rw inside (rw e (rw empty r.ran));
            mapped = r.mapped;
            ended = r.ended;
          }
    ]

-- For a size above 0 and a range below `MAXVA` in which the table `pt` maps nothing, `mappages` ends
-- without a panic. If it returns 0, every page of the range is mapped, in order, to the pages from `pa` on;
-- if it returns -1, a first part of them is. No other mapping, in this table or in any other, changes,
-- and the page-table pages still have one place each and are not free.
pub mappages-MapsTo :
    (endk pt va size pa perm : ℕ) (own : Owners) (s : Kmem)
    → Inv endk own s
    → IsRoot own pt
    → 0 < size
    → va + size ≤ maxva
    → Unmapped pt (pgrounddown va) (pgrounddown (va + size - 1) + pgsize) s
    → MapsTo endk own pt
        (pgrounddown va)
        pa
        perm
        ((pgrounddown (va + size - 1) - pgrounddown va) / pgsize)
        s
        (mappages pt va size pa perm s)
unfolding mappages
mappages-MapsTo endk pt va size pa perm own s v root pos top un =
    let n = (pgrounddown (va + size - 1) - pgrounddown va) / pgsize in
    let last : pgrounddown va + n * pgsize ≡ pgrounddown ((va + size + 2 ^ 64 - 1) % 2 ^ 64) =
      omega arith in
    let un' : Unmapped pt (pgrounddown va) (pgrounddown va + n * pgsize + pgsize) s =
      λ a lo hi. un a lo (omega arith) in
    subst
      (λ x.
        MapsTo endk own pt (pgrounddown va) pa perm n s
          (mappages_from (maxva / pgsize + 1) pt (pgrounddown va) x pa perm s))
      last
      (mappages_from-MapsTo (maxva / pgsize + 1) endk pt perm n (pgrounddown va) pa own s
        (omega arith) v root (omega arith) (omega arith) un')
