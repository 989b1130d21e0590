-- ===== src/Kernel/Content/Read.antt =====
-- `readi` into kernel memory: the bytes of the file arrive.
use learn_mit_s.Common.{
  ℕ, zero, suc, ◌+◌, ◌-◌, ◌/◌, ◌%◌, ◌^◌, min, ◌≤◌, ◌<◌, ◌≡◌, sym, ap, ap₂, ◌∙◌, ◌⊎◌, inl, inr,
  false, ◌&&◌, ◌||◌, arith, ltb, leb, if◌then◌else◌, Bool-cases, lt→ltb, ltb→lt, dec_lt, if-true,
  if-false,
}
use learn_mit_s.Kernel.Str.{Mem, memmove}
use learn_mit_s.Kernel.Str.Memmove.{memmove_lem}
use learn_mit_s.Kernel.Usercopy.{either_copyout}
use learn_mit_s.Kernel.Fs.{bsize, Fs, done, bind_result, ◌>>◌, pure, bread}
use learn_mit_s.Kernel.Fs.Bitmap.{brelse-bread}
use learn_mit_s.Kernel.Inode.Blocks.{block_of, IsHeld, bmap-IsHeld}
use learn_mit_s.Kernel.Content.{
  Space, area, beside, memory_of, part, read_copied, read_locked, readi_from, readi,
}

-- The byte `q` of a file.
abbrev pub byte_at : Fs → ℕ → ℕ → ℕ
byte_at s ip q = s.blocks (block_of s ip (q / bsize)) (q % bsize)

-- Memory after `r` bytes of the file `f` from `off` on have gone to `dst`.
abbrev pub filled : (ℕ → ℕ) → ℕ → ℕ → ℕ → Mem → Mem
filled f dst off r m a = if leb dst a && ltb a (dst + r) then f (off + (a - dst)) else m a

pub filled-in :
    (f : ℕ → ℕ) (dst off r : ℕ) (m : Mem) (a : ℕ)
    → dst ≤ a
    → a < dst + r
    → filled f dst off r m a ≡ f (off + (a - dst))
filled-in f dst off r m a lo hi = if-true (f (off + (a - dst))) (m a) (ground (arith, lo, hi))

filled-out :
    (f : ℕ → ℕ) (dst off r : ℕ) (m : Mem) (a : ℕ)
    → (a < dst) ⊎ (dst + r ≤ a)
    → filled f dst off r m a ≡ m a
filled-out f dst off r m a h = if-false (f (off + (a - dst))) (m a) (ground (arith, h))

-- `k` bytes and then `r` more.
filled-filled :
    (f : ℕ → ℕ) (dst off k r : ℕ) (m m1 : Mem) (a : ℕ)
    → ((x : ℕ) → m1 x ≡ filled f dst off k m x)
    → filled f (dst + k) (off + k) r m1 a ≡ filled f dst off (k + r) m a
filled-filled f dst off k r m m1 a first = elim (dec_lt a (dst + k)) [
  | yes early ↦
      filled-out f (dst + k) (off + k) r m1 a (inl early) ∙ first a ∙ elim (dec_lt a dst) [
        | yes below ↦
            filled-out f dst off k m a (inl below)
            ∙ sym (filled-out f dst off (k + r) m a (inl below))
        | no above ↦
            filled-in f dst off k m a (omega (arith, above)) early
            ∙ sym (filled-in f dst off (k + r) m a (omega (arith, above)) (omega (arith, early)))
      ]
  | no late ↦ elim (dec_lt a (dst + k + r)) [
    | yes inside ↦
        filled-in f (dst + k) (off + k) r m1 a (omega (arith, late)) inside
        ∙ ap f (omega (arith, late))
        ∙ sym (filled-in f dst off (k + r) m a (omega (arith, late)) (omega (arith, inside)))
    | no beyond ↦
        filled-out f (dst + k) (off + k) r m1 a (inr (omega (arith, beyond)))
        ∙ first a
        ∙ filled-out f dst off k m a (inr (omega (arith, late)))
        ∙ sym (filled-out f dst off (k + r) m a (inr (omega (arith, beyond))))
  ]
]

-- The memory after one round.
abbrev round_memory : Fs → ℕ → ℕ → ℕ → ℕ → Mem → Mem
round_memory s ip dst off k m =
    memory_of m
      (memmove dst (area + off % bsize) k (beside m (s.blocks (block_of s ip (off / bsize)))))

pub beside-buffer : (m d : Mem) (i : ℕ) → beside m d (area + i) ≡ d i
beside-buffer m d i =
    if-false (m (area + i)) (d (area + i - area)) (ground arith) ∙ ap d (omega arith)

round_memory-filled :
    (s : Fs) (ip dst off k : ℕ) (m : Mem)
    → off % bsize + k ≤ bsize
    → dst + k ≤ area
    → (a : ℕ) → round_memory s ip dst off k m a ≡ filled (byte_at s ip) dst off k m a
round_memory-filled s ip dst off k m fits low a =
    let d = s.blocks (block_of s ip (off / bsize)) in
    let all = beside m d in
    let src = area + off % bsize in
    elim (dec_lt a area) [
      | no over ↦
          if-false (memmove dst src k all a) (m a) (ground (arith, over))
          ∙ sym (filled-out (byte_at s ip) dst off k m a (inr (omega (arith, over, low))))
      | yes under ↦
          if-true (memmove dst src k all a) (m a) (lt→ltb a area under)
          ∙ memmove_lem dst src k all a
          ∙ elim (Bool-cases (leb dst a && ltb a (dst + k))) [
            | inr out ↦
                if-false (all (src + (a - dst))) (all a) out
                ∙ if-true (m a) (d (a - area)) (lt→ltb a area under)
                ∙ sym (if-false (byte_at s ip (off + (a - dst))) (m a) out)
            | inl inside ↦
                let i = a - dst in
                let short : i < k = ground (arith, inside) in
                let index : src + i ≡ area + (off % bsize + i) = omega arith in
                let block : off / bsize ≡ (off + i) / bsize = omega (arith, short, fits) in
                let byte : off % bsize + i ≡ (off + i) % bsize = omega (arith, short, fits) in
                if-true (all (src + i)) (all a) inside
                ∙ ap all index
                ∙ beside-buffer m d (off % bsize + i)
                ∙ ap₂ (λ b n. s.blocks (block_of s ip b) n) block byte
                ∙ sym (if-true (byte_at s ip (off + i)) (m a) inside)
          ]
    ]

readi_from-filled :
    (fuel : ℕ) (p : Space) (ip dst off n tot : ℕ) (m : Mem) (s : Fs)
    → tot ≤ n
    → n - tot < fuel
    → dst + (n - tot) ≤ area
    → ((q : ℕ) → off ≤ q → q < off + (n - tot) → IsHeld s ip (q / bsize))
    → (t : Mem) × (readi_from fuel p ip false dst off n tot m s ≡ done (n, t) s)
      × ((a : ℕ) → t a ≡ filled (byte_at s ip) dst off (n - tot) m a)
unfolding readi_from read_locked read_copied either_copyout
readi_from-filled zero p ip dst off n tot m s le lt low held = absurd (omega (arith, lt))
readi_from-filled (suc fuel) p ip dst off n tot m s le lt low held = elim (Bool-cases (ltb tot n)) [
  | inr end ↦ (
    m,
    ap (λ f. f s) (if-false _ (pure (tot, m)) end)
        ∙ ap (λ k. done (k, m) s) (ground (arith, end, le)),
    λ a. ground (arith, end),
  )
  | inl more ↦
      let k = part n tot off in
      let h = held off (omega arith) (ground (arith, more)) in
      let b = block_of s ip (off / bsize) in
      let m1 = round_memory s ip dst off k m in
      let rest = readi_from fuel p ip false (dst + k) (off + k) n (tot + k) in
      let (locked, back) = brelse-bread b s h.unheld in
      let pos : tot < n = ltb→lt tot n more in
      let (t, e, all) =
        readi_from-filled fuel p ip (dst + k) (off + k) n (tot + k) m1 s (omega (arith, pos))
          (omega (arith, pos, lt)) (omega (arith, pos, low))
          (λ q l r. held q (omega (arith, l)) (omega (arith, r, pos))) in
      (
        t,
        ap (λ f. f s) (if-true _ (pure (tot, m)) more)
            ∙ ap
                (λ r. bind_result r (λ b'. bread b' >> read_locked rest p false dst off k tot m b'))
                (bmap-IsHeld ip (off / bsize) s h)
            ∙ ap (λ r. bind_result r (λ _. read_locked rest p false dst off k tot m b)) locked
            ∙ ap (λ r. bind_result r (λ _. rest m1)) back
            ∙ e,
        λ a.
            all a
            ∙ filled-filled (byte_at s ip) dst off k (n - (tot + k)) m m1 a
                (round_memory-filled s ip dst off k m (omega arith) (omega (arith, low, pos)))
            ∙ ap (λ r. filled (byte_at s ip) dst off r m a) (omega (arith, pos)),
      )
]

read_guards :
    (off n size : ℕ)
    → off ≤ size
    → off + n < 2 ^ 32
    → ((ltb size off || ltb ((off + n) % 2 ^ 32) off) ≡ false)
      × ((if ltb size ((off + n) % 2 ^ 32) then size - off else n) ≡ min n (size - off))
read_guards off n size low small =
    let same : (off + n) % 2 ^ 32 ≡ off + n = omega (arith, small) in
    (ground (arith, low, same), ground (arith, low, same))

-- `readi` into kernel memory, from an offset inside the file or at its end, where `off + n` is below 2^32 and
-- `dst + n` at most 2^64, over blocks that the file holds and whose buffers are not locked: it answers how many
-- of the `n` bytes from `off` on the file has, those bytes are at `dst` then, and nothing else has changed,
-- neither in memory nor in the file system.
pub readi-filled :
    (p : Space) (ip dst off n : ℕ) (m : Mem) (s : Fs)
    → off ≤ (s.inodes ip).size
    → off + n < 2 ^ 32
    → dst + n ≤ area
    → ((q : ℕ) → off ≤ q → q < off + min n ((s.inodes ip).size - off) → IsHeld s ip (q / bsize))
    → (t : Mem) × (readi p ip false dst off n m s ≡ done (min n ((s.inodes ip).size - off), t) s)
      × ((a : ℕ) → t a ≡ filled (byte_at s ip) dst off (min n ((s.inodes ip).size - off)) m a)
unfolding readi
readi-filled p ip dst off n m s low small fits held =
    let size = (s.inodes ip).size in
    let r = min n (size - off) in
    let (checked, clipped) = read_guards off n size low small in
    let (t, e, all) =
      readi_from-filled (r + 1) p ip dst off r 0 m s (omega arith) (omega arith)
        (omega (arith, fits)) (λ q l h. held q l (omega (arith, h))) in
    (
      t,
      if-false (done (0, m) s) _ checked
          ∙ ap (λ k. readi_from (k + 1) p ip false dst off k 0 m s) clipped
          ∙ e,
      λ a. all a ∙ ap (λ k. filled (byte_at s ip) dst off k m a) (omega arith),
    )
