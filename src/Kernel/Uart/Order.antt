-- ===== src/Kernel/Uart/Order.antt =====
-- The bytes put into the transmit ring and those of `uartputc_sync` reach the UART, each once and in order.
use learn_mit_s.Common.{
  ℕ, zero, suc, ◌+◌, ◌-◌, ◌%◌, ◌<◌, ◌≡◌, refl, sym, ap, ap₂, ◌∙◌, ◌≢◌, inl, inr, none, some, List,
  [], ◌∷◌, ◌++◌, arith, ◌==◌, Bool-cases, update, update_ne, update_self, some_inj, length,
}
use mathlib.Core.Path.{subst}
use mathlib.Core.List.{append_assoc, append-nil}
use learn_mit_s.Kernel.Console.{Cons, consoleintr}
use learn_mit_s.Kernel.Uart.{
  tx_buf_size, Uart, send, uartstart, uartputc, uartputc_sync, echo, uartgetc, receive, uartintr,
}

-- `n` bytes of the ring from the index `s` on.
abbrev window : (ℕ → ℕ) → ℕ → ℕ → List ℕ
window bytes s zero = []
window bytes s (suc n) = bytes (s % tx_buf_size) ∷ window bytes (s + 1) n

abbrev waiting : Uart → ℕ
waiting s = (s.w + tx_buf_size - s.r) % tx_buf_size

-- The bytes that wait in the ring, in order.
abbrev pub queued : Uart → List ℕ
queued s = window s.bytes s.r (waiting s)

-- The third list is made of the other two, each in its order.
pub data Mix : List ℕ → List ℕ → List ℕ → Type 0 where
  empty : Mix [] [] []
  first : {xs ys zs : List ℕ} (c : ℕ) → Mix xs ys zs → Mix (xs ++ c ∷ []) ys (zs ++ c ∷ [])
  second : {xs ys zs : List ℕ} (c : ℕ) → Mix xs ys zs → Mix xs (ys ++ c ∷ []) (zs ++ c ∷ [])

pub record IsValid (s : Uart) : Type 0 where
  pub write_fits : s.w < tx_buf_size
  pub read_fits : s.r < tx_buf_size

-- What holds when `ps` has been put into the ring and `ds` went past it: the bytes sent are `ds` and a first part
-- of `ps`, which is followed by the bytes that wait.
pub record Holds (ps ds : List ℕ) (s : Uart) : Type 0 where
  pub valid : IsValid s
  pub passed : List ℕ
  pub mixed : Mix passed ds s.sent
  pub rest : passed ++ queued s ≡ ps

window-shift :
    (bytes : ℕ → ℕ) (s t n : ℕ)
    → s % tx_buf_size ≡ t % tx_buf_size
    → window bytes s n ≡ window bytes t n
window-shift bytes s t zero e = refl
window-shift bytes s t (suc n) e =
    ap₂ ◌∷◌ (ap bytes e) (window-shift bytes (s + 1) (t + 1) n (omega arith))

window-update :
    (bytes : ℕ → ℕ) (s n at c : ℕ)
    → n < tx_buf_size
    → at ≡ (s + n) % tx_buf_size
    → window (update bytes at c) s (suc n) ≡ window bytes s n ++ c ∷ []
window-update bytes s zero at c lt e =
    ap (λ x. x ∷ []) (ap (update bytes at c) (omega arith) ∙ update_self bytes at c)
window-update bytes s (suc n) at c lt e =
    ap₂ ◌∷◌ (update_ne bytes at c (s % tx_buf_size) (omega arith))
      (window-update bytes (s + 1) n at c (omega arith) (omega arith))

send-Holds : {ps ds : List ℕ} (s : Uart) → s.w ≢ s.r → Holds ps ds s → Holds ps ds (send s)
unfolding send
send-Holds s ne h = record {
  valid = record { write_fits = h.valid.write_fits; read_fits = omega arith };
  passed = h.passed ++ s.bytes s.r ∷ [];
  mixed = first (s.bytes s.r) h.mixed;
  rest =
      append_assoc h.passed (s.bytes s.r ∷ []) (
        window s.bytes ((s.r + 1) % tx_buf_size)
          ((s.w + tx_buf_size - (s.r + 1) % tx_buf_size) % tx_buf_size))
      ∙ ap (λ xs. h.passed ++ xs) (sym taken)
      ∙ h.rest;
}
  where
    count : waiting s ≡ suc ((s.w + tx_buf_size - (s.r + 1) % tx_buf_size) % tx_buf_size)
    count = omega (arith, h.valid.write_fits, h.valid.read_fits, ne)

    taken :
        window s.bytes s.r (waiting s)
        ≡ s.bytes s.r
          ∷ window s.bytes
              ((s.r + 1) % tx_buf_size)
              ((s.w + tx_buf_size - (s.r + 1) % tx_buf_size) % tx_buf_size)
    taken =
        ap (window s.bytes s.r) count
        ∙ ap₂ ◌∷◌ (ap s.bytes (omega (arith, h.valid.read_fits)))
            (window-shift s.bytes (s.r + 1) ((s.r + 1) % tx_buf_size) _ (omega arith))

uartstart-Holds :
    {ps ds : List ℕ} (idle : ℕ) (s : Uart) → Holds ps ds s → Holds ps ds (uartstart idle s)
unfolding uartstart
uartstart-Holds zero s h = h
uartstart-Holds (suc idle) s h = elim (Bool-cases (s.w == s.r)) [
  | inl y ↦ rw y h
  | inr n ↦ let h' = uartstart-Holds idle (send s) (send-Holds s (ground (arith, n)) h) in rw n h'
]

put-Holds :
    {ps ds : List ℕ} (c : ℕ) (s : Uart)
    → (s.w + 1) % tx_buf_size ≢ s.r
    → Holds ps ds s
    → Holds
        (ps ++ c ∷ [])
        ds
        (record s { bytes = update s.bytes s.w c; w = (s.w + 1) % tx_buf_size })
put-Holds c s ne h = record {
  valid = record { write_fits = omega arith; read_fits = h.valid.read_fits };
  passed = h.passed;
  mixed = h.mixed;
  rest =
      ap (λ xs. h.passed ++ xs)
        (ap (window (update s.bytes s.w c) s.r) count
          ∙ window-update s.bytes s.r (waiting s) s.w c (omega arith)
              (omega (arith, h.valid.write_fits, h.valid.read_fits)))
      ∙ sym (append_assoc h.passed (queued s) (c ∷ []))
      ∙ ap (λ xs. xs ++ c ∷ []) h.rest;
}
  where
    count : ((s.w + 1) % tx_buf_size + tx_buf_size - s.r) % tx_buf_size ≡ suc (waiting s)
    count = omega (arith, h.valid.write_fits, h.valid.read_fits, ne)

uartputc-Holds :
    {ps ds : List ℕ} (c idle : ℕ) (s s' : Uart)
    → uartputc c idle s ≡ some s'
    → Holds ps ds s
    → Holds (ps ++ c ∷ []) ds s'
unfolding uartputc
uartputc-Holds {ps} {ds} c idle s s' e h = elim (Bool-cases ((s.w + 1) % tx_buf_size == s.r)) [
  | inl y ↦ let full : uartputc c idle s ≡ none = rw y in ground (arith, full, e)
  | inr n ↦
      let t = record s { bytes = update s.bytes s.w c; w = (s.w + 1) % tx_buf_size } in
      let went : uartputc c idle s ≡ some (uartstart idle t) = rw n in
      subst (Holds (ps ++ c ∷ []) ds) (some_inj (sym went ∙ e))
        (uartstart-Holds idle t (put-Holds c s (ground (arith, n)) h))
]

uartputc_sync-Holds :
    {ps ds : List ℕ} (c : ℕ) (s : Uart)
    → Holds ps ds s
    → Holds ps (ds ++ c ∷ []) (uartputc_sync c s)
unfolding uartputc_sync
uartputc_sync-Holds c s h = record {
  valid = record { write_fits = h.valid.write_fits; read_fits = h.valid.read_fits };
  passed = h.passed;
  mixed = second c h.mixed;
  rest = h.rest;
}

echo-Holds :
    {ps ds : List ℕ} (cs : List ℕ) (s : Uart) → Holds ps ds s → Holds ps (ds ++ cs) (echo cs s)
unfolding echo
echo-Holds {ps} {ds} [] s h = subst (λ xs. Holds ps xs s) (sym (append-nil ds)) h
echo-Holds {ps} {ds} (c ∷ cs) s h =
    subst (λ xs. Holds ps xs (echo cs (uartputc_sync c s))) (append_assoc ds (c ∷ []) cs)
      (echo-Holds cs (uartputc_sync c s) (uartputc_sync-Holds c s h))

-- What the console echoes for the input.
abbrev pub echoes : List ℕ → Cons → List ℕ
echoes [] con = []
echoes (c ∷ input) con = let (con', bytes) = consoleintr c con in bytes ++ echoes input con'

receive-Holds :
    {ps ds : List ℕ} (fuel : ℕ) (input : List ℕ) (con : Cons) (s : Uart)
    → length input < fuel
    → Holds ps ds s
    → Holds ps (ds ++ echoes input con) (receive fuel input con s).1
unfolding receive uartgetc
receive-Holds zero input con s lt h = absurd (omega (arith, lt))
receive-Holds {ps} {ds} (suc fuel) [] con s lt h =
    subst (λ xs. Holds ps xs s) (sym (append-nil ds)) h
receive-Holds {ps} {ds} (suc fuel) (c ∷ input) con s lt h =
    let (con', bytes) = consoleintr c con in
    subst (λ xs. Holds ps xs (receive fuel input con' (echo bytes s)).1)
      (append_assoc ds bytes (echoes input con'))
      (receive-Holds {ds = ds ++ bytes} fuel input con' (echo bytes s) (omega (arith, lt))
        (echo-Holds bytes s h))

-- Runs from an empty ring: the bytes that calls of `uartputc` which went through have put, in order, and those
-- of `uartputc_sync`, in order. The latter are those of `printf` and of other callers, one at a time, and what the
-- console, in whatever state it is, echoes in an interrupt with some input.
pub data Reach (bytes : ℕ → ℕ) : List ℕ → List ℕ → Uart → Type 0 where
  boot : Reach bytes [] [] (record { bytes = bytes; w = 0; r = 0; sent = [] })
  putc :
      {ps ds : List ℕ} {s s' : Uart} (c idle : ℕ)
      → Reach bytes ps ds s
      → uartputc c idle s ≡ some s'
      → Reach bytes (ps ++ c ∷ []) ds s'
  sync :
      {ps ds : List ℕ} {s : Uart} (c : ℕ)
      → Reach bytes ps ds s
      → Reach bytes ps (ds ++ c ∷ []) (uartputc_sync c s)
  intr :
      {ps ds : List ℕ} {s : Uart} (idle : ℕ) (input : List ℕ) (con : Cons)
      → Reach bytes ps ds s
      → Reach bytes ps (ds ++ echoes input con) (uartintr idle input con s).1

-- In every run the bytes written to the UART's transmit register are made of two lists, each in its order and each
-- byte once: all the bytes of `uartputc_sync`, which `printf` and the echo of the console call, and a first part of
-- the bytes put by `uartputc`. The bytes that wait in the ring are the rest of the bytes put, in order; and the
-- indices stay inside the ring.
pub Reach-Holds : {bytes : ℕ → ℕ} {ps ds : List ℕ} {s : Uart} → Reach bytes ps ds s → Holds ps ds s
unfolding uartintr
Reach-Holds boot = record {
  valid = record { write_fits = omega arith; read_fits = omega arith };
  passed = [];
  mixed = empty;
  rest = refl;
}
Reach-Holds (putc {s = s} {s' = s'} c idle r e) = uartputc-Holds c idle s s' e (Reach-Holds r)
Reach-Holds (sync {s = s} c r) = uartputc_sync-Holds c s (Reach-Holds r)
Reach-Holds (intr {s = s} idle input con r) =
    uartstart-Holds idle (receive (length input + 1) input con s).1
      (receive-Holds (length input + 1) input con s (omega arith) (Reach-Holds r))
