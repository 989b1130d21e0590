-- ===== src/Kernel/Uart.antt =====
-- lab1/kernel/uart.c: the transmit ring and the interrupt. `idle` is how often in a row the line status register
-- answers that the UART takes another byte; `sent` holds the bytes written to its transmit register by either
-- way, oldest first. Each body under `uart_tx_lock` is one step. The kernel has not panicked.
pub mod Order
mod Tests
use learn_mit_s.Common.{
  ℕ, zero, suc, ◌+◌, ◌%◌, Option, none, some, List, [], ◌∷◌, ◌++◌, ◌==◌, if◌then◌else◌, update,
  length,
}
use learn_mit_s.Kernel.Console.{Cons, consoleintr}

abbrev pub tx_buf_size : ℕ
tx_buf_size = 32

pub record Uart : Type 0 where
  pub bytes : ℕ → ℕ
  pub w : ℕ
  pub r : ℕ
  pub sent : List ℕ

-- One round of the loop of `uartstart` with a byte to send and the UART idle.
unfoldable pub send : Uart → Uart
send s = record s { r = (s.r + 1) % tx_buf_size; sent = s.sent ++ s.bytes s.r ∷ [] }

unfoldable pub uartstart : ℕ → Uart → Uart
unfolding send
uartstart zero s = s
uartstart (suc idle) s = let rest = uartstart idle (send s) in if s.w == s.r then s else rest

-- `none`: the caller sleeps until there is space. The callers pass a `char`.
unfoldable pub uartputc : ℕ → ℕ → Uart → Option Uart
unfolding uartstart
uartputc c idle s =
    if (s.w + 1) % tx_buf_size == s.r
    then none
    else some
        (uartstart idle (record s { bytes = update s.bytes s.w c; w = (s.w + 1) % tx_buf_size }))

-- After the spin until the UART is idle.
unfoldable pub uartputc_sync : ℕ → Uart → Uart
uartputc_sync c s = record s { sent = s.sent ++ c ∷ [] }

-- The bytes of `consputc`, one after the other.
unfoldable pub echo : List ℕ → Uart → Uart
unfolding uartputc_sync
echo [] s = s
echo (c ∷ cs) s = echo cs (uartputc_sync c s)

-- `none` is -1; the list holds the bytes that have arrived.
unfoldable pub uartgetc : List ℕ → Option (ℕ × List ℕ)
uartgetc [] = none
uartgetc (c ∷ input) = some (c, input)

-- The loop of `uartintr` that receives, of at most `fuel` rounds.
unfoldable pub receive : ℕ → List ℕ → Cons → Uart → Cons × Uart
unfolding uartgetc echo
receive zero input con s = (con, s)
receive (suc fuel) input con s = elim (uartgetc input) [
  | none ↦ (con, s)
  | some (c, input') ↦
      let (con', bytes) = consoleintr c con in receive fuel input' con' (echo bytes s)
]

-- A round for each byte of the input, and the one that finds none.
unfoldable pub uartintr : ℕ → List ℕ → Cons → Uart → Cons × Uart
unfolding uartstart receive
uartintr idle input con s =
    let (con', s') = receive (length input + 1) input con s in (con', uartstart idle s')
