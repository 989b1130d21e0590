-- ===== src/Kernel/Uart/Tests.antt =====
-- A run of the transmit ring with an echo, and the theorem on it.
use learn_mit_s.Common.{ℕ, refl, [], ◌∷◌, update}
use learn_mit_s.Kernel.Console.{Cons, consoleintr, consputc, store}
use learn_mit_s.Kernel.Uart.{
  Uart, send, uartstart, uartputc, uartputc_sync, uartgetc, echo, receive, uartintr,
}
use learn_mit_s.Kernel.Uart.Order.{Holds, Reach, boot, putc, sync, intr, Reach-Holds}

abbrev zeroes : ℕ → ℕ
zeroes _ = 0

abbrev console : Cons
console = record { bytes = zeroes; r = 0; w = 0; e = 0 }

-- `a` is put while the UART is busy, then `b` while it takes one byte; then `x` is printed by the kernel, and `y` is
-- typed, while the UART stays busy.
abbrev one_sent : Uart
one_sent = record {
  bytes = update (update zeroes 0 97) 1 98;
  w = 2;
  r = 1;
  sent = 97 ∷ 120 ∷ 121 ∷ [];
}

run : Reach zeroes (97 ∷ 98 ∷ []) (120 ∷ 121 ∷ []) one_sent
unfolding uartputc uartstart send uartputc_sync uartgetc echo receive uartintr consoleintr consputc
    store
run = intr 0 (121 ∷ []) console (sync 120 (putc 98 1 (putc 97 0 boot refl) refl))

Reach-Holds_example : Holds (97 ∷ 98 ∷ []) (120 ∷ 121 ∷ []) one_sent
Reach-Holds_example = Reach-Holds run
