-- ===== src/Kernel/Pipe/Contents.antt =====
-- The bytes in flight in a pipe, oldest first, and what moving one byte does to them.
use learn_mit_s.Common.{
  ℕ, zero, suc, ◌+◌, ◌-◌, ◌%◌, ◌^◌, ◌≤◌, ◌<◌, ◌≡◌, refl, ap, ap₂, ◌∙◌, ◌≢◌, List, [], ◌∷◌, ◌++◌,
  arith, length, update, update_ne,
}
use learn_mit_s.Kernel.Pipe.{pipesize, add32, Pipe, put, get}

-- `n` bytes from the counter `s` on.
abbrev pub window : (ℕ → ℕ) → ℕ → ℕ → List ℕ
window bytes s zero = []
window bytes s (suc n) = bytes (s % pipesize) ∷ window bytes (add32 s 1) n

-- How many bytes are in flight, by the wrapping counters.
abbrev pub count : Pipe → ℕ
count pi = (pi.nwrite + 2 ^ 32 - pi.nread) % 2 ^ 32

abbrev pub contents : Pipe → List ℕ
contents pi = window pi.bytes pi.nread (count pi)

pub record IsValid (pi : Pipe) : Type 0 where
  pub read_fits : pi.nread < 2 ^ 32
  pub write_fits : pi.nwrite < 2 ^ 32
  pub within : count pi ≤ pipesize

pub length-window : (bytes : ℕ → ℕ) (s n : ℕ) → length (window bytes s n) ≡ n
length-window bytes s zero = refl
length-window bytes s (suc n) = ap suc (length-window bytes (add32 s 1) n)

-- A byte stored just behind a window that is not full extends it.
window-update :
    (n s w ch : ℕ) (bytes : ℕ → ℕ)
    → n < pipesize
    → s < 2 ^ 32
    → w ≡ add32 s n
    → window (update bytes (w % pipesize) ch) s (suc n) ≡ window bytes s n ++ ch ∷ []
window-update zero s w ch bytes lt f e = ap (λ x. x ∷ []) (ground arith)
window-update (suc n) s w ch bytes lt f e =
    ap₂ ◌∷◌ (update_ne bytes (w % pipesize) ch (s % pipesize) (omega arith))
      (window-update n (add32 s 1) w ch bytes (omega arith) (omega arith) (omega arith))

pub put-contents :
    (ch : ℕ) (pi : Pipe)
    → IsValid pi
    → count pi < pipesize
    → IsValid (put ch pi) × (contents (put ch pi) ≡ contents pi ++ ch ∷ [])
unfolding put
put-contents ch pi v lt = (
  omega arith,
  ap (window (update pi.bytes (pi.nwrite % pipesize) ch) pi.nread) grown
      ∙ window-update (count pi) pi.nread pi.nwrite ch pi.bytes lt v.read_fits (omega arith),
)
  where
    grown : (add32 pi.nwrite 1 + 2 ^ 32 - pi.nread) % 2 ^ 32 ≡ suc (count pi)
    grown = omega arith

pub get-contents :
    (pi : Pipe)
    → IsValid pi
    → pi.nread ≢ pi.nwrite
    → IsValid (get pi).1 × (contents pi ≡ (get pi).0 ∷ contents (get pi).1)
unfolding get
get-contents pi v ne = (omega arith, ap (window pi.bytes pi.nread) shrunk)
  where
    shrunk : count pi ≡ suc ((pi.nwrite + 2 ^ 32 - add32 pi.nread 1) % 2 ^ 32)
    shrunk = omega arith
