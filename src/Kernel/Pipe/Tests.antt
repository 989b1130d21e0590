-- ===== src/Kernel/Pipe/Tests.antt =====
-- The theorems on pipes at one whose counters are about to wrap.
use learn_mit_s.Common.{ℕ, ◌-◌, ◌^◌, ◌≡◌, refl, true, false, Option, some, arith}
use learn_mit_s.Kernel.Pipe.{Pipe, returns, sleeps, pipewrite, piperead}
use learn_mit_s.Kernel.Pipe.Contents.{IsValid}
use learn_mit_s.Kernel.Pipe.Transfer.{Wrote, pipewrite-Wrote, ReadDone, piperead-ReadDone}

-- 510 bytes in flight, so two more fit.
abbrev pipe : Pipe
pipe = record {
  bytes = λ i. i;
  nread = 2 ^ 32 - 511;
  nwrite = 2 ^ 32 - 1;
  readopen = true;
  writeopen = true;
}

pipe-IsValid : IsValid pipe
pipe-IsValid = omega arith

abbrev user : ℕ → Option ℕ
user a = some 7

write_sleeps :
    (elim (pipewrite user 0 false 3 pipe) as (λ x. ℕ) [ returns r p ↦ 9 | sleeps i p ↦ i ]) ≡ 2
unfolding pipewrite
write_sleeps = refl

pipewrite-Wrote_example : Wrote user 0 false 0 3 pipe (pipewrite user 0 false 3 pipe)
pipewrite-Wrote_example = pipewrite-Wrote user 0 false 3 pipe pipe-IsValid

piperead-ReadDone_example :
    ReadDone
      (λ _. true)
      0
      2
      false
      pipe
      (piperead (λ _. true) 0 false 2 pipe).0
      (piperead (λ _. true) 0 false 2 pipe).1
piperead-ReadDone_example = piperead-ReadDone (λ _. true) 0 2 false pipe pipe-IsValid
