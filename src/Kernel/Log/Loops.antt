-- ===== src/Kernel/Log/Loops.antt =====
-- What the loops of log.c do to the disk: runs of block copies that stop reaching it when power fails.
use learn_mit_s.Common.{ℕ, zero, suc, ◌+◌, ◌-◌, ◌<◌, ◌≡◌, refl, ap, arith, update, update_self}
use learn_mit_s.Kernel.Blocks.{Block, Io, bread, brelse, bunpin, set_data, bwrite, written}
use learn_mit_s.Kernel.Log.{Log, install_from, write_log_from, write_head, header}

-- The content `v` has gone to block `to`, in the cache and, with power left, on disk.
pub record Copied (to : ℕ) (v : Block) (s t : Io) : Type 0 where
  pub view : (b : ℕ) → t.view b ≡ update s.view to v b
  pub power : t.power ≡ s.power - 1
  pub dark : s.power ≡ 0 → (b : ℕ) → t.disk b ≡ s.disk b
  pub lit : 0 < s.power → (b : ℕ) → t.disk b ≡ update s.disk to v b

-- Writing back a buffer that has just been given the content `v`, whatever the use counts.
written-Copied :
    (to k : ℕ) (v : Block) (disk view : ℕ → Block) (f g : ℕ → ℕ)
    → Copied to v
        (record { disk = disk; view = view; refcnt = f; power = k })
        (written to k (record { disk = disk; view = update view to v; refcnt = g; power = k }))
unfolding written
written-Copied to zero v disk view f g = record {
  view = λ b. refl;
  power = omega arith;
  dark = λ h b. refl;
  lit = λ h. absurd (omega arith);
}
written-Copied to (suc k) v disk view f g = record {
  view = λ b. refl;
  power = omega arith;
  dark = λ h. absurd (omega arith);
  lit = λ h b. ap (λ w. update disk to w b) (update_self view to v);
}

-- The use counts play no part in what is copied.
Copied-refcnt :
    (to : ℕ) (v : Block) (s t : Io) (g : ℕ → ℕ)
    → Copied to v s t
    → Copied to v s (record t { refcnt = g })
Copied-refcnt to v s t g c = record { view = c.view; power = c.power; dark = c.dark; lit = c.lit }

-- Rounds of a loop whose round `i` copies block `src i` to block `dst i`.
pub data Copies (src dst : ℕ → ℕ) : ℕ → ℕ → Io → Io → Type 0 where
  done : {tail : ℕ} {s : Io} → Copies src dst zero tail s s
  more :
      {r tail : ℕ} {s t u : Io}
      → Copied (dst tail) (s.view (src tail)) s t
      → Copies src dst r (tail + 1) t u
      → Copies src dst (suc r) tail s u

abbrev pub slot : Log → ℕ → ℕ
slot lg i = lg.start + i + 1

pub install_from-Copies :
    (r tail : ℕ) (lg : Log) (s : Io)
    → Copies (slot lg) lg.lh.block r tail s (install_from r tail lg s)
unfolding install_from bread brelse bunpin set_data bwrite
install_from-Copies zero tail lg s = done
install_from-Copies (suc r) tail lg s =
    more
      (Copied-refcnt (lg.lh.block tail) (s.view (slot lg tail)) s _ _ (
        written-Copied (lg.lh.block tail) s.power (s.view (slot lg tail)) s.disk s.view s.refcnt _))
      (install_from-Copies r (tail + 1) lg _)

pub write_log_from-Copies :
    (r tail : ℕ) (lg : Log) (s : Io)
    → Copies lg.lh.block (slot lg) r tail s (write_log_from r tail lg s)
unfolding write_log_from bread brelse set_data bwrite
write_log_from-Copies zero tail lg s = done
write_log_from-Copies (suc r) tail lg s =
    more
      (Copied-refcnt (slot lg tail) (s.view (lg.lh.block tail)) s _ _ (
        written-Copied (slot lg tail) s.power (s.view (lg.lh.block tail)) s.disk s.view s.refcnt _))
      (write_log_from-Copies r (tail + 1) lg _)

pub write_head-Copied :
    (lg : Log) (s : Io) → Copied lg.start (header lg.lh (s.view lg.start)) s (write_head lg s)
unfolding write_head bread brelse set_data bwrite
write_head-Copied lg s =
    Copied-refcnt lg.start (header lg.lh (s.view lg.start)) s _ _
      (written-Copied lg.start s.power (header lg.lh (s.view lg.start)) s.disk s.view s.refcnt _)
