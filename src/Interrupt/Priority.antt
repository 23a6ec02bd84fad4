-- ===== src/Interrupt/Priority.antt =====
-- `handle_interrupts` of src/cpu/interrupt.c: which interrupt is served, and what that does.
use emu_gb.Base.{ℕ, zero, suc, ◌+◌, ◌<◌, ◌≤◌, ◌≡◌, refl, ◌∙◌, arith, Bool, true, false, ◌&&◌, ok}
use emu_gb.Machine.{Machine, on_cpu}
use emu_gb.Interrupt.{interrupt_is_set, interrupt_is_enabled}
use emu_gb.Interrupt.Masks.{vector}
use emu_gb.Interrupt.Service.{accept, scan, handle_interrupts}

-- The interrupt number `k` is requested and enabled.
abbrev pub is_waiting : ℕ → Machine → Bool
is_waiting k m =
    interrupt_is_set (vector k) m.interrupts && interrupt_is_enabled (vector k) m.interrupts

-- `k` is the first of the waiting interrupts.
pub record IsFirst (k : ℕ) (m : Machine) : Type 0 where
  pub in_range : k < 5
  pub waits : is_waiting k m ≡ true
  pub none_before : (j : ℕ) → j < k → is_waiting j m ≡ false

scan_first :
    (d k t n : ℕ) (m : Machine)
    → d < n
    → t ≡ k + d
    → is_waiting t m ≡ true
    → ((j : ℕ) → k ≤ j → j < t → is_waiting j m ≡ false)
    → scan n (vector k) m ≡ accept (vector t) m
unfolding scan
scan_first d k t zero m h e waits before = absurd (omega arith)
scan_first zero k t (suc n) m h e waits before = let e' : k ≡ t = omega arith in rw (e', waits)
scan_first (suc d) k t (suc n) m h e waits before =
    let next : vector k + 8 ≡ vector (k + 1) = omega arith in
    rw (before k (omega arith) (omega arith)) (
      rw next (
        scan_first d (k + 1) t n m (omega arith) (omega arith) waits
          (λ j low high. before j (omega arith) high)))

-- The interrupt with the lowest number that is requested and enabled is taken.
pub handle_interrupts-first :
    (k : ℕ) (m : Machine) → IsFirst k m → handle_interrupts m ≡ accept (vector k) m
unfolding handle_interrupts
handle_interrupts-first k m first =
    scan_first k 0 k 5 m first.in_range (omega arith) first.waits
      (λ j low high. first.none_before j high)

scan_none :
    (n k : ℕ) (m : Machine)
    → ((j : ℕ) → k ≤ j → j < k + n → is_waiting j m ≡ false)
    → scan n (vector k) m ≡ ok (0, m)
unfolding scan
scan_none zero k m none = refl
scan_none (suc n) k m none =
    let next : vector k + 8 ≡ vector (k + 1) = omega arith in
    rw (none k (omega arith) (omega arith))
      (rw next (scan_none n (k + 1) m (λ j low high. none j (omega arith) (omega arith))))

-- With no interrupt both requested and enabled nothing changes, and no cycle is counted.
pub handle_interrupts-idle :
    (m : Machine) → ((j : ℕ) → j < 5 → is_waiting j m ≡ false) → handle_interrupts m ≡ ok (0, m)
unfolding handle_interrupts
handle_interrupts-idle m none = scan_none 5 0 m (λ j low high. none j (omega arith))

-- With IME off, where some interrupt is requested and enabled: HALT ends, nothing else changes, and no
-- cycle is counted.
pub handle_interrupts-masked :
    (k : ℕ) (m : Machine)
    → IsFirst k m
    → m.interrupts.ime ≡ false
    → handle_interrupts m ≡ ok (0, on_cpu (λ c. record c { halt = false }) m)
handle_interrupts-masked k m first off = handle_interrupts-first k m first ∙ unfold accept in rw off
