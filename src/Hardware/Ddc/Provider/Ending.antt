-- ===== src/Hardware/Ddc/Provider/Ending.antt =====
-- The rounds that `verifySwitch` is given are enough.
use desk_control.Common.{
  ℕ, zero, suc, ◌+◌, ◌≤◌, ◌<◌, String, false, Option, some, ltb, ◌==◌, nat_eq, ◌≡◌, refl, inl, inr,
  arith, Bool-cases,
}
use desk_control.Hardware.{OperationResult}
use desk_control.Hardware.Ddc.Features.{vcp_input_source}
use desk_control.Hardware.Ddc.Provider.{
  DdcBridge, Reading, answered, unanswered, after_read, verify_rounds, stayed,
}

module _ {W : Type 0} (bridge : DdcBridge W) where
  -- A timer takes a millisecond at least, and the clock does not go back.
  pub record IsClock : Type 0 where
    slept : (ms : ℕ) (w : W) → bridge.now w < bridge.now (bridge.sleep ms w)
    read :
        (device : String) (code limit : ℕ) (w : W)
        → bridge.now w ≤ bridge.now (bridge.get_vcp device code limit w).1

  -- Two ways to go on that agree from some time on agree after a read that ends later.
  after_read_agrees :
      (target time : ℕ) (next other : ℕ → W → OperationResult × W)
      → ((value : ℕ) (w : W) → time ≤ bridge.now w → next value w ≡ other value w)
      → (read : Reading × W) → time ≤ bridge.now (read.1)
      → after_read target next read ≡ after_read target other read
  unfolding after_read
  after_read_agrees target time next other agree (unanswered e, w) late = refl
  after_read_agrees target time next other agree (answered r, w) late =
      elim (Bool-cases (r.value == target)) [
        | inl hit ↦ rw (hit, after_read) refl
        | inr missed ↦ rw (missed, after_read) (agree r.value w late)
      ]

  ends_over :
      (rounds : ℕ) (device : String) (target deadline interval : ℕ) (last : Option ℕ) (w : W)
      → ltb (bridge.now w) deadline ≡ false
      → verify_rounds bridge rounds device target deadline interval last w ≡ (stayed last, w)
  unfolding verify_rounds
  ends_over zero device target deadline interval last w over = refl
  ends_over (suc rounds) device target deadline interval last w over = rw (over, verify_rounds) refl

  -- With a round for every millisecond to the deadline, more rounds change nothing: the loop ends
  -- because the deadline has passed or a read has ended it.
  pub verify_rounds-enough :
      IsClock
      → (rounds more : ℕ) (device : String) (target deadline interval : ℕ) (last : Option ℕ) (w : W)
      → deadline ≤ bridge.now w + rounds
      → rounds ≤ more
      → verify_rounds bridge more device target deadline interval last w
        ≡ verify_rounds bridge rounds device target deadline interval last w
  unfolding verify_rounds
  verify_rounds-enough clock zero more device target deadline interval last w late le =
      ends_over more device target deadline interval last w (ground arith)
  verify_rounds-enough clock (suc rounds) zero device target deadline interval last w late le =
      absurd (omega arith)
  verify_rounds-enough clock (suc rounds) (suc more) device target deadline interval last w late
        le =
      elim (Bool-cases (ltb (bridge.now w) deadline)) [
        | inr over ↦ rw (over, verify_rounds) refl
        | inl early ↦
            rw (early, verify_rounds)
              (let later = bridge.sleep interval w in
                let slept = clock.slept interval w in
                after_read_agrees target (bridge.now later) _ _
                  (λ value v passed.
                    verify_rounds-enough clock rounds more device target deadline interval
                      (some value) v (omega arith) (omega arith))
                  _ (clock.read device vcp_input_source _ later))
      ]
