-- ===== src/Scheduler/Deadline.antt =====
-- The next deadline of an item, `advanceDeadline`.
use opc_ua_modules.Base.{ℕ, ◌+◌, ◌*◌, ◌^◌, ◌≤◌, ◌<◌, ◌≡◌, ◌⊎◌, arith, ltb, if◌then◌else◌}
use opc_ua_modules.Scheduler.{advance_deadline, ns_per_ms}

-- The interval that is in effect: at least a millisecond.
abbrev pub interval_ns : ℕ → ℕ
interval_ns ms = (if ltb ms 1 then 1 else ms) * ns_per_ms

-- The new deadline lies after the clock and after the old deadline, so that the thread never
-- spins on one item, and at most one interval after the later of the two. An item that kept up stays
-- on its grid; one that fell behind by an interval or more skips what it missed and goes on from the
-- present.
pub advance_deadline_lem :
    (due now ms : ℕ)
    → let next = advance_deadline due now ms in
      (now < next)
      × (due < next)
      × ((next ≤ due + interval_ns ms) ⊎ (next ≤ now + interval_ns ms))
      × (now < due + interval_ns ms → next ≡ due + interval_ns ms)
      × (due + interval_ns ms ≤ now → next ≡ now + interval_ns ms)
unfolding advance_deadline
advance_deadline_lem due now ms =
    (ground arith, ground arith, ground arith, λ h. ground arith, λ h. ground arith)

-- With time points below 2 ^ 62 and a uint32_t interval the signed 64-bit sum does not overflow.
pub advance_deadline_fits :
    (due now ms : ℕ)
    → due < 2 ^ 62
    → now < 2 ^ 62
    → ms < 2 ^ 32
    → advance_deadline due now ms < 2 ^ 63
unfolding advance_deadline
advance_deadline_fits due now ms d n i = ground arith
