-- ===== src/Lifecycle/SendGuards/Claims.antt =====
-- When the claim of a message's body is no longer true (TRUTH).
use nistula_assistance.Prelude.{◌+◌, ◌≤◌, ◌<◌, ◌≡◌, ◌≢◌, ◌⊎◌, inl, inr, refl, none, arith}
use nistula_assistance.Lifecycle.{
  ScheduledKind, confirmation, prearrival, welcome, poststay, winback, lead_followup, Reason, stale,
}
use nistula_assistance.Lifecycle.SendGuards.{
  hours_ms, TruthContext, Truth, holds, skip, not_yet_true, truth, stale_after_hours,
  poststay_grace_hours,
}

-- What the body's claim says of its verdict: a skip is always the age of the plan, of a kind whose
-- planned moment is its event or of a row with no stay to ask about.
pub truth-skip :
    (kind : ScheduledKind) (c : TruthContext) (r : Reason)
    → truth kind c ≡ skip r
    → (r ≡ stale)
      × (c.row.send_at + hours_ms stale_after_hours < c.now)
      × (kind ≢ winback)
      × ((kind ≡ prearrival) ⊎ (kind ≡ welcome) → c.check_in ≡ none)
      × (kind ≡ poststay → c.row.send_at + hours_ms poststay_grace_hours < c.now)
unfolding truth
truth-skip confirmation c r h = ground arith
truth-skip prearrival c r h = ground arith
truth-skip welcome c r h = ground arith
truth-skip poststay c r h = ground arith
truth-skip winback c r h = ground arith
truth-skip lead_followup c r h = ground arith

-- A message that was skipped as untrue would be skipped at every later time: its row is the same,
-- the arrival is known or unknown as before, and the day may be any.
pub truth_skip_for_ever :
    (kind : ScheduledKind) (c c' : TruthContext) (r : Reason)
    → truth kind c ≡ skip r
    → c'.row.send_at ≡ c.row.send_at
    → c.now ≤ c'.now
    → c'.check_in ≡ c.check_in
    → truth kind c' ≡ skip r
unfolding truth
truth_skip_for_ever confirmation c c' r h e le s = ground arith
truth_skip_for_ever prearrival c c' r h e le s = ground arith
truth_skip_for_ever welcome c c' r h e le s = ground arith
truth_skip_for_ever poststay c c' r h e le s = ground arith
truth_skip_for_ever winback c c' r h e le s = ground arith
truth_skip_for_ever lead_followup c c' r h e le s = ground arith

pub Truth-cases :
    (t : Truth)
    → (t ≡ holds) ⊎ (((r : Reason) × (t ≡ skip r)) ⊎ ((r : Reason) × (t ≡ not_yet_true r)))
Truth-cases holds = inl refl
Truth-cases (skip r) = inr (inl (r, refl))
Truth-cases (not_yet_true r) = inr (inr (r, refl))
