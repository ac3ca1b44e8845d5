-- ===== src/Lifecycle/Gates/Contract.antt =====
-- What the gates promise, and that what starts a lifecycle is not what ends one.
use mathlib.Core.Bool.{false≢true}
use nistula_assistance.Prelude.{
  ℕ, ◌≤◌, ◌≡◌, ◌≢◌, ◌⊎◌, refl, Option, some, none, List, [], true, arith, any, codes_eq, map,
}
use nistula_assistance.Clock.{Day, day_number}
use nistula_assistance.Clock.DayText.{IsShort, day_leb_iff}
use nistula_assistance.Lifecycle.{BookingMirror, confirmed, modified}
use nistula_assistance.Lifecycle.Gates.{
  GateContext, ok, refused, passes_epoch, passes_date, passes_status, passes_source, has_phone,
  check_gates, passes_task_gate, trim, lower, is_blank, not_before, source_in, has_text,
  source_not_allowed, no_phone,
}

-- A booking that may be messaged.
pub record MayMessage (row : BookingMirror) (ctx : GateContext) : Type 0 where
  pub epoch : ℕ
  pub cutover : ctx.epoch ≡ some epoch
  pub mirrored_since : epoch ≤ row.created_at
  pub live : (row.status ≡ confirmed) ⊎ (row.status ≡ modified)
  pub check_in : Day
  pub arrives : row.check_in ≡ some check_in
  pub ahead : IsShort check_in → IsShort ctx.today → day_number ctx.today ≤ day_number check_in
  pub source : List ℕ
  pub booked_through : row.source ≡ some source
  pub sanctioned : any (λ s. codes_eq s (map lower (trim source))) ctx.sources ≡ true
  pub phone : List ℕ
  pub reachable : row.guest_phone ≡ some phone
  pub not_blank : trim phone ≢ []

check_gates_ok :
    (row : BookingMirror) (ctx : GateContext)
    → check_gates row ctx ≡ ok
    → (passes_epoch row ctx.epoch ≡ true)
      × (passes_status row ≡ true)
      × (passes_date row ctx.today ≡ true)
      × (passes_source row ctx.sources ≡ true)
      × (has_phone row ≡ true)
unfolding check_gates
check_gates_ok row ctx h = ground arith

passes_epoch-inv :
    (row : BookingMirror) (epoch : Option ℕ)
    → passes_epoch row epoch ≡ true
    → (e : ℕ) × (epoch ≡ some e) × (e ≤ row.created_at)
unfolding passes_epoch
passes_epoch-inv row none h = absurd (ground arith)
passes_epoch-inv row (some e) h = (e, refl, ground arith)

not_before-inv :
    (check_in : Option Day) (today : Day)
    → not_before check_in today ≡ true
    → (d : Day) × (check_in ≡ some d)
      × (IsShort d → IsShort today → day_number today ≤ day_number d)
not_before-inv none today h = absurd (ground arith)
not_before-inv (some d) today h = (d, refl, λ short short'. (day_leb_iff today d short' short).0 h)

source_in-inv :
    (source : Option (List ℕ)) (sources : List (List ℕ))
    → source_in source sources ≡ true
    → (s : List ℕ) × (source ≡ some s) × (any (λ t. codes_eq t (map lower (trim s))) sources ≡ true)
source_in-inv none sources h = absurd (ground arith)
source_in-inv (some s) sources h = (s, refl, h)

has_text-inv :
    (phone : Option (List ℕ))
    → has_text phone ≡ true
    → (p : List ℕ) × (phone ≡ some p) × (trim p ≢ [])
has_text-inv none h = absurd (ground arith)
has_text-inv (some p) h = (p, refl, λ e. false≢true (rw (e, is_blank) at h))

-- A booking that the gates let through was mirrored at or after a configured cutover, is confirmed
-- or modified, arrives today or later (as calendar days, where both texts are calendar days), was
-- booked through a listed source after trimming and lower-casing, and has a phone number that is
-- not blank. An unset cutover, a missing arrival, source or phone lets nothing through.
pub check_gates-MayMessage :
    (row : BookingMirror) (ctx : GateContext) → check_gates row ctx ≡ ok → MayMessage row ctx
unfolding passes_status passes_date passes_source has_phone
check_gates-MayMessage row ctx h =
    let (a, b, c, d, f) = check_gates_ok row ctx h in
    let (epoch, cutover, since) = passes_epoch-inv row ctx.epoch a in
    let (day, arrives, ahead) = not_before-inv row.check_in ctx.today c in
    let (source, booked, sanctioned) = source_in-inv row.source ctx.sources d in
    let (phone, reachable, not_blank) = has_text-inv row.guest_phone f in
    record {
      epoch = epoch;
      cutover = cutover;
      mirrored_since = since;
      live = ground arith;
      check_in = day;
      arrives = arrives;
      ahead = ahead;
      source = source;
      booked_through = booked;
      sanctioned = sanctioned;
      phone = phone;
      reachable = reachable;
      not_blank = not_blank;
    }

-- The staff task's gate is the message gate without the source and the phone: it refuses for the
-- same first reason where one of the three shared gates fails, and passes whatever the message gate
-- refuses only for its source or its phone.
pub passes_task_gate-check_gates :
    (row : BookingMirror) (ctx : GateContext)
    → passes_task_gate row ctx.epoch ctx.today ≡ (elim (check_gates row ctx) [
      | ok ↦ ok
      | refused source_not_allowed ↦ ok
      | refused no_phone ↦ ok
      | refused r ↦ refused r
    ])
unfolding check_gates passes_task_gate
passes_task_gate-check_gates row ctx = ground arith
