-- ===== src/Mirror/Ladder/Streak.antt =====
-- What a streak of cycles without a success alerts of, however its failures mix.
use nistula_assistance.Prelude.{
  ℕ, ◌≡◌, inl, inr, refl, ◌∙◌, ap, some, none, List, [], ◌∷◌, ◌++◌, Bool, true, false, not, ◌||◌,
  ◌+◌, arith, leb, any, suc, All, Bool-cases, if◌then◌else◌,
}
use nistula_assistance.Mirror.Poller.{EzeeAlert, poll_failing, auth_failed}
use nistula_assistance.Mirror.Ladder.{
  Ladder, cleared, is_auth_error, answered_ok, unreachable, ezee_error, Cycle, fetch_unreachable,
  thrown, empty_poll, fetch_error, processed, note_transient_failure, note_auth_failure, settle,
  settle_after, run_poll, run_polls,
}

-- The cycle met an error of our credentials.
abbrev pub meets_auth : Cycle → Bool
meets_auth (fetch_error code) = is_auth_error code
meets_auth (processed failed (some (ezee_error code))) = is_auth_error code
meets_auth _ = false

-- The cycle met another failure.
abbrev pub meets_failure : Cycle → Bool
meets_failure fetch_unreachable = true
meets_failure thrown = true
meets_failure empty_poll = false
meets_failure (fetch_error code) = not (is_auth_error code)
meets_failure (processed failed none) = leb 1 failed
meets_failure (processed failed (some answered_ok)) = leb 1 failed
meets_failure (processed failed (some unreachable)) = true
meets_failure (processed failed (some (ezee_error code))) = leb 1 failed || not (is_auth_error code)

abbrev pub IsDirty : Cycle → Type 0
IsDirty c = (meets_auth c || meets_failure c) ≡ true

abbrev pub to_nat : Bool → ℕ
to_nat true = 1
to_nat false = 0

abbrev pub count_failing : List Cycle → ℕ
count_failing [] = 0
count_failing (c ∷ cs) = to_nat (meets_failure c) + count_failing cs

abbrev pub poll_alerts : List EzeeAlert → ℕ
poll_alerts [] = 0
poll_alerts (poll_failing ∷ alerts) = suc (poll_alerts alerts)
poll_alerts (_ ∷ alerts) = poll_alerts alerts

abbrev pub auth_alerts : List EzeeAlert → ℕ
auth_alerts [] = 0
auth_alerts (auth_failed ∷ alerts) = suc (auth_alerts alerts)
auth_alerts (_ ∷ alerts) = auth_alerts alerts

-- The flag of the failures stands exactly from the fifth on.
abbrev pub IsHonest : Ladder → Type 0
IsHonest l = l.transient_alerted ≡ leb 5 l.failures

-- What the ladder becomes by a failure that counts or not, with an error of our credentials or not.
pub record Rises (counted auth : Bool) (l : Ladder) (result : Ladder × List EzeeAlert)
    : Type 0 where
  pub failures : result.0.failures ≡ to_nat counted + l.failures
  pub honest : IsHonest (result.0)
  pub flag : result.0.auth_alerted ≡ (l.auth_alerted || auth)
  pub poll_count :
      to_nat l.transient_alerted + poll_alerts (result.1) ≡ to_nat result.0.transient_alerted
  pub auth_count : to_nat l.auth_alerted + auth_alerts (result.1) ≡ to_nat result.0.auth_alerted

note_transient_failure-Rises :
    (l : Ladder) → IsHonest l → Rises true false l (note_transient_failure l)
note_transient_failure-Rises l h = record {
  failures = ground arith;
  honest = ground arith;
  flag = ground arith;
  poll_count = ground arith;
  auth_count = ground arith;
}

note_auth_failure-Rises : (l : Ladder) → IsHonest l → Rises false true l (note_auth_failure l)
note_auth_failure-Rises l h = record {
  failures = ground arith;
  honest = ground arith;
  flag = ground arith;
  poll_count = ground arith;
  auth_count = ground arith;
}

still-Rises : (l : Ladder) → IsHonest l → Rises false false l (l, [])
still-Rises l h = record {
  failures = ground arith;
  honest = h;
  flag = ground arith;
  poll_count = ground arith;
  auth_count = ground arith;
}

settle_after-Rises :
    (failed : Bool) (l : Ladder)
    → IsHonest l
    → Rises failed true l (settle_after failed (note_auth_failure l))
settle_after-Rises true l h = record {
  failures = ground arith;
  honest = ground arith;
  flag = ground arith;
  poll_count = ground arith;
  auth_count = ground arith;
}
settle_after-Rises false l h = record {
  failures = ground arith;
  honest = ground arith;
  flag = ground arith;
  poll_count = ground arith;
  auth_count = ground arith;
}

settle-Rises :
    (failed : Bool) (l : Ladder)
    → (failed ≡ true)
    → IsHonest l
    → Rises failed false l (settle failed false l)
settle-Rises true l e h = note_transient_failure-Rises l h
settle-Rises false l e h = absurd (ground arith)

acked-Rises :
    (failed auth : Bool) (l : Ladder)
    → IsHonest l
    → Rises
        (failed || not auth)
        auth
        l
        (if auth then settle_after failed (note_auth_failure l) else settle true false l)
acked-Rises true true l h = settle_after-Rises true l h
acked-Rises false true l h = settle_after-Rises false l h
acked-Rises true false l h = note_transient_failure-Rises l h
acked-Rises false false l h = note_transient_failure-Rises l h

-- A cycle without a success counts its failure, and each alert goes out when its flag rises.
run_poll-Rises :
    (c : Cycle) (l : Ladder)
    → IsDirty c
    → IsHonest l
    → Rises (meets_failure c) (meets_auth c) l (run_poll c l)
unfolding run_poll
run_poll-Rises fetch_unreachable l d h = note_transient_failure-Rises l h
run_poll-Rises thrown l d h = note_transient_failure-Rises l h
run_poll-Rises empty_poll l d h = absurd (ground arith)
run_poll-Rises (fetch_error code) l d h = elim (Bool-cases (is_auth_error code)) [
  | inl t ↦ rw t (note_auth_failure-Rises l h)
  | inr f ↦ rw f (note_transient_failure-Rises l h)
]
run_poll-Rises (processed failed none) l d h = settle-Rises (leb 1 failed) l d h
run_poll-Rises (processed failed (some answered_ok)) l d h = settle-Rises (leb 1 failed) l d h
run_poll-Rises (processed failed (some unreachable)) l d h = note_transient_failure-Rises l h
run_poll-Rises (processed failed (some (ezee_error code))) l d h =
    acked-Rises (leb 1 failed) (is_auth_error code) l h

poll_alerts-append :
    (xs ys : List EzeeAlert) → poll_alerts (xs ++ ys) ≡ poll_alerts xs + poll_alerts ys
poll_alerts-append [] ys = ground arith
poll_alerts-append (poll_failing ∷ xs) ys = ground (arith, poll_alerts-append xs ys)
poll_alerts-append (_ ∷ xs) ys = ground (arith, poll_alerts-append xs ys)

auth_alerts-append :
    (xs ys : List EzeeAlert) → auth_alerts (xs ++ ys) ≡ auth_alerts xs + auth_alerts ys
auth_alerts-append [] ys = ground arith
auth_alerts-append (auth_failed ∷ xs) ys = ground (arith, auth_alerts-append xs ys)
auth_alerts-append (_ ∷ xs) ys = ground (arith, auth_alerts-append xs ys)

run_polls-from :
    (cs : List Cycle) (l : Ladder)
    → All IsDirty cs
    → IsHonest l
    → let alerts = (run_polls cs l).1 in
      (to_nat l.transient_alerted + poll_alerts alerts
        ≡ to_nat (leb 5 (count_failing cs + l.failures)))
      × (to_nat l.auth_alerted + auth_alerts alerts ≡ to_nat (l.auth_alerted || any meets_auth cs))
unfolding run_polls
run_polls-from [] l hs h = (ground arith, ground arith)
run_polls-from (c ∷ cs) l (d, hs) h =
    let step = run_poll-Rises c l d h in
    let v = (run_poll c l).0 in
    let own = (run_poll c l).1 in
    let later = (run_polls cs v).1 in
    let (polls, auths) = run_polls-from cs v hs step.honest in
    let counted : count_failing cs + v.failures ≡ count_failing (c ∷ cs) + l.failures =
      omega (arith, step.failures) in
    let flagged : (v.auth_alerted || any meets_auth cs)
        ≡ (l.auth_alerted || any meets_auth (c ∷ cs)) =
      ground (arith, step.flag) in
    let polls_due = polls ∙ ap (λ n. to_nat (leb 5 n)) counted in
    let auths_due = auths ∙ ap to_nat flagged in
    (
      omega (arith, polls_due, step.poll_count, poll_alerts-append own later),
      omega (arith, auths_due, step.auth_count, auth_alerts-append own later),
    )

-- From a cleared ladder, over any cycles none of which ends clean: exactly one alert of a failing
-- poll goes out where at least five of them met a failure other than of our credentials, and none
-- where fewer did; exactly one alert of rejected credentials goes out where one of them met
-- that, and none otherwise.
pub run_polls-alerts :
    (cs : List Cycle)
    → All IsDirty cs
    → let alerts = (run_polls cs cleared).1 in
      (poll_alerts alerts ≡ to_nat (leb 5 (count_failing cs)))
      × (auth_alerts alerts ≡ to_nat (any meets_auth cs))
run_polls-alerts cs hs =
    let (polls, auths) = run_polls-from cs cleared hs refl in
    let counted : count_failing cs + 0 ≡ count_failing cs = omega arith in
    let due = polls ∙ ap (λ n. to_nat (leb 5 n)) counted in
    (omega (arith, due), omega (arith, auths))

-- Every other cycle clears the ladder.
run_poll-cleared :
    (c : Cycle) (l : Ladder)
    → (meets_auth c || meets_failure c) ≡ false
    → run_poll c l ≡ (cleared, [])
unfolding run_poll
run_poll-cleared fetch_unreachable l h = absurd (ground arith)
run_poll-cleared thrown l h = absurd (ground arith)
run_poll-cleared empty_poll l h = refl
run_poll-cleared (fetch_error code) l h = absurd (ground arith)
run_poll-cleared (processed failed none) l h = rw h refl
run_poll-cleared (processed failed (some answered_ok)) l h = rw h refl
run_poll-cleared (processed failed (some unreachable)) l h = absurd (ground arith)
run_poll-cleared (processed failed (some (ezee_error code))) l h = absurd (ground arith)
