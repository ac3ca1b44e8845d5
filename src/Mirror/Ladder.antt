-- ===== src/Mirror/Ladder.antt =====
-- src/ezee/poller.ts: the ladder of failures that a poll climbs, and the alerts on it.
pub mod Streak
use nistula_assistance.Prelude.{
  ℕ, Option, some, none, List, [], ◌∷◌, ◌++◌, Bool, true, false, not, ◌&&◌, ◌||◌, leb, codes,
  codes_eq, any, suc, if◌then◌else◌,
}
use nistula_assistance.Mirror.Poller.{EzeeAlert, poll_failing, auth_failed}

-- The counters of createEzeePoller.
pub record Ladder : Type 0 where
  pub failures : ℕ
  pub transient_alerted : Bool
  pub auth_alerted : Bool

-- as the process starts
abbrev pub cleared : Ladder
cleared = record { failures = 0; transient_alerted = false; auth_alerted = false }

-- AUTH_ERROR_CODES
abbrev pub auth_error_codes : List (List ℕ)
auth_error_codes = codes "201" ∷ codes "202" ∷ codes "301" ∷ codes "302" ∷ codes "303" ∷ []

-- FAILURE_ALERT_THRESHOLD
abbrev pub failure_alert_threshold : ℕ
failure_alert_threshold = 5

abbrev pub is_auth_error : List ℕ → Bool
is_auth_error code = any (codes_eq code) auth_error_codes

-- The status of a call to eZee.
pub data EzeeAnswer : Type 0 where
  answered_ok unreachable : EzeeAnswer
  ezee_error : List ℕ → EzeeAnswer

-- A cycle as the ladder sees it: a fetch that fails, an empty poll, a poll with the number of its
-- failed items and, where there was something to acknowledge, the answer to that, or a throw.
pub data Cycle : Type 0 where
  fetch_unreachable thrown empty_poll : Cycle
  fetch_error : List ℕ → Cycle
  processed : ℕ → Option EzeeAnswer → Cycle

abbrev pub note_success : Ladder → Ladder
note_success l = cleared

abbrev pub note_transient_failure : Ladder → Ladder × List EzeeAlert
note_transient_failure l =
    if leb failure_alert_threshold (suc l.failures) && not l.transient_alerted
    then (record l { failures = suc l.failures; transient_alerted = true }, poll_failing ∷ [])
    else (record l { failures = suc l.failures }, [])

abbrev pub note_auth_failure : Ladder → Ladder × List EzeeAlert
note_auth_failure l =
    if l.auth_alerted then (l, []) else (record l { auth_alerted = true }, auth_failed ∷ [])

abbrev pub after : List EzeeAlert → Ladder × List EzeeAlert → Ladder × List EzeeAlert
after alerts (l, more) = (l, alerts ++ more)

-- the end of a cycle: its failure, else the flag of an authorisation that failed, else a success
abbrev pub settle : Bool → Bool → Ladder → Ladder × List EzeeAlert
settle true auth l = note_transient_failure l
settle false true l = (l, [])
settle false false l = (note_success l, [])

abbrev pub settle_after : Bool → Ladder × List EzeeAlert → Ladder × List EzeeAlert
settle_after failed (l, alerts) = after alerts (settle failed true l)

abbrev pub settle_ack : ℕ → Option EzeeAnswer → Ladder → Ladder × List EzeeAlert
settle_ack failed none l = settle (leb 1 failed) false l
settle_ack failed (some answered_ok) l = settle (leb 1 failed) false l
settle_ack failed (some unreachable) l = settle true false l
settle_ack failed (some (ezee_error code)) l =
    if is_auth_error code
    then settle_after (leb 1 failed) (note_auth_failure l)
    else settle true false l

-- The ladder's part of runPollCycle, and of runPoll around it.
unfoldable pub run_poll : Cycle → Ladder → Ladder × List EzeeAlert
run_poll fetch_unreachable l = note_transient_failure l
run_poll thrown l = note_transient_failure l
run_poll empty_poll l = (note_success l, [])
run_poll (fetch_error code) l =
    if is_auth_error code then note_auth_failure l else note_transient_failure l
run_poll (processed failed answer) l = settle_ack failed answer l

abbrev pub run_rest :
    (Ladder → Ladder × List EzeeAlert) → Ladder × List EzeeAlert → Ladder × List EzeeAlert
run_rest f (l, alerts) = after alerts (f l)

unfoldable pub run_polls : List Cycle → Ladder → Ladder × List EzeeAlert
unfolding run_poll
run_polls [] l = (l, [])
run_polls (c ∷ cs) l = run_rest (run_polls cs) (run_poll c l)
