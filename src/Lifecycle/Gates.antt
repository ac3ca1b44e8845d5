-- ===== src/Lifecycle/Gates.antt =====
-- src/lifecycle/gates.ts: the gates that a booking passes before a message is scheduled.
pub mod Contract
use nistula_assistance.Prelude.{
  ℕ, ◌+◌, ◌-◌, Option, some, none, List, [], ◌∷◌, Bool, true, false, not, ◌&&◌, ◌||◌, ◌==◌, leb,
  codes_eq, any, if◌then◌else◌, map,
}
use nistula_assistance.Clock.{Day}
use nistula_assistance.Clock.DayText.{day_leb}
use nistula_assistance.Lifecycle.{
  BookingMirror, BookingStatus, confirmed, modified, no_show, checked_in, checked_out, unknown,
  Reason, booking_is_cancelled, booking_is_no_show,
}

pub data SkipReason : Type 0 where
  before_epoch stay_in_past status_not_live source_not_allowed no_phone : SkipReason

pub record GateContext : Type 0 where
  pub epoch : Option ℕ
  pub today : Day
  pub sources : List (List ℕ)

pub data GateResult : Type 0 where
  ok : GateResult
  refused : SkipReason → GateResult

unfoldable pub passes_epoch : BookingMirror → Option ℕ → Bool
passes_epoch row none = false
passes_epoch row (some epoch) = leb epoch row.created_at

abbrev pub not_before : Option Day → Day → Bool
not_before none today = false
not_before (some day) today = day_leb today day

unfoldable pub passes_date : BookingMirror → Day → Bool
passes_date row today = not_before row.check_in today

-- LIFECYCLE_STATUSES
abbrev pub is_schedulable : BookingStatus → Bool
is_schedulable confirmed = true
is_schedulable modified = true
is_schedulable _ = false

unfoldable pub passes_status : BookingMirror → Bool
passes_status row = is_schedulable row.status

pub data BookingState : Type 0 where
  usable terminal transient : BookingState

abbrev pub state_of : BookingStatus → BookingState
state_of confirmed = usable
state_of modified = usable
state_of checked_in = usable
state_of checked_out = usable
state_of BookingStatus.cancelled = terminal
state_of no_show = terminal
state_of unknown = transient

unfoldable pub booking_state : BookingMirror → BookingState
booking_state row = state_of row.status

-- `booking_${status}`, of the statuses that are terminal
abbrev pub terminal_reason : BookingStatus → Option Reason
terminal_reason BookingStatus.cancelled = some booking_is_cancelled
terminal_reason no_show = some booking_is_no_show
terminal_reason _ = none

-- The reason where the state is terminal
abbrev pub reason_in : BookingState → BookingStatus → Option Reason
reason_in terminal status = terminal_reason status
reason_in _ status = none

unfoldable pub revocation_reason : BookingMirror → Option Reason
unfolding booking_state
revocation_reason row = reason_in (booking_state row) row.status

-- The white space and line ends that String.prototype.trim removes.
unfoldable pub is_space : ℕ → Bool
is_space c =
    (leb 9 c && leb c 13)
    || (c == 32
        || (c == 160
            || (c == 0x1680
                || ((leb 0x2000 c && leb c 0x200a)
                    || (c == 0x2028
                        || (c == 0x2029
                            || (c == 0x202f || (c == 0x205f || (c == 0x3000 || c == 0xfeff)))))))))

unfoldable pub trim_start : List ℕ → List ℕ
unfolding is_space
trim_start [] = []
trim_start (c ∷ s) = let rest = trim_start s in if is_space c then rest else c ∷ s

abbrev pub is_blank : List ℕ → Bool
is_blank [] = true
is_blank (_ ∷ _) = false

unfoldable pub trim_end : List ℕ → List ℕ
unfolding is_space
trim_end [] = []
trim_end (c ∷ s) = let rest = trim_end s in if is_space c && is_blank rest then [] else c ∷ rest

abbrev pub trim : List ℕ → List ℕ
trim s = trim_end (trim_start s)

-- toLowerCase, exact on ASCII texts such as eZee's sources
abbrev pub lower : ℕ → ℕ
lower c = if leb b'A' c && leb c b'Z' then c + b'a' - b'A' else c

abbrev pub source_in : Option (List ℕ) → List (List ℕ) → Bool
source_in none sources = false
source_in (some source) sources = any (λ s. codes_eq s (map lower (trim source))) sources

unfoldable pub passes_source : BookingMirror → List (List ℕ) → Bool
unfolding trim_start trim_end
passes_source row sources = source_in row.source sources

abbrev pub has_text : Option (List ℕ) → Bool
has_text none = false
has_text (some s) = not (is_blank (trim s))

unfoldable pub has_phone : BookingMirror → Bool
unfolding trim_start trim_end
has_phone row = has_text row.guest_phone

unfoldable pub check_gates : BookingMirror → GateContext → GateResult
unfolding passes_epoch passes_status passes_date passes_source has_phone
check_gates row ctx =
    if not (passes_epoch row ctx.epoch)
    then refused before_epoch
    else if not (passes_status row)
    then refused status_not_live
    else if not (passes_date row ctx.today)
    then refused stay_in_past
    else if not (passes_source row ctx.sources)
    then refused source_not_allowed
    else if not (has_phone row)
    then refused no_phone
    else ok

unfoldable pub passes_task_gate : BookingMirror → Option ℕ → Day → GateResult
unfolding passes_epoch passes_status passes_date
passes_task_gate row epoch today =
    if not (passes_epoch row epoch)
    then refused before_epoch
    else if not (passes_status row)
    then refused status_not_live
    else if not (passes_date row today)
    then refused stay_in_past
    else ok
