-- ===== src/Mirror/Normalise.antt =====
-- src/ezee/normalize.ts: the status that a payload's words stand for, and the number of its guest.
pub mod Trust
mod Tests
use nistula_assistance.Prelude.{
  ℕ, Option, some, none, List, [], ◌∷◌, Bool, true, false, ◌==◌, ◌||◌, codes, codes_eq, map,
  if◌then◌else◌,
}
use nistula_assistance.Lifecycle.{BookingStatus}
use nistula_assistance.Lifecycle.Gates.{lower, is_space, trim}
use nistula_assistance.Phone.{normalize_phone}

-- Trimmed, and nothing where that leaves no text.
abbrev pub filled : List ℕ → Option (List ℕ)
filled [] = none
filled (c ∷ s) = some (c ∷ s)

-- The value is none where the payload has no text there.
abbrev pub str : Option (List ℕ) → Option (List ℕ)
str none = none
str (some value) = filled (trim value)

abbrev pub is_gap : ℕ → Bool
is_gap c = is_space c || (c == b'_')

unfoldable pub drop_gaps : List ℕ → List ℕ
unfolding is_space
drop_gaps [] = []
drop_gaps (c ∷ s) = let rest = drop_gaps s in if is_gap c then rest else c ∷ rest

abbrev pub text_or_empty : Option (List ℕ) → List ℕ
text_or_empty none = []
text_or_empty (some s) = s

unfoldable pub normalise_current_status : Option (List ℕ) → List ℕ
unfolding drop_gaps
normalise_current_status current = drop_gaps (map lower (text_or_empty current))

abbrev pub is_dead_current_status : List ℕ → Bool
is_dead_current_status word =
    codes_eq word (codes "cancel")
    || (codes_eq word (codes "cancelled") || codes_eq word (codes "void"))

pub data StatusIssue : Type 0 where
  unconfirmed_hold : Option (List ℕ) → StatusIssue
  unknown_status : Option (List ℕ) → Option (List ℕ) → StatusIssue

pub record StatusMapping : Type 0 where
  pub status : BookingStatus
  pub issue : Option StatusIssue

abbrev pub plain : BookingStatus → StatusMapping
plain s = record { status = s; issue = none }

abbrev pub says_confirmed : Option (List ℕ) → Bool
says_confirmed none = false
says_confirmed (some s) = codes_eq s (codes "1")

-- the status of the change verbs `new` and `modify`
abbrev pub confirmed_as : BookingStatus → Option (List ℕ) → StatusMapping
confirmed_as s is_confirmed =
    if says_confirmed is_confirmed
    then plain s
    else record { status = BookingStatus.unknown; issue = some (unconfirmed_hold is_confirmed) }

abbrev pub of_verb : List ℕ → Option (List ℕ) → Option (List ℕ) → Option (List ℕ) → StatusMapping
of_verb verb tran_status is_confirmed current_status =
    if codes_eq verb (codes "new")
    then confirmed_as BookingStatus.confirmed is_confirmed
    else if codes_eq verb (codes "modify")
    then confirmed_as BookingStatus.modified is_confirmed
    else if codes_eq verb (codes "cancel")
    then plain BookingStatus.cancelled
    else record {
      status = BookingStatus.unknown;
      issue = some (unknown_status tran_status current_status);
    }

abbrev pub of_current : List ℕ → StatusMapping → StatusMapping
of_current current otherwise =
    if codes_eq current (codes "arrived") || codes_eq current (codes "checkedin")
    then plain BookingStatus.checked_in
    else if codes_eq current (codes "checkedout")
    then plain BookingStatus.checked_out
    else if codes_eq current (codes "noshow")
    then plain BookingStatus.no_show
    else if is_dead_current_status current
    then plain BookingStatus.cancelled
    else otherwise

unfoldable pub map_status : Option (List ℕ) → Option (List ℕ) → Option (List ℕ) → StatusMapping
unfolding normalise_current_status
map_status tran_status is_confirmed current_status =
    of_current (normalise_current_status current_status) (
      of_verb (trim (map lower (text_or_empty tran_status))) tran_status is_confirmed
        current_status)

abbrev pub number_or : Option (List ℕ) → Option (List ℕ) → Option (List ℕ)
number_or none other = other
number_or (some n) other = some n

abbrev pub candidate : Option (List ℕ) → Option (List ℕ)
candidate none = none
candidate (some raw) = normalize_phone raw

-- The first of the payload's numbers that normalizes.
unfoldable pub guest_phone_of : List (Option (List ℕ)) → Option (List ℕ)
unfolding normalize_phone
guest_phone_of [] = none
guest_phone_of (c ∷ candidates) = number_or (candidate (str c)) (guest_phone_of candidates)
