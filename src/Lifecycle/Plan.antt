-- ===== src/Lifecycle/Plan.antt =====
-- src/lifecycle/plan.ts: what a booking's messages say and when they go out. Of the parameters of a
-- message the type of the villa is kept, which the sender reads; texts are read as ASCII.
pub mod Timing
use nistula_assistance.Lifecycle.Retired.{after_word}
use nistula_assistance.Prelude.{
  ℕ, zero, suc, ◌+◌, ◌-◌, Option, some, none, List, [], ◌∷◌, ◌++◌, Bool, true, false, not, ◌&&◌,
  ◌||◌, ◌==◌, leb, codes, codes_eq, any, take, map, if◌then◌else◌,
}
use nistula_assistance.Clock.{Day, days_after, days_before, ist_wall_clock_to_instant}
use nistula_assistance.Lifecycle.{
  BookingMirror, ScheduledKind, confirmation, prearrival, welcome, poststay, winback,
}
use nistula_assistance.Lifecycle.Gates.{lower, is_space, is_blank, trim, trim_start, trim_end}
use nistula_assistance.Lifecycle.Writes.{DedupeKey}
use nistula_assistance.Stays.{DescribedStay, reference_base}

pub record PlannedSend : Type 0 where
  pub kind : ScheduledKind
  pub send_at : ℕ
  pub dedupe_key : DedupeKey
  pub villa_type : Option (List ℕ)

pub data Issue : Type 0 where
  unit_label_refused unknown_villa_type no_guest_name : Issue

pub data Plan : Type 0 where
  sends : List PlannedSend → Plan
  issue : Issue → Plan

abbrev pub found : Option (List ℕ) → Bool
found none = false
found (some _) = true

-- `/siolim/i`
unfoldable pub mentions : List ℕ → List ℕ → Bool
unfolding after_word
mentions word [] = found (after_word word [])
mentions word (c ∷ s) = found (after_word word (c ∷ s)) || mentions word s

-- `\s*(apartment|villa)`
unfoldable pub spaces_home : List ℕ → Bool
unfolding is_space after_word
spaces_home [] = false
spaces_home (c ∷ s) =
    let rest = spaces_home s in
    if is_space c
    then rest
    else found (after_word (codes "apartment") (c ∷ s))
      || found (after_word (codes "villa") (c ∷ s))

abbrev pub spaced_home : Option (List ℕ) → Bool
spaced_home none = false
spaced_home (some []) = false
spaced_home (some (c ∷ s)) = is_space c && spaces_home s

-- `/nistula\s+(apartment|villa)/i`
unfoldable pub mentions_home : List ℕ → Bool
unfolding spaces_home
mentions_home [] = false
mentions_home (c ∷ s) = spaced_home (after_word (codes "nistula") (c ∷ s)) || mentions_home s

pub data Place : Type 0 where
  siolim assagao : Place

abbrev pub place_text : Place → List ℕ
place_text siolim = codes "Siolim"
place_text assagao = codes "Assagao"

unfoldable pub locality : List ℕ → Option Place
unfolding mentions mentions_home
locality villa_type =
    if mentions (codes "siolim") villa_type
    then some siolim
    else if mentions_home villa_type
    then some assagao
    else none

abbrev pub only_spaces : List ℕ → Bool
only_spaces s = is_blank (trim_start s)

abbrev pub ends_blank : Option (List ℕ) → Bool
ends_blank none = false
ends_blank (some rest) = only_spaces rest

-- the text without its last part, which starts at white space or at the place
unfoldable pub cut_place : List ℕ → List ℕ → List ℕ
unfolding trim_start after_word
cut_place place [] = []
cut_place place (c ∷ s) =
    let rest = cut_place place s in
    if ends_blank (after_word place (trim_start (c ∷ s))) then [] else c ∷ rest

unfoldable pub type_without_place : List ℕ → Place → List ℕ
unfolding cut_place trim_start trim_end
type_without_place villa_type place =
    let trimmed = trim (cut_place (map lower (place_text place)) villa_type) in
    if is_blank trimmed then villa_type else trimmed

-- The control characters that `\p{C}` removes, of ASCII.
abbrev pub is_control : ℕ → Bool
is_control c = leb c 31 || c == 127

unfoldable pub strip_control : List ℕ → List ℕ
strip_control [] = []
strip_control (c ∷ s) = let rest = strip_control s in if is_control c then rest else c ∷ rest

-- split(/\s+/)[0] of a trimmed text
unfoldable pub first_word : List ℕ → List ℕ
unfolding is_space
first_word [] = []
first_word (c ∷ s) = let rest = first_word s in if is_space c then [] else c ∷ rest

abbrev pub is_lower_letter : ℕ → Bool
is_lower_letter c = leb b'a' c && leb c b'z'

abbrev pub is_upper_letter : ℕ → Bool
is_upper_letter c = leb b'A' c && leb c b'Z'

unfoldable pub letters : List ℕ → List ℕ
letters [] = []
letters (c ∷ s) = let rest = letters s in if is_lower_letter (lower c) then lower c ∷ rest else rest

abbrev pub non_names : List (List ℕ)
non_names = map codes ("walk" ∷ "guest" ∷ "walkin" ∷ "unknown" ∷ "na" ∷ "test" ∷ [])

-- a name in capitals is shouting
abbrev pub is_shouting : List ℕ → Bool
is_shouting s = not (any is_lower_letter s) && any is_upper_letter s

abbrev pub title_case : List ℕ → List ℕ
title_case [] = []
title_case (c ∷ s) = c ∷ map lower s

abbrev pub or_empty : Option (List ℕ) → List ℕ
or_empty none = []
or_empty (some s) = s

unfoldable pub first_name_from_name : Option (List ℕ) → Option (List ℕ)
unfolding strip_control first_word letters trim_start trim_end codes_eq
first_name_from_name name =
    let first = take 40 (first_word (trim (strip_control (or_empty name)))) in
    if is_blank first
    then none
    else if any (λ n. codes_eq n (letters first)) non_names
    then none
    else if is_shouting first
    then some (title_case first)
    else some first

module _ (row : BookingMirror) (stay : DescribedStay) where
  abbrev pub planned : ScheduledKind → ℕ → Option (List ℕ) → PlannedSend
  planned kind send_at villa_type = record {
    kind = kind;
    send_at = send_at;
    dedupe_key = (kind, reference_base row.ezee_reservation_no);
    villa_type = villa_type;
  }

  -- the five messages; none of their moments is computed from the present
  abbrev pub matrix : List ℕ → List PlannedSend
  matrix type_name =
      planned confirmation row.created_at (some type_name)
      ∷ planned prearrival (ist_wall_clock_to_instant (days_before stay.check_in 3) 10 0) none
      ∷ planned welcome (ist_wall_clock_to_instant stay.check_in 9 0) (some type_name)
      ∷ planned poststay (ist_wall_clock_to_instant (days_after stay.check_out 1) 11 0) none
      ∷ planned winback (ist_wall_clock_to_instant (days_after stay.check_out 75) 11 0)
          (some type_name)
      ∷ []

  abbrev pub plan_named : List ℕ → Option (List ℕ) → Option Place → Plan
  plan_named villa_type none place = issue no_guest_name
  plan_named villa_type (some name) none = issue unknown_villa_type
  plan_named villa_type (some name) (some place) =
      sends (matrix (type_without_place villa_type place))

  abbrev pub plan_typed : Option (List ℕ) → Plan
  plan_typed none = issue unknown_villa_type
  plan_typed (some villa_type) =
      plan_named villa_type (first_name_from_name row.guest_name) (locality villa_type)

  unfoldable pub plan_sends : Plan
  unfolding first_name_from_name locality type_without_place reference_base days_before days_after
      ist_wall_clock_to_instant
  plan_sends = if stay.is_unit then issue unit_label_refused else plan_typed stay.villa
