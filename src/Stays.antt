-- ===== src/Stays.antt =====
-- src/brain/stayView.ts: what may be said of a booking, the stage that a guest is in, and the stays
-- that are put before the model. Days are compared as texts.
pub mod Stages
mod Tests
use nistula_assistance.Prelude.{
  ℕ, zero, suc, Option, some, none, List, [], ◌∷◌, ◌++◌, Bool, true, false, not, ◌&&◌, ◌||◌, ◌==◌,
  ltb, leb, str_eq, String, codes_eq, any, take, map, select_where, if◌then◌else◌,
}
use nistula_assistance.Clock.{Day, days_after, days_before}
use nistula_assistance.Clock.DayText.{day_leb}
use nistula_assistance.Lifecycle.{
  BookingMirror, BookingStatus, confirmed, modified, checked_in, checked_out,
}

-- DESCRIBABLE_STATUSES
abbrev pub is_describable_status : BookingStatus → Bool
is_describable_status confirmed = true
is_describable_status modified = true
is_describable_status checked_in = true
is_describable_status checked_out = true
is_describable_status _ = false

-- LIVE_STATUSES
abbrev pub is_live_status : BookingStatus → Bool
is_live_status confirmed = true
is_live_status modified = true
is_live_status checked_in = true
is_live_status _ = false

-- TRUST_EZEE_ROOM_ASSIGNMENT
abbrev pub trust_ezee_room_assignment : Bool
trust_ezee_room_assignment = false

pub data UndescribableReason : Type 0 where
  status_not_describable missing_dates multi_room sibling_rows : UndescribableReason

pub record DescribedStay : Type 0 where
  pub booking_id : String
  pub reservation_no : List ℕ
  pub villa : Option (List ℕ)
  pub is_unit : Bool
  pub check_in : Day
  pub check_out : Day
  pub adults : Option ℕ
  pub children : Option ℕ
  pub status : BookingStatus
  pub live : Bool

pub record UndescribableStay : Type 0 where
  pub booking_id : String
  pub reservation_no : List ℕ
  pub reason : UndescribableReason
  pub live : Bool
  pub check_in : Option Day

pub data StayView : Type 0 where
  described : DescribedStay → StayView
  undescribed : UndescribableStay → StayView

unfoldable pub room_count : BookingMirror → ℕ
room_count row = if row.rooms == 0 then 1 else row.rooms

-- `\d*` up to the end of the text
abbrev pub all_digits : List ℕ → Bool
all_digits [] = true
all_digits (c ∷ s) = (leb b'0' c && leb c b'9') && all_digits s

abbrev pub some_digits : List ℕ → Bool
some_digits [] = false
some_digits (c ∷ s) = all_digits (c ∷ s)

-- referenceBase: without a final `-\d+`
unfoldable pub reference_base : List ℕ → List ℕ
reference_base [] = []
reference_base (c ∷ s) =
    let rest = reference_base s in if c == b'-' && some_digits s then [] else c ∷ rest

abbrev pub not_ended : Option Day → Day → Bool
not_ended none today = true
not_ended (some day) today = day_leb today day

abbrev pub is_live_booking : BookingMirror → Day → Bool
is_live_booking row today = is_live_status row.status && not_ended row.check_out today

abbrev pub is_sibling : BookingMirror → BookingMirror → Bool
is_sibling row other =
    not (str_eq other.id row.id)
    && codes_eq (reference_base other.ezee_reservation_no) (reference_base row.ezee_reservation_no)

abbrev pub unit_label : BookingMirror → Option (List ℕ)
unit_label row = if trust_ezee_room_assignment then row.physical_room_label else none

abbrev pub or_type : Option (List ℕ) → Option (List ℕ) → Option (List ℕ)
or_type none room_type = room_type
or_type (some label) room_type = some label

abbrev pub is_some : Option (List ℕ) → Bool
is_some none = false
is_some (some _) = true

module _ (row : BookingMirror) (siblings : List BookingMirror) (today : Day) where
  abbrev pub refuse : UndescribableReason → StayView
  refuse reason = undescribed (record {
    booking_id = row.id;
    reservation_no = row.ezee_reservation_no;
    reason = reason;
    live = is_live_booking row today;
    check_in = row.check_in;
  })

  abbrev pub describe : Day → Day → DescribedStay
  describe check_in check_out = record {
    booking_id = row.id;
    reservation_no = row.ezee_reservation_no;
    villa = or_type (unit_label row) row.room_type_name;
    is_unit = is_some (unit_label row);
    check_in = check_in;
    check_out = check_out;
    adults = row.adults;
    children = row.children;
    status = row.status;
    live = is_live_booking row today;
  }

  -- once both dates are there
  abbrev pub project_dated : Option Day → Option Day → StayView
  project_dated (some check_in) (some check_out) =
      if ltb 1 (room_count row)
      then refuse multi_room
      else if any (is_sibling row) siblings
      then refuse sibling_rows
      else described (describe check_in check_out)
  project_dated _ _ = refuse missing_dates

  unfoldable pub project : StayView
  unfolding room_count reference_base
  project =
      if not (is_describable_status row.status)
      then refuse status_not_describable
      else project_dated row.check_in row.check_out

unfoldable pub project_all : List BookingMirror → Day → List StayView
unfolding project
project_all rows today = map (λ row. project row rows today) rows

pub data Stage : Type 0 where
  lead prearrival inhouse postguest : Stage

-- the filter on `describable`
abbrev pub describable : List StayView → List DescribedStay
describable [] = []
describable (described stay ∷ views) = stay ∷ describable views
describable (undescribed _ ∷ views) = describable views

abbrev pub is_active : Day → DescribedStay → Bool
is_active today v = v.live && (day_leb v.check_in today && day_leb today v.check_out)

abbrev pub is_upcoming : Day → DescribedStay → Bool
is_upcoming today v = v.live && not (day_leb v.check_in today)

abbrev pub is_past : Day → DescribedStay → Bool
is_past today v = not (day_leb today v.check_out)

unfoldable pub derive_stage : List StayView → Day → Stage
derive_stage views today =
    let stays = describable views in
    if any (is_active today) stays
    then inhouse
    else if any (is_upcoming today) stays
    then prearrival
    else if any (is_past today) stays
    then postguest
    else lead

abbrev pub relevant : Option Day → Day → Day → Bool
relevant none from to = false
relevant (some day) from to = day_leb from day && day_leb day to

abbrev pub is_problem : Day → Day → StayView → Bool
is_problem from to (described _) = false
is_problem from to (undescribed v) = relevant v.check_in from to

unfoldable pub needs_human : List StayView → Day → Bool
needs_human views today = any (is_problem (days_before today 7) (days_after today 180)) views

unfoldable pub live_stays : List StayView → List DescribedStay
live_stays views = select_where (λ v. v.live) (describable views)

-- sort, which is stable, by a test that the first may stand before the second
module _ (before : DescribedStay → DescribedStay → Bool) where
  unfoldable pub sort_in : DescribedStay → List DescribedStay → List DescribedStay
  sort_in s [] = s ∷ []
  sort_in s (t ∷ ts) = if before s t then s ∷ t ∷ ts else t ∷ sort_in s ts

  unfoldable pub sort : List DescribedStay → List DescribedStay
  unfolding sort_in
  sort [] = []
  sort (s ∷ ss) = sort_in s (sort ss)

abbrev pub stays_render_limit : ℕ
stays_render_limit = 3

unfoldable pub select_stays : List StayView → Day → List DescribedStay
unfolding sort
select_stays views today =
    let stays = describable views in
    let active = select_where (is_active today) stays in
    let upcoming =
      sort (λ a b. day_leb a.check_in b.check_in) (select_where (is_upcoming today) stays) in
    let past = sort (λ a b. day_leb b.check_out a.check_out) (select_where (is_past today) stays) in
    take stays_render_limit (active ++ (upcoming ++ past))
