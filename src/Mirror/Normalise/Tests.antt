-- ===== src/Mirror/Normalise/Tests.antt =====
-- The words of eZee at concrete payloads.
use nistula_assistance.Prelude.{◌≡◌, refl, some, none, codes, codes_eq}
use nistula_assistance.Lifecycle.{BookingStatus}
use nistula_assistance.Lifecycle.Gates.{is_space, trim_start, trim_end}
use nistula_assistance.Mirror.Normalise.{
  drop_gaps, normalise_current_status, is_dead_current_status, says_confirmed, unconfirmed_hold,
  map_status,
}
use nistula_assistance.Mirror.Normalise.Trust.{IsTrusted, map_status-IsTrusted}

-- The word of every real booking is no word of the table, so the verb decides.
live_word :
    (map_status
      (some (codes "New"))
      (some (codes "1"))
      (some (codes "Confirmed Reservation"))).status
    ≡ BookingStatus.confirmed
unfolding map_status normalise_current_status drop_gaps codes_eq is_space trim_start trim_end
live_word = refl

edited_hold :
    map_status (some (codes "Modify")) none none
    ≡ record { status = BookingStatus.unknown; issue = some (unconfirmed_hold none) }
unfolding map_status normalise_current_status drop_gaps codes_eq is_space trim_start trim_end
edited_hold = refl

gone :
    (map_status (some (codes "New")) (some (codes "1")) (some (codes "Checked Out"))).status
    ≡ BookingStatus.checked_out
unfolding map_status normalise_current_status drop_gaps codes_eq is_space trim_start trim_end
gone = refl

map_status-IsTrusted_example :
    IsTrusted
      (is_dead_current_status (normalise_current_status (some (codes "Void"))))
      (says_confirmed (some (codes "1")))
      (map_status (some (codes "New")) (some (codes "1")) (some (codes "Void")))
map_status-IsTrusted_example =
    map_status-IsTrusted (some (codes "New")) (some (codes "1")) (some (codes "Void"))
