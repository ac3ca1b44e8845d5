-- ===== src/Phone/Tests.antt =====
-- A number as a guest types it.
use nistula_assistance.Prelude.{◌≡◌, refl, some, List, codes, ℕ}
use nistula_assistance.Lifecycle.Gates.{is_space}
use nistula_assistance.Phone.{strip_filler, all_digits, local_number, plus, normalize_phone}
use nistula_assistance.Phone.Shape.{IsE164, normalize_phone-IsE164}

typed : normalize_phone (codes "098765 43-210") ≡ some (codes "+919876543210")
unfolding normalize_phone strip_filler all_digits local_number is_space
typed = refl

normalize_phone-IsE164_example :
    ((digits : List ℕ) × (codes "+919876543210" ≡ plus digits) × IsE164 digits)
    × (normalize_phone (codes "+919876543210") ≡ some (codes "+919876543210"))
normalize_phone-IsE164_example =
    normalize_phone-IsE164 (codes "098765 43-210") (codes "+919876543210") typed
