-- ===== src/Phone.antt =====
-- src/lib/phone.ts: a phone number as E.164.
pub mod Shape
mod Tests
use nistula_assistance.Prelude.{
  ℕ, Option, some, none, List, [], ◌∷◌, ◌++◌, Bool, true, false, not, ◌&&◌, ◌||◌, ◌==◌, leb, codes,
  length, if◌then◌else◌,
}
use nistula_assistance.Lifecycle.Gates.{is_space}

abbrev pub max_digits : ℕ
max_digits = 15

abbrev pub min_digits : ℕ
min_digits = 8

abbrev pub is_filler : ℕ → Bool
is_filler c = is_space c || c == b'-'

-- `raw.replace(/[\s-]/g, '')`
unfoldable pub strip_filler : List ℕ → List ℕ
unfolding is_space
strip_filler [] = []
strip_filler (c ∷ s) = let rest = strip_filler s in if is_filler c then rest else c ∷ rest

abbrev pub is_decimal : ℕ → Bool
is_decimal c = leb b'0' c && leb c b'9'

-- `/^\d+$/`, without the empty text: its length is tested next
unfoldable pub all_digits : List ℕ → Bool
all_digits [] = true
all_digits (c ∷ s) = is_decimal c && all_digits s

abbrev pub has_plus : List ℕ → Bool
has_plus [] = false
has_plus (c ∷ s) = c == b'+'

abbrev pub after_plus : List ℕ → List ℕ
after_plus [] = []
after_plus (c ∷ s) = if c == b'+' then s else c ∷ s

abbrev pub starts_with_zero : List ℕ → Bool
starts_with_zero [] = false
starts_with_zero (c ∷ s) = c == b'0'

abbrev pub starts_with_91 : List ℕ → Bool
starts_with_91 (c ∷ (d ∷ s)) = c == b'9' && d == b'1'
starts_with_91 (c ∷ []) = false
starts_with_91 [] = false

abbrev pub drop_one : List ℕ → List ℕ
drop_one [] = []
drop_one (c ∷ s) = s

abbrev pub plus : List ℕ → List ℕ
plus digits = b'+' ∷ digits

abbrev pub in_india : List ℕ → List ℕ
in_india digits = b'+' ∷ (b'9' ∷ (b'1' ∷ digits))

abbrev pub unless_zero : List ℕ → Option (List ℕ)
unless_zero digits = if starts_with_zero digits then none else some (plus digits)

-- a number that was written without its plus
unfoldable pub local_number : List ℕ → Option (List ℕ)
local_number digits =
    if length digits == 11 && starts_with_zero digits
    then some (in_india (drop_one digits))
    else if length digits == 12 && starts_with_91 digits
    then some (plus digits)
    else if length digits == 10
    then some (in_india digits)
    else unless_zero digits

abbrev pub is_number : List ℕ → Bool
is_number digits =
    all_digits digits && (leb min_digits (length digits) && leb (length digits) max_digits)

abbrev pub of_cleaned : List ℕ → Option (List ℕ)
of_cleaned cleaned =
    let digits = after_plus cleaned in
    if not (is_number digits)
    then none
    else if has_plus cleaned
    then unless_zero digits
    else local_number digits

unfoldable pub normalize_phone : List ℕ → Option (List ℕ)
unfolding strip_filler all_digits local_number
normalize_phone raw = of_cleaned (strip_filler raw)
