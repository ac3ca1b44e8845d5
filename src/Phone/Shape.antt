-- ===== src/Phone/Shape.antt =====
-- What normalizePhone gives has the shape of E.164, and is what it gives for itself.
use nistula_assistance.Prelude.{
  ℕ, ◌≤◌, ◌≡◌, inl, inr, refl, sym, ap, ◌∙◌, Option, some, none, List, [], ◌∷◌, true, false, ◌&&◌,
  ◌||◌, arith, ◌==◌, length, Bool-cases,
}
use nistula_assistance.Lifecycle.Gates.{is_space}
use nistula_assistance.Phone.{
  strip_filler, is_decimal, all_digits, has_plus, after_plus, starts_with_zero, starts_with_91,
  drop_one, plus, in_india, unless_zero, local_number, is_number, normalize_phone, of_cleaned,
}

-- A plus, and then between eight and fifteen digits, not starting with a zero.
pub record IsE164 (digits : List ℕ) : Type 0 where
  pub numeric : all_digits digits ≡ true
  pub long_enough : 8 ≤ length digits
  pub short_enough : length digits ≤ 15
  pub country : starts_with_zero digits ≡ false

-- The number that a text stands for, if it does.
abbrev pub Gives : (List ℕ → Type 0) → Option (List ℕ) → Type 0
Gives P none = Unit
Gives P (some e) = (digits : List ℕ) × (e ≡ plus digits) × P digits

decimal-keeps : (c : ℕ) → is_decimal c ≡ true → (is_space c || c == b'-') ≡ false
unfolding is_space
decimal-keeps c h = ground arith

strip_filler-digits : (s : List ℕ) → all_digits s ≡ true → strip_filler s ≡ s
unfolding strip_filler all_digits
strip_filler-digits [] h = refl
strip_filler-digits (c ∷ s) h =
    let first : is_decimal c ≡ true = ground arith in
    let others : all_digits s ≡ true = ground arith in
    rw (decimal-keeps c first, strip_filler-digits s others) refl

is_number-IsE164 : (digits : List ℕ) → IsE164 digits → is_number digits ≡ true
is_number-IsE164 digits h = ground (arith, h.numeric, h.long_enough, h.short_enough)

strip_filler-plus : (s : List ℕ) → all_digits s ≡ true → strip_filler (plus s) ≡ plus s
unfolding strip_filler is_space
strip_filler-plus s h = ap plus (strip_filler-digits s h)

normalize_phone-plus :
    (digits : List ℕ) → IsE164 digits → normalize_phone (plus digits) ≡ some (plus digits)
unfolding normalize_phone
normalize_phone-plus digits h =
    ap of_cleaned (strip_filler-plus digits h.numeric)
    ∙ rw (is_number-IsE164 digits h, h.country) refl

unless_zero-IsE164 : (digits : List ℕ) → is_number digits ≡ true → Gives IsE164 (unless_zero digits)
unless_zero-IsE164 digits h = elim (Bool-cases (starts_with_zero digits)) [
  | inl zero ↦ rw zero tt
  | inr other ↦ rw other (
    digits,
    refl,
    record {
      numeric = ground arith;
      long_enough = ground arith;
      short_enough = ground arith;
      country = other;
    },
  )
]

first-country : (c : ℕ) (s : List ℕ) → starts_with_91 (c ∷ s) ≡ true → (c == b'0') ≡ false
first-country c [] h = absurd (ground arith)
first-country c (d ∷ s) h = ground arith

plus-IsE164 :
    (digits : List ℕ)
    → is_number digits ≡ true
    → starts_with_91 digits ≡ true
    → Gives IsE164 (some (plus digits))
plus-IsE164 [] h k = absurd (ground arith)
plus-IsE164 (c ∷ s) h k = (
  c ∷ s,
  refl,
  record {
    numeric = ground arith;
    long_enough = ground arith;
    short_enough = ground arith;
    country = first-country c s k;
  },
)

in_india-IsE164 :
    (digits : List ℕ)
    → all_digits digits ≡ true
    → length digits ≡ 10
    → Gives IsE164 (some (in_india digits))
unfolding all_digits
in_india-IsE164 digits h k = (
  b'9' ∷ (b'1' ∷ digits),
  refl,
  record {
    numeric = h;
    long_enough = omega (arith, k);
    short_enough = omega (arith, k);
    country = refl;
  },
)

drop_one-digits :
    (digits : List ℕ)
    → all_digits digits ≡ true
    → length digits ≡ 11
    → (all_digits (drop_one digits) ≡ true) × (length (drop_one digits) ≡ 10)
unfolding all_digits
drop_one-digits [] h k = absurd (omega (arith, k))
drop_one-digits (c ∷ s) h k = (ground arith, omega (arith, k))

local_number-IsE164 :
    (digits : List ℕ) → is_number digits ≡ true → Gives IsE164 (local_number digits)
unfolding local_number
local_number-IsE164 digits h = elim (Bool-cases (length digits == 11 && starts_with_zero digits)) [
  | inl trunk ↦
      let (numeric, ten) = drop_one-digits digits (ground arith) (ground arith) in
      rw trunk (in_india-IsE164 (drop_one digits) numeric ten)
  | inr other ↦ elim (Bool-cases (length digits == 12 && starts_with_91 digits)) [
    | inl full ↦ rw (other, full) (plus-IsE164 digits h (ground arith))
    | inr foreign ↦ elim (Bool-cases (length digits == 10)) [
      | inl ten ↦ rw (other, foreign, ten) (in_india-IsE164 digits (ground arith) (ground arith))
      | inr longer ↦ rw (other, foreign, longer) (unless_zero-IsE164 digits h)
    ]
  ]
]

of_cleaned-IsE164 : (cleaned : List ℕ) → Gives IsE164 (of_cleaned cleaned)
of_cleaned-IsE164 cleaned = elim (Bool-cases (is_number (after_plus cleaned))) [
  | inl number ↦ elim (Bool-cases (has_plus cleaned)) [
    | inl given ↦ rw (number, given) (unless_zero-IsE164 (after_plus cleaned) number)
    | inr bare ↦ rw (number, bare) (local_number-IsE164 (after_plus cleaned) number)
  ]
  | inr noise ↦ rw noise tt
]

Gives-some :
    (P : List ℕ → Type 0) (o : Option (List ℕ)) (e : List ℕ)
    → o ≡ some e
    → Gives P o
    → (digits : List ℕ) × (e ≡ plus digits) × P digits
Gives-some P none e h g = absurd (ground arith)
Gives-some P (some x) e h (digits, same, p) = (digits, ground arith, p)

-- A number that is accepted is a plus with eight to fifteen digits of which the first is no zero,
-- and accepting it again gives it back: the lookups by phone compare one form of each number.
pub normalize_phone-IsE164 :
    (raw e : List ℕ)
    → normalize_phone raw ≡ some e
    → ((digits : List ℕ) × (e ≡ plus digits) × IsE164 digits) × (normalize_phone e ≡ some e)
unfolding normalize_phone
normalize_phone-IsE164 raw e h =
    let found =
      Gives-some IsE164 (of_cleaned (strip_filler raw)) e h
        (of_cleaned-IsE164 (strip_filler raw)) in
    let again : normalize_phone e ≡ some e =
      ap normalize_phone found.1 ∙ (normalize_phone-plus found.0 found.2 ∙ ap some (sym found.1)) in
    (found, again)
