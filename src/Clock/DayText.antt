-- ===== src/Clock/DayText.antt =====
-- eZee dates stay "YYYY-MM-DD" texts, and the program compares them as texts: this is the order of
-- the calendar.
use mathlib.Core.Bool.{false≢true}
use mathlib.Core.Path.{ap₂}
use native.Mathlib.Numerals.{add-one}
use nistula_assistance.Prelude.{
  ℕ, zero, suc, ◌+◌, ◌-◌, ◌/◌, ◌%◌, ◌≤◌, ◌<◌, ◌≡◌, ◌↔◌, ◌⊎◌, inl, inr, refl, sym, ◌∙◌, ap, List, [],
  ◌∷◌, ◌++◌, Bool, true, false, arith, ltb, if◌then◌else◌, ◌==◌, ==_iff, Bool-cases, ◌&&◌, ◌||◌,
}
use nistula_assistance.Clock.{
  Day, is_leap, days_in_month, days_before_year, days_before_month, day_number, pad_two,
}
use nistula_assistance.Clock.Calendar.{
  IsDay, days_before_month-suc, days_in_month-le, december, december_days, days_before_year-suc,
}

-- The text of a day, as toISOString gives it.
unfoldable pub day_text : Day → List ℕ
day_text d =
    pad_two (d.year / 100)
    ++ (pad_two (d.year % 100) ++ (b'-' ∷ (pad_two d.month ++ (b'-' ∷ pad_two d.day))))

-- `a <= b` on texts: by the first code that differs
unfoldable pub text_leb : List ℕ → List ℕ → Bool
text_leb [] t = true
text_leb (a ∷ s) [] = false
text_leb (a ∷ s) (b ∷ t) = ltb a b || (a == b && text_leb s t)

abbrev pub day_leb : Day → Day → Bool
day_leb a b = text_leb (day_text a) (day_text b)

-- Two padded numbers are compared as numbers, and then by what follows.
text_leb-pad_two :
    (a b : ℕ) (s t : List ℕ)
    → a < 100
    → b < 100
    → text_leb (pad_two a ++ s) (pad_two b ++ t) ≡ (ltb a b || (a == b && text_leb s t))
unfolding text_leb
text_leb-pad_two a b s t h k = ground arith

text_leb-dash : (s t : List ℕ) → text_leb (b'-' ∷ s) (b'-' ∷ t) ≡ text_leb s t
unfolding text_leb
text_leb-dash s t = ground arith

text_leb-nil : text_leb [] [] ≡ true
unfolding text_leb
text_leb-nil = refl

abbrev lex : ℕ → ℕ → Bool → Bool
lex a b rest = ltb a b || (a == b && rest)

-- The comparison of two days by their four padded numbers.
abbrev fields_leb : Day → Day → Bool
fields_leb a b =
    lex (a.year / 100) (b.year / 100)
      (lex (a.year % 100) (b.year % 100) (lex a.month b.month (lex a.day b.day true)))

pub record IsShort (d : Day) : Type 0 where
  pub is_day : IsDay d
  pub four_digits : d.year < 10000

short_day : (d : Day) → IsShort d → d.day < 100
short_day d h = omega (arith, days_in_month-le d.year d.month, h.is_day.day_le)

day_leb-fields : (a b : Day) → IsShort a → IsShort b → day_leb a b ≡ fields_leb a b
unfolding day_text
day_leb-fields a b h k =
    text_leb-pad_two (a.year / 100) (b.year / 100) _ _ (omega arith) (omega arith)
    ∙ ap (lex (a.year / 100) (b.year / 100)) (
        text_leb-pad_two (a.year % 100) (b.year % 100) _ _ (omega arith) (omega arith)
        ∙ ap (lex (a.year % 100) (b.year % 100)) (
            text_leb-dash _ _
            ∙ (text_leb-pad_two a.month b.month _ _ (omega arith) (omega arith)
                ∙ ap (lex a.month b.month) (
                    text_leb-dash _ _
                    ∙ (text_leb-pad_two a.day b.day [] [] (short_day a h) (short_day b k)
                        ∙ ap (lex a.day b.day) text_leb-nil)))))

module _ (y : ℕ) where
  days_before_month-lt :
      (m m' : ℕ)
      → 1 ≤ m
      → m < m'
      → days_before_month y m + days_in_month y m ≤ days_before_month y m'
  days_before_month-lt m zero pos lt = absurd (omega arith)
  days_before_month-lt m (suc k) pos lt =
      let last = days_before_month-suc y k in
      elim (Bool-cases (m == k)) [
        | inl same ↦
            rw (← add-one, ← (==_iff m k).0 same) (omega (arith, days_before_month-suc y m pos))
        | inr other ↦
            rw (← add-one) (omega (arith, last, days_before_month-lt m k pos (ground arith)))
      ]

days_before_year-lt :
    (y y' : ℕ)
    → y < y'
    → days_before_year y + (if is_leap y then 366 else 365) ≤ days_before_year y'
days_before_year-lt y zero lt = absurd (omega arith)
days_before_year-lt y (suc k) lt =
    let step : days_before_year (suc k) ≡ days_before_year (k + 1) =
      ap days_before_year (sym (add-one k)) in
    elim (Bool-cases (y == k)) [
      | inl same ↦
          let e : k ≡ y = sym ((==_iff y k).0 same) in
          rw e (omega (arith, ap days_before_year (sym (add-one y)), days_before_year-suc y))
      | inr other ↦
          omega (arith, step, days_before_year-suc k, days_before_year-lt y k (ground arith))
    ]

-- The days of the year before a day of it.
day_in_year-lt :
    (d : Day)
    → IsDay d
    → days_before_month d.year d.month + (d.day - 1) < (if is_leap d.year then 366 else 365)
day_in_year-lt d h = elim (Bool-cases (d.month == 12)) [
  | inl last ↦
      let e = (==_iff d.month 12).0 last in
      omega (
        arith,
        december d.year,
        h.day_le,
        ap (days_before_month d.year) e,
        ap (days_in_month d.year) e,
        december_days d.year,
      )
  | inr other ↦ omega (
    arith,
    days_before_month-lt d.year d.month 12 h.month_pos (ground arith),
    december d.year,
    h.day_le,
  )
]

-- An earlier day, by year, month and day.
abbrev Earlier : Day → Day → Type 0
Earlier a b =
    (a.year < b.year)
    ⊎ (((a.year ≡ b.year) × (a.month < b.month))
        ⊎ ((a.year ≡ b.year) × (a.month ≡ b.month) × (a.day < b.day)))

day_number_parts :
    (d : Day)
    → day_number d ≡ days_before_year d.year + days_before_month d.year d.month + (d.day - 1)
unfolding day_number
day_number_parts d = refl

day_number-lt : (a b : Day) → IsDay a → IsDay b → Earlier a b → day_number a < day_number b
day_number-lt a b h k (inl lt) = omega (
  arith,
  day_number_parts a,
  day_number_parts b,
  day_in_year-lt a h,
  days_before_year-lt a.year b.year lt,
)
day_number-lt a b h k (inr (inl (e, lt))) = omega (
  arith,
  day_number_parts a,
  day_number_parts b,
  ap days_before_year e,
  ap (λ y. days_before_month y b.month) e,
  days_before_month-lt a.year a.month b.month h.month_pos lt,
  h.day_le,
)
day_number-lt a b h k (inr (inr (e, e', lt))) = omega (
  arith,
  day_number_parts a,
  day_number_parts b,
  ap days_before_year e,
  ap₂ days_before_month e e',
  h.day_pos,
)

fields_leb-cases :
    (a b : Day)
    → ((fields_leb a b ≡ true) × (Earlier a b ⊎ (a ≡ b))) ⊎ ((fields_leb a b ≡ false) × Earlier b a)
fields_leb-cases a b = ground arith

-- Of two calendar days before the year 10000, the text of the first is at most that of the second
-- exactly when its day number is: comparing the texts is comparing the days.
pub day_leb_iff :
    (a b : Day) → IsShort a → IsShort b → (day_leb a b ≡ true) ↔ (day_number a ≤ day_number b)
day_leb_iff a b h k = elim (fields_leb-cases a b) [
  | inl (yes_it, inl lt) ↦ (
    (λ _. omega (arith, day_number-lt a b h.is_day k.is_day lt)),
    (λ _. day_leb-fields a b h k ∙ yes_it),
  )
  | inl (yes_it, inr same) ↦
      ((λ _. omega (arith, ap day_number same)), (λ _. day_leb-fields a b h k ∙ yes_it))
  | inr (not_it, lt) ↦ (
    (λ e. absurd (false≢true (sym (day_leb-fields a b h k ∙ not_it) ∙ e))),
    (λ le. absurd (omega (arith, day_number-lt b a k.is_day h.is_day lt))),
  )
]

-- Two days with one number are one day.
pub day_number-injective : (a b : Day) → IsShort a → IsShort b → day_number a ≡ day_number b → a ≡ b
day_number-injective a b h k e = elim (fields_leb-cases a b) [
  | inl (_, inl lt) ↦ absurd (omega (arith, day_number-lt a b h.is_day k.is_day lt))
  | inl (_, inr same) ↦ same
  | inr (_, lt) ↦ absurd (omega (arith, day_number-lt b a k.is_day h.is_day lt))
]
