-- ===== src/Mirror/Normalise/Trust.antt =====
-- What a status of the mirror vouches for (mapStatus), and what its guest's number looks like.
use mathlib.Core.Path.{subst}
use nistula_assistance.Prelude.{
  ℕ, ◌≡◌, inl, inr, refl, sym, ap, ◌∙◌, Option, some, none, List, [], ◌∷◌, Bool, true, false, ◌||◌,
  arith, codes, codes_eq, map, Bool-cases, Option-cases, if◌then◌else◌,
}
use nistula_assistance.Lifecycle.{BookingStatus}
use nistula_assistance.Lifecycle.Gates.{lower, trim}
use nistula_assistance.Phone.{plus}
use nistula_assistance.Phone.Shape.{IsE164, normalize_phone-IsE164}
use nistula_assistance.Mirror.Normalise.{
  plain, str, normalise_current_status, is_dead_current_status, StatusIssue, StatusMapping,
  says_confirmed, confirmed_as, of_verb, of_current, map_status, text_or_empty, number_or,
  candidate, guest_phone_of,
}

-- The statuses of a booking that will be spoken of as made.
abbrev pub is_made : BookingStatus → Bool
is_made BookingStatus.confirmed = true
is_made BookingStatus.modified = true
is_made _ = false

abbrev pub is_unknown : BookingStatus → Bool
is_unknown BookingStatus.unknown = true
is_unknown _ = false

abbrev pub is_raised : Option StatusIssue → Bool
is_raised none = false
is_raised (some issue) = true

-- What a mapping may say, given what the payload says.
pub record IsTrusted (dead is_confirmed : Bool) (m : StatusMapping) : Type 0 where
  pub made : is_made m.status ≡ true → (is_confirmed ≡ true) × (dead ≡ false)
  pub raised : is_raised m.issue ≡ is_unknown m.status

if_holds :
    (P : StatusMapping → Type 0) (b : Bool) (x y : StatusMapping)
    → P x
    → (b ≡ false → P y)
    → P (if b then x else y)
if_holds P true x y hx hy = hx
if_holds P false x y hx hy = hy refl

plain-IsTrusted :
    (dead c : Bool) (s : BookingStatus)
    → is_made s ≡ false
    → is_unknown s ≡ false
    → IsTrusted dead c (plain s)
plain-IsTrusted dead c s made known = record {
  made = λ h. absurd (ground arith);
  raised = ground arith;
}

confirmed_as-IsTrusted :
    (s : BookingStatus) (is_confirmed : Option (List ℕ))
    → is_unknown s ≡ false
    → IsTrusted false (says_confirmed is_confirmed) (confirmed_as s is_confirmed)
confirmed_as-IsTrusted s is_confirmed known = elim (Bool-cases (says_confirmed is_confirmed)) [
  | inl t ↦ rw t (record { made = λ h. (refl, refl); raised = ground arith })
  | inr f ↦ rw f (record { made = λ h. absurd (ground arith); raised = refl })
]

of_verb-IsTrusted :
    (verb : List ℕ) (tran_status is_confirmed current_status : Option (List ℕ))
    → IsTrusted false
        (says_confirmed is_confirmed)
        (of_verb verb tran_status is_confirmed current_status)
of_verb-IsTrusted verb tran_status is_confirmed current_status =
    let P = IsTrusted false (says_confirmed is_confirmed) in
    if_holds P (codes_eq verb (codes "new")) _ _
      (confirmed_as-IsTrusted BookingStatus.confirmed is_confirmed refl)
      (λ _.
        if_holds P (codes_eq verb (codes "modify")) _ _
          (confirmed_as-IsTrusted BookingStatus.modified is_confirmed refl)
          (λ _.
            if_holds P (codes_eq verb (codes "cancel")) _ _
              (plain-IsTrusted false (says_confirmed is_confirmed) BookingStatus.cancelled refl
                refl)
              (λ _. record { made = λ h. absurd (ground arith); raised = refl })))

of_current-IsTrusted :
    (current : List ℕ) (c : Bool) (otherwise : StatusMapping)
    → IsTrusted false c otherwise
    → IsTrusted (is_dead_current_status current) c (of_current current otherwise)
of_current-IsTrusted current c otherwise h =
    let dead = is_dead_current_status current in
    let P = IsTrusted dead c in
    if_holds P (codes_eq current (codes "arrived") || codes_eq current (codes "checkedin")) _ _
      (plain-IsTrusted dead c BookingStatus.checked_in refl refl)
      (λ _.
        if_holds P (codes_eq current (codes "checkedout")) _ _
          (plain-IsTrusted dead c BookingStatus.checked_out refl refl)
          (λ _.
            if_holds P (codes_eq current (codes "noshow")) _ _
              (plain-IsTrusted dead c BookingStatus.no_show refl refl)
              (λ _.
                if_holds P dead _ _ (plain-IsTrusted dead c BookingStatus.cancelled refl refl)
                  (λ alive. subst (λ b. IsTrusted b c otherwise) (sym alive) h))))

-- A status is confirmed or modified only where IsConfirmed is "1" and eZee's own live word does not
-- say that the booking is over; and an issue is raised exactly where the status is unknown.
pub map_status-IsTrusted :
    (tran_status is_confirmed current_status : Option (List ℕ))
    → IsTrusted
        (is_dead_current_status (normalise_current_status current_status))
        (says_confirmed is_confirmed)
        (map_status tran_status is_confirmed current_status)
unfolding map_status
map_status-IsTrusted tran_status is_confirmed current_status =
    let verb = trim (map lower (text_or_empty tran_status)) in
    of_current-IsTrusted (normalise_current_status current_status) (says_confirmed is_confirmed)
      (of_verb verb tran_status is_confirmed current_status)
      (of_verb-IsTrusted verb tran_status is_confirmed current_status)

candidate-IsE164 :
    (o : Option (List ℕ)) (number : List ℕ)
    → candidate o ≡ some number
    → (digits : List ℕ) × (number ≡ plus digits) × IsE164 digits
candidate-IsE164 none number h = absurd (ground arith)
candidate-IsE164 (some raw) number h = let (shape, _) = normalize_phone-IsE164 raw number h in shape

-- The number that the mirror keeps for a guest, whichever of the payload's numbers it is read from,
-- is a plus sign and the digits of a number of E.164.
guest_phone_of-IsE164 :
    (candidates : List (Option (List ℕ))) (number : List ℕ)
    → guest_phone_of candidates ≡ some number
    → (digits : List ℕ) × (number ≡ plus digits) × IsE164 digits
unfolding guest_phone_of
guest_phone_of-IsE164 [] number h = absurd (ground arith)
guest_phone_of-IsE164 (c ∷ candidates) number h = elim (Option-cases (candidate (str c))) [
  | inl none_here ↦
      guest_phone_of-IsE164 candidates number
        (sym (ap (λ o. number_or o (guest_phone_of candidates)) none_here) ∙ h)
  | inr (n, hit) ↦
      candidate-IsE164 (str c) number
        (hit ∙ sym (ap (λ o. number_or o (guest_phone_of candidates)) hit) ∙ h)
]
