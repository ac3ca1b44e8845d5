-- ===== src/Staff/Roster/Routing.antt =====
-- A card reaches a listed human, and an unknown door is never guessed (assignFor).
use nistula_assistance.Prelude.{
  String, Option, some, none, List, [], ◌∷◌, Bool, true, false, ◌≡◌, ◌≢◌, ◌↔◌, refl, All, All-map,
  All-both, Bool-cases, str_eq, arith, eq_iff, any, Option-cases, inl, inr,
}
use mathlib.Core.Path.{subst}
use mathlib.Core.Option.{some-injective}
use nistula_assistance.Tasks.{TaskKind}
use nistula_assistance.Staff.Roster.{
  Roster, StaffRole, same_role, role_for_kind, StaffMember, Assignment, role_and_villa, lead, ops,
  ops_rung, find, is_desk, frontdesk_lead, on_round, round_match, assign_for, has_phone,
  is_staff_phone,
}

pub find_sound {ℓ} :
    {A : Type ℓ} (p : A → Bool) (xs : List A) (a : A) → find p xs ≡ some a → p a ≡ true
find_sound p [] a h = ground arith
find_sound p (x ∷ xs) a h = ground (arith, find_sound p xs a)

find-any :
    (p q : StaffMember → Bool) (xs : List StaffMember) (m : StaffMember)
    → find p xs ≡ some m
    → q m ≡ true
    → any q xs ≡ true
find-any p q [] m h k = ground arith
find-any p q (x ∷ xs) m h k = ground (arith, find-any p q xs m)

find-none {ℓ} : {A : Type ℓ} (p : A → Bool) (xs : List A) → find p xs ≡ none → any p xs ≡ false
find-none p [] h = refl
find-none p (x ∷ xs) h = ground (arith, find-none p xs)

has_phone_self : (m : StaffMember) → has_phone m.phone m ≡ true
has_phone_self m = (eq_iff m.phone m.phone).1 refl

find-any_phone :
    (p : StaffMember → Bool) (xs : List StaffMember) (m : StaffMember)
    → find p xs ≡ some m
    → any (has_phone m.phone) xs ≡ true
find-any_phone p xs m h = find-any p (has_phone m.phone) xs m h (has_phone_self m)

-- What an assignment says about the person it names.
pub record IsHonest (roster : Roster) (kind : TaskKind) (villa : Option String) (a : Assignment)
    : Type 0 where
  pub listed : is_staff_phone roster a.phone ≡ true
  pub on_that_round :
      a.via ≡ role_and_villa
      → (m : StaffMember) × (v : String) × (a.member ≡ some m)
        × (a.phone ≡ m.phone)
        × (villa ≡ some v)
        × (on_round kind v m ≡ true)
  pub at_the_desk :
      a.via ≡ lead
      → (m : StaffMember) × (a.member ≡ some m) × (a.phone ≡ m.phone) × (is_desk m ≡ true)
  pub nobody_named : a.via ≡ ops → a.member ≡ none

round_match-inv :
    (roster : Roster) (kind : TaskKind) (villa : Option String) (m : StaffMember)
    → round_match roster kind villa ≡ some m
    → (v : String) × (villa ≡ some v) × (find (on_round kind v) roster.members ≡ some m)
round_match-inv roster kind none m h = absurd (ground arith)
round_match-inv roster kind (some v) m h = (v, refl, h)

IsHonest-round :
    (roster : Roster) (kind : TaskKind) (villa : Option String) (m : StaffMember)
    → round_match roster kind villa ≡ some m
    → IsHonest roster kind villa (record { phone = m.phone; member = some m; via = role_and_villa })
unfolding is_staff_phone
IsHonest-round roster kind villa m h =
    let (v, known, found) = round_match-inv roster kind villa m h in
    record {
      listed = rw (find-any_phone (on_round kind v) roster.members m found);
      on_that_round =
          λ _. (m, v, refl, refl, known, find_sound (on_round kind v) roster.members m found);
      at_the_desk = λ e. absurd (ground arith);
      nobody_named = λ e. absurd (ground arith);
    }

IsHonest-lead :
    (roster : Roster) (kind : TaskKind) (villa : Option String) (m : StaffMember)
    → frontdesk_lead roster ≡ some m
    → IsHonest roster kind villa (record { phone = m.phone; member = some m; via = lead })
unfolding is_staff_phone frontdesk_lead
IsHonest-lead roster kind villa m h = record {
  listed = rw (find-any_phone is_desk roster.members m h);
  on_that_round = λ e. absurd (ground arith);
  at_the_desk = λ _. (m, refl, refl, find_sound is_desk roster.members m h);
  nobody_named = λ e. absurd (ground arith);
}

IsHonest-ops :
    (roster : Roster) (kind : TaskKind) (villa : Option String) (number : String)
    (more : List String)
    → roster.ops_numbers ≡ number ∷ more
    → IsHonest roster kind villa (record { phone = number; member = none; via = ops })
unfolding is_staff_phone
IsHonest-ops roster kind villa number more e = record {
  listed = ground (arith, eq_iff number number);
  on_that_round = λ e. absurd (ground arith);
  at_the_desk = λ e. absurd (ground arith);
  nobody_named = λ _. refl;
}

-- An assignment names a number of the roster; one by role and villa names a member whose role does
-- this kind of work and whose round holds the villa, so an unknown villa is never given to a
-- round; one by the lead names a front-desk member; an ops number is nobody in particular.
pub assign_for-IsHonest :
    (roster : Roster) (kind : TaskKind) (villa : Option String) (a : Assignment)
    → assign_for roster kind villa ≡ some a
    → IsHonest roster kind villa a
unfolding assign_for
assign_for-IsHonest roster kind villa a h = elim (Option-cases (round_match roster kind villa)) [
  | inr (m, found) ↦
      subst (IsHonest roster kind villa) (some-injective _ _ (rw found at h))
        (IsHonest-round roster kind villa m found)
  | inl off ↦ elim (Option-cases (frontdesk_lead roster)) [
    | inr (m, found) ↦
        subst (IsHonest roster kind villa) (some-injective _ _ (rw (off, found) at h))
          (IsHonest-lead roster kind villa m found)
    | inl away ↦ last roster.ops_numbers refl (rw (off, away) at h)
  ]
]
  where
    last :
        (numbers : List String)
        → roster.ops_numbers ≡ numbers
        → ops_rung numbers ≡ some a
        → IsHonest roster kind villa a
    last [] e k = absurd (ground arith)
    last (n ∷ more) e k =
        subst (IsHonest roster kind villa) (some-injective _ _ k)
          (IsHonest-ops roster kind villa n more e)

same_role→eq : (a b : StaffRole) → same_role a b ≡ true → a ≡ b
same_role→eq a b h = ground arith

same_role_refl : (a : StaffRole) → same_role a a ≡ true
same_role_refl a = ground arith

-- A member who is not on the round for this kind of card and this villa.
abbrev pub DeclinesRound : TaskKind → Option String → StaffMember → Type 0
DeclinesRound kind villa m =
    (v : String)
    → villa ≡ some v
    → m.role ≡ role_for_kind kind
    → any (λ u. str_eq u v) m.villas ≡ false

-- A member who can be given no card of this kind about this villa.
abbrev pub Declines : TaskKind → Option String → StaffMember → Type 0
Declines kind villa m = DeclinesRound kind villa m × (m.role ≢ StaffRole.frontdesk)

unknown_villa : (kind : TaskKind) (xs : List StaffMember) → All (DeclinesRound kind none) xs
unknown_villa kind [] = tt
unknown_villa kind (x ∷ xs) = (λ v e. absurd (ground arith), unknown_villa kind xs)

find-none-All :
    (p : StaffMember → Bool) (xs : List StaffMember) → find p xs ≡ none → All (λ m. p m ≡ false) xs
find-none-All p [] h = tt
find-none-All p (x ∷ xs) h = (ground arith, find-none-All p xs (ground arith))

All-find-none :
    (p : StaffMember → Bool) (xs : List StaffMember) → All (λ m. p m ≡ false) xs → find p xs ≡ none
All-find-none p [] h = refl
All-find-none p (x ∷ xs) (h, hs) = rw h (All-find-none p xs hs)

declines_round :
    (kind : TaskKind) (v : String) (m : StaffMember)
    → on_round kind v m ≡ false
    → m.role ≡ role_for_kind kind
    → any (λ u. str_eq u v) m.villas ≡ false
declines_round kind v m h e = ground (arith, same_role_refl (role_for_kind kind))

off_round :
    (kind : TaskKind) (v : String) (m : StaffMember)
    → (m.role ≡ role_for_kind kind → any (λ u. str_eq u v) m.villas ≡ false)
    → on_round kind v m ≡ false
off_round kind v m h = elim (Bool-cases (same_role m.role (role_for_kind kind))) [
  | inl same ↦ rw (same, h (same_role→eq m.role (role_for_kind kind) same)) refl
  | inr other ↦ rw other refl
]

not_desk : (m : StaffMember) → is_desk m ≡ false → m.role ≢ StaffRole.frontdesk
not_desk m h = λ e. absurd (ground arith)

is_desk-false : (m : StaffMember) → m.role ≢ StaffRole.frontdesk → is_desk m ≡ false
is_desk-false m h = elim (Bool-cases (is_desk m)) [
  | inl desk ↦ absurd (h (same_role→eq m.role StaffRole.frontdesk desk))
  | inr other ↦ other
]

All-DeclinesRound :
    (kind : TaskKind) (villa : Option String) (roster : Roster)
    → round_match roster kind villa ≡ none
    → All (DeclinesRound kind villa) roster.members
All-DeclinesRound kind none roster h = unknown_villa kind roster.members
All-DeclinesRound kind (some w) roster h =
    All-map
      (λ m miss v e.
        subst (λ u. m.role ≡ role_for_kind kind → any (λ x. str_eq x u) m.villas ≡ false)
          (some-injective _ _ e) (declines_round kind w m miss))
      roster.members (find-none-All (on_round kind w) roster.members h)

All-Declines :
    (kind : TaskKind) (villa : Option String) (roster : Roster)
    → round_match roster kind villa ≡ none
    → frontdesk_lead roster ≡ none
    → All (Declines kind villa) roster.members
unfolding frontdesk_lead
All-Declines kind villa roster h k =
    All-both (DeclinesRound kind villa) (λ m. m.role ≢ StaffRole.frontdesk) roster.members
      (All-DeclinesRound kind villa roster h)
      (All-map not_desk roster.members (find-none-All is_desk roster.members k))

Declines-round_match :
    (kind : TaskKind) (villa : Option String) (roster : Roster)
    → All (Declines kind villa) roster.members
    → round_match roster kind villa ≡ none
Declines-round_match kind none roster h = refl
Declines-round_match kind (some w) roster h =
    All-find-none (on_round kind w) roster.members
      (All-map (λ m declined. off_round kind w m (declined.0 w refl)) roster.members h)

Declines-frontdesk_lead :
    (kind : TaskKind) (villa : Option String) (roster : Roster)
    → All (Declines kind villa) roster.members
    → frontdesk_lead roster ≡ none
unfolding frontdesk_lead
Declines-frontdesk_lead kind villa roster h =
    All-find-none is_desk roster.members
      (All-map (λ m declined. is_desk-false m declined.1) roster.members h)

-- Nobody is assigned exactly when no member of the roster works at the front desk, none who has the
-- role for this kind of card has the villa on the round (nobody has, where the villa is unknown),
-- and there is no ops number: a card is never dropped while any of them could take it.
pub assign_for-eq-none_iff :
    (roster : Roster) (kind : TaskKind) (villa : Option String)
    → (assign_for roster kind villa ≡ none)
      ↔ (All (Declines kind villa) roster.members × (roster.ops_numbers ≡ []))
unfolding assign_for
assign_for-eq-none_iff roster kind villa = (
  λ h.
      let off : round_match roster kind villa ≡ none = ground arith in
      let away : frontdesk_lead roster ≡ none = ground arith in
      let nobody : roster.ops_numbers ≡ [] = ground arith in
      (All-Declines kind villa roster off away, nobody),
  λ (declined, nobody).
      rw
        (
          Declines-round_match kind villa roster declined,
          Declines-frontdesk_lead kind villa roster declined,
          nobody,
        )
        refl,
)
