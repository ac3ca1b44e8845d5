-- ===== src/Stays/Stages.antt =====
-- What a described stay guarantees, and how the stage of a guest and the stays that are rendered
-- agree (project, deriveStage, selectStays).
use mathlib.Core.Path.{subst}
use mathlib.Core.List.{Memᴰ}
use nistula_assistance.Prelude.{
  ℕ, sym, ap, ◌∙◌, eq_iff, ltb, codes_eq, codes_eq_refl, ◌≤◌, ◌≡◌, ◌≢◌, ◌⊎◌, inl, inr, refl, Option,
  some, none, List, [], ◌∷◌, ◌++◌, Bool, true, false, arith, any, take, head?, select_where,
  select_where-All, All, if◌then◌else◌, Bool-cases,
}
use nistula_assistance.Clock.{Day}
use nistula_assistance.Clock.DayText.{day_leb}
use nistula_assistance.Lifecycle.{BookingMirror, BookingStatus}
use nistula_assistance.Stays.{
  DescribedStay, StayView, described, is_describable_status, is_live_booking, is_sibling,
  room_count, reference_base, all_digits, some_digits, describe, project, project_dated, Stage,
  lead, prearrival, inhouse, postguest, describable, is_active, is_upcoming, is_past, derive_stage,
  sort_in, sort, select_stays,
}

-- A booking that may be put into words, and what the words are made of.
pub record IsSpeakable (row : BookingMirror) (siblings : List BookingMirror) (today : Day)
    (s : DescribedStay) : Type 0 where
  pub of_this_booking : s.booking_id ≡ row.id
  pub not_cancelled : row.status ≢ BookingStatus.cancelled
  pub not_absent : row.status ≢ BookingStatus.no_show
  pub not_unknown : row.status ≢ BookingStatus.unknown
  pub arrives : row.check_in ≡ some s.check_in
  pub leaves : row.check_out ≡ some s.check_out
  pub one_room : row.rooms ≤ 1
  pub alone :
      (base d d' : List ℕ) (other : BookingMirror)
      → some_digits d ≡ true
      → some_digits d' ≡ true
      → row.ezee_reservation_no ≡ base ++ b'-' ∷ d
      → other.ezee_reservation_no ≡ base ++ b'-' ∷ d'
      → Memᴰ other siblings
      → other.id ≡ row.id
  pub names_the_type : s.villa ≡ row.room_type_name
  pub names_no_house : s.is_unit ≡ false
  pub still_live : s.live ≡ is_live_booking row today

all_digits-dash : (s d : List ℕ) → all_digits (s ++ b'-' ∷ d) ≡ false
all_digits-dash [] d = refl
all_digits-dash (c ∷ s) d = rw (all_digits-dash s d) (ground arith)

some_digits-dash : (s d : List ℕ) → some_digits (s ++ b'-' ∷ d) ≡ false
some_digits-dash [] d = refl
some_digits-dash (c ∷ s) d = all_digits-dash (c ∷ s) d

-- A number with the suffix of a room has the number before it as its base.
reference_base-suffixed :
    (base d : List ℕ) → some_digits d ≡ true → reference_base (base ++ b'-' ∷ d) ≡ base
unfolding reference_base
reference_base-suffixed [] d h = rw h refl
reference_base-suffixed (c ∷ base) d h =
    rw (some_digits-dash base d, reference_base-suffixed base d h) (ground arith)

not_sibling :
    (row other : BookingMirror)
    → is_sibling row other ≡ false
    → reference_base other.ezee_reservation_no ≡ reference_base row.ezee_reservation_no
    → other.id ≡ row.id
not_sibling row other h e = (eq_iff other.id row.id).0 (
    ground (
      arith,
      h,
      ap (codes_eq (reference_base other.ezee_reservation_no)) e,
      codes_eq_refl (reference_base other.ezee_reservation_no),
    ))

any-Mem :
    (p : BookingMirror → Bool) (rows : List BookingMirror) (r : BookingMirror)
    → any p rows ≡ false
    → Memᴰ r rows
    → p r ≡ false
any-Mem p [] r h m = elim m [ ]
any-Mem p (x ∷ rows) r h (Memᴰ.head e) = rw e (ground arith)
any-Mem p (x ∷ rows) r h (Memᴰ.tail m) = any-Mem p rows r (ground arith) m

described-injective : (s t : DescribedStay) → described s ≡ described t → s ≡ t
described-injective s t h = ground arith

alone_of :
    (row : BookingMirror) (siblings : List BookingMirror)
    → any (is_sibling row) siblings ≡ false
    → (base d d' : List ℕ) (other : BookingMirror) → some_digits d ≡ true
    → some_digits d' ≡ true
    → row.ezee_reservation_no ≡ base ++ b'-' ∷ d
    → other.ezee_reservation_no ≡ base ++ b'-' ∷ d'
    → Memᴰ other siblings
    → other.id ≡ row.id
alone_of row siblings h base d d' other k k' e e' m =
    not_sibling row other (any-Mem (is_sibling row) siblings other h m) (
      ap reference_base e'
      ∙ reference_base-suffixed base d' k'
      ∙ sym (ap reference_base e ∙ reference_base-suffixed base d k))

few_rooms : (row : BookingMirror) → ltb 1 (room_count row) ≡ false → row.rooms ≤ 1
unfolding room_count
few_rooms row h = ground (arith, h)

project_dated-IsSpeakable :
    (row : BookingMirror) (siblings : List BookingMirror) (today : Day) (from to : Option Day)
    (s : DescribedStay)
    → is_describable_status row.status ≡ true
    → row.check_in ≡ from
    → row.check_out ≡ to
    → project_dated row siblings today from to ≡ described s
    → IsSpeakable row siblings today s
project_dated-IsSpeakable row siblings today none to s d i o h = absurd (ground arith)
project_dated-IsSpeakable row siblings today (some i) none s d hi ho h = absurd (ground arith)
project_dated-IsSpeakable row siblings today (some i) (some o) s d hi ho h =
    elim (Bool-cases (ltb 1 (room_count row))) [
      | inl many ↦ absurd (ground arith)
      | inr few ↦ elim (Bool-cases (any (is_sibling row) siblings)) [
        | inl shared ↦ absurd (ground arith)
        | inr single ↦
            subst (IsSpeakable row siblings today)
              (described-injective (describe row siblings today i o) s
                (sym (rw (few, single) refl) ∙ h))
              (record {
                of_this_booking = refl;
                not_cancelled = λ e. absurd (ground arith);
                not_absent = λ e. absurd (ground arith);
                not_unknown = λ e. absurd (ground arith);
                arrives = hi;
                leaves = ho;
                one_room = few_rooms row few;
                alone = alone_of row siblings single;
                names_the_type = refl;
                names_no_house = refl;
                still_live = refl;
              })
      ]
    ]

-- A booking is described only if it is not cancelled, a no-show or of an unknown status, both its
-- dates are there and it is one room; where its number has the suffix of a room, no other booking put
-- beside it is numbered as a room of the same reservation. The description is of those dates, names
-- the villa type and never a house, and is live as its status and check-out say.
pub project-IsSpeakable :
    (row : BookingMirror) (siblings : List BookingMirror) (today : Day) (s : DescribedStay)
    → project row siblings today ≡ described s
    → IsSpeakable row siblings today s
unfolding project
project-IsSpeakable row siblings today s h = elim (Bool-cases (is_describable_status row.status)) [
  | inl d ↦
      project_dated-IsSpeakable row siblings today row.check_in row.check_out s d refl refl
        (ground arith)
  | inr d ↦ absurd (ground arith)
]

module _ (P : DescribedStay → Type 0) where
  All-select_where :
      (p : DescribedStay → Bool) (ss : List DescribedStay) → All P ss → All P (select_where p ss)
  unfolding select_where
  All-select_where p [] h = tt
  All-select_where p (s ∷ ss) (h, hs) = ground (arith, All-select_where p ss hs)

  module _ (before : DescribedStay → DescribedStay → Bool) where
    All-sort_in :
        (s : DescribedStay) (ts : List DescribedStay) → P s → All P ts → All P (sort_in before s ts)
    unfolding sort_in
    All-sort_in s [] h hs = (h, tt)
    All-sort_in s (t ∷ ts) h (k, ks) = ground (arith, All-sort_in s ts h ks)

    All-sort : (ss : List DescribedStay) → All P ss → All P (sort before ss)
    unfolding sort
    All-sort [] h = tt
    All-sort (s ∷ ss) (h, hs) = All-sort_in s (sort before ss) h (All-sort ss hs)

any-select_where :
    (p : DescribedStay → Bool) (ss : List DescribedStay)
    → (any p ss ≡ false) ⊎ ((any p ss ≡ true) × (select_where p ss ≢ []))
unfolding select_where
any-select_where p [] = inl refl
any-select_where p (s ∷ ss) = ground (arith, any-select_where p ss)

none_selected :
    (p : DescribedStay → Bool) (ss : List DescribedStay)
    → any p ss ≡ false
    → All (λ s. p s ≡ false) ss
none_selected p [] h = tt
none_selected p (s ∷ ss) h = (ground arith, none_selected p ss (ground arith))

select_where_none :
    (p : DescribedStay → Bool) (ss : List DescribedStay) → any p ss ≡ false → select_where p ss ≡ []
unfolding select_where
select_where_none p [] h = refl
select_where_none p (s ∷ ss) h = ground (arith, select_where_none p ss)

sort_in-≢ :
    (before : DescribedStay → DescribedStay → Bool) (s : DescribedStay) (ts : List DescribedStay)
    → sort_in before s ts ≢ []
unfolding sort_in
sort_in-≢ before s [] = λ e. absurd (ground arith)
sort_in-≢ before s (t ∷ ts) = λ e. absurd (ground arith)

sort-≢ :
    (before : DescribedStay → DescribedStay → Bool) (ss : List DescribedStay)
    → ss ≢ []
    → sort before ss ≢ []
unfolding sort
sort-≢ before [] h = λ e. h refl
sort-≢ before (s ∷ ss) h = sort_in-≢ before s (sort before ss)

-- The stage that a first stay stands for.
abbrev pub stage_of_first : Option DescribedStay → Day → Stage
stage_of_first none today = lead
stage_of_first (some s) today =
    if is_active today s then inhouse else if is_upcoming today s then prearrival else postguest

abbrev Leads : (DescribedStay → Type 0) → List DescribedStay → Type 0
Leads P ss = (s : DescribedStay) × (head? (take 3 ss) ≡ some s) × P s

head-take :
    (P : DescribedStay → Type 0) (ss rest : List DescribedStay)
    → ss ≢ []
    → All P ss
    → Leads P (ss ++ rest)
head-take P [] rest h hs = absurd (h refl)
head-take P (s ∷ ss) rest h (k, ks) = (s, refl, k)

head-take_last :
    (P : DescribedStay → Type 0) (ss : List DescribedStay) → ss ≢ [] → All P ss → Leads P ss
head-take_last P [] h hs = absurd (h refl)
head-take_last P (s ∷ ss) h (k, ks) = (s, refl, k)

module _ (today : Day) (stays : List DescribedStay) where
  abbrev earlier_in : DescribedStay → DescribedStay → Bool
  earlier_in a b = day_leb a.check_in b.check_in

  abbrev later_out : DescribedStay → DescribedStay → Bool
  later_out a b = day_leb b.check_out a.check_out

  abbrev actives : List DescribedStay
  actives = select_where (is_active today) stays

  abbrev upcomings : List DescribedStay
  upcomings = sort earlier_in (select_where (is_upcoming today) stays)

  abbrev pasts : List DescribedStay
  pasts = sort later_out (select_where (is_past today) stays)

  Leads-past :
      any (is_active today) stays ≡ false
      → any (is_upcoming today) stays ≡ false
      → select_where (is_past today) stays ≢ []
      → Leads (λ s. (is_active today s ≡ false) × (is_upcoming today s ≡ false)) pasts
  Leads-past a u h =
      let P : DescribedStay → Type 0 =
        λ s. (is_active today s ≡ false) × (is_upcoming today s ≡ false) in
      head-take_last P pasts (sort-≢ later_out _ h) (
        All-sort P later_out (select_where (is_past today) stays) (
          All-select_where P (is_past today) stays (
            both stays (none_selected (is_active today) stays a)
              (none_selected (is_upcoming today) stays u))))
    where
      both :
          (ss : List DescribedStay)
          → All (λ s. is_active today s ≡ false) ss
          → All (λ s. is_upcoming today s ≡ false) ss
          → All (λ s. (is_active today s ≡ false) × (is_upcoming today s ≡ false)) ss
      both [] h k = tt
      both (s ∷ ss) (h, hs) (k, ks) = ((h, k), both ss hs ks)

  Leads-upcoming :
      select_where (is_upcoming today) stays ≢ []
      → Leads (λ s. is_upcoming today s ≡ true) (upcomings ++ pasts)
  Leads-upcoming h =
      head-take (λ s. is_upcoming today s ≡ true) upcomings pasts (sort-≢ earlier_in _ h)
        (All-sort (λ s. is_upcoming today s ≡ true) earlier_in
          (select_where (is_upcoming today) stays) (select_where-All (is_upcoming today) stays))

  Leads-active :
      actives ≢ [] → Leads (λ s. is_active today s ≡ true) (actives ++ (upcomings ++ pasts))
  Leads-active h =
      head-take (λ s. is_active today s ≡ true) actives (upcomings ++ pasts) h
        (select_where-All (is_active today) stays)

  upcoming_not_active : (s : DescribedStay) → is_upcoming today s ≡ true → is_active today s ≡ false
  upcoming_not_active s h = ground arith

-- The stage of a guest is that of the first stay which is put before the model: an active one means
-- in the house, one to come before arrival, a past one departed, and with no stay to show the guest
-- is a lead.
pub derive_stage-select_stays :
    (views : List StayView) (today : Day)
    → derive_stage views today ≡ stage_of_first (head? (select_stays views today)) today
unfolding derive_stage select_stays
derive_stage-select_stays views today =
    let stays = describable views in
    elim (any-select_where (is_active today) stays) [
      | inr (a, some_active) ↦
          let (s, first, active) = Leads-active today stays some_active in ground (arith, first)
      | inl a ↦ elim (any-select_where (is_upcoming today) stays) [
        | inr (u, some_upcoming) ↦
            let (s, first, upcoming) = Leads-upcoming today stays some_upcoming in
            rw
              (
                a,
                u,
                select_where_none (is_active today) stays a,
                first,
                upcoming,
                upcoming_not_active today stays s upcoming,
              )
              refl
        | inl u ↦ elim (any-select_where (is_past today) stays) [
          | inr (p, some_past) ↦
              let (s, first, (inactive, elsewhen)) = Leads-past today stays a u some_past in
              rw
                (
                  a,
                  u,
                  p,
                  select_where_none (is_active today) stays a,
                  select_where_none (is_upcoming today) stays u,
                  first,
                  inactive,
                  elsewhen,
                )
                refl
          | inl p ↦
              rw
                (
                  a,
                  u,
                  p,
                  select_where_none (is_active today) stays a,
                  select_where_none (is_upcoming today) stays u,
                  select_where_none (is_past today) stays p,
                )
                refl
        ]
      ]
    ]
