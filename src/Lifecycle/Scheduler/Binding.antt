-- ===== src/Lifecycle/Scheduler/Binding.antt =====
-- Who the messages of a booking go to once it is scheduled (upsertGuestFromBooking and the loop over
-- the plan in scheduleForBooking).
use mathlib.Core.List.{Memᴰ}
use nistula_assistance.Lifecycle.Guests.{
  upsert_guest_from_booking, guest_or_new, phone_guard, name_guest, new_guest,
}
use nistula_assistance.Prelude.{
  ℕ, ◌≡◌, inl, inr, refl, String, Option, List, [], ◌∷◌, ◌++◌, true, false, arith, All, any,
  update_where, returning, Bool-cases, codes_eq, codes_eq→eq, sym, ap, ◌∙◌, All-append,
}
use nistula_assistance.Lifecycle.{BookingMirror, Guest, is_pending}
use nistula_assistance.Lifecycle.Writes.{
  ScheduledTable, DedupeKey, same_key, Upsert, upsert, upsert_guard, upsert_row, fresh_row,
}
use nistula_assistance.Lifecycle.Plan.{PlannedSend, first_name_from_name}
use nistula_assistance.Lifecycle.Scheduler.{
  SchedulerDeps, Board, upsert_of, upsert_all, schedule_plan, or_blank,
}

-- Every pending row of a key goes to a guest.
abbrev pub IsBound : String → DedupeKey → ScheduledTable → Type 0
IsBound guest key rows =
    All (λ r. same_key r.dedupe_key key ≡ true → is_pending r.status ≡ true → r.guest_id ≡ guest)
      rows

module _ (stamp : ℕ) (u : Upsert) where
  update-IsBound :
      (key : DedupeKey) (rows : ScheduledTable)
      → IsBound u.guest_id key rows
      → IsBound u.guest_id key (update_where (upsert_guard u.dedupe_key) (upsert_row stamp u) rows)
  unfolding update_where
  update-IsBound key [] h = tt
  update-IsBound key (r ∷ rows) (h, hs) = ((λ k p. ground (arith, h)), update-IsBound key rows hs)

  update_own-IsBound :
      (rows : ScheduledTable)
      → IsBound u.guest_id u.dedupe_key
          (update_where (upsert_guard u.dedupe_key) (upsert_row stamp u) rows)
  unfolding update_where
  update_own-IsBound [] = tt
  update_own-IsBound (r ∷ rows) = ((λ k p. ground arith), update_own-IsBound rows)

  none-IsBound :
      (rows : ScheduledTable)
      → any (λ r. same_key r.dedupe_key u.dedupe_key) rows ≡ false
      → IsBound u.guest_id u.dedupe_key rows
  none-IsBound [] h = tt
  none-IsBound (r ∷ rows) h = ((λ k p. absurd (ground arith)), none-IsBound rows (ground arith))

  fresh-IsBound :
      (key : DedupeKey) (rows : ScheduledTable)
      → IsBound u.guest_id key rows
      → IsBound u.guest_id key (rows ++ fresh_row stamp u ∷ [])
  fresh-IsBound key rows h = All-append _ rows (fresh_row stamp u ∷ []) h ((λ k p. refl), tt)

  upsert-IsBound :
      (key : DedupeKey) (rows : ScheduledTable)
      → IsBound u.guest_id key rows
      → IsBound u.guest_id key (upsert stamp u rows)
  unfolding upsert
  upsert-IsBound key rows h =
      elim (Bool-cases (any (λ r. same_key r.dedupe_key u.dedupe_key) rows)) [
        | inl taken ↦ rw taken (update-IsBound key rows h)
        | inr fresh ↦ rw fresh (fresh-IsBound key rows h)
      ]

  upsert_own-IsBound :
      (rows : ScheduledTable) → IsBound u.guest_id u.dedupe_key (upsert stamp u rows)
  unfolding upsert
  upsert_own-IsBound rows = elim (Bool-cases (any (λ r. same_key r.dedupe_key u.dedupe_key) rows)) [
    | inl taken ↦ rw taken (update_own-IsBound rows)
    | inr fresh ↦ rw fresh (fresh-IsBound u.dedupe_key rows (none-IsBound rows fresh))
  ]

module _ (deps : SchedulerDeps) (row : BookingMirror) (guest : Guest) where
  later-IsBound :
      (key : DedupeKey) (plan : List PlannedSend) (rows : ScheduledTable)
      → IsBound guest.id key rows
      → IsBound guest.id key (upsert_all deps row guest plan rows)
  unfolding upsert_all
  later-IsBound key [] rows h = h
  later-IsBound key (s ∷ plan) rows h =
      later-IsBound key plan _ (upsert-IsBound deps.stamp (upsert_of deps row guest s) key rows h)

  upsert_all-IsBound :
      (plan : List PlannedSend) (rows : ScheduledTable)
      → All (λ s. IsBound guest.id s.dedupe_key (upsert_all deps row guest plan rows)) plan
  unfolding upsert_all
  upsert_all-IsBound [] rows = tt
  upsert_all-IsBound (s ∷ plan) rows =
      let rows' = upsert deps.stamp (upsert_of deps row guest s) rows in
      (
        later-IsBound s.dedupe_key plan rows'
            (upsert_own-IsBound deps.stamp (upsert_of deps row guest s) rows),
        upsert_all-IsBound plan rows',
      )

-- The guest that an upsert by phone returns is in the table, with that phone.
returning-head :
    (phone : List ℕ) (name : Option (List ℕ)) (guests : List Guest) (g : Guest) (more : List Guest)
    → returning (phone_guard phone) (name_guest name) guests ≡ g ∷ more
    → Memᴰ g (update_where (phone_guard phone) (name_guest name) guests) × (g.phone ≡ phone)
unfolding returning update_where
returning-head phone name [] g more h = absurd (ground arith)
returning-head phone name (x ∷ guests) g more h = elim (Bool-cases (codes_eq x.phone phone)) [
  | inl hit ↦
      let same : name_guest name x ≡ g = ground arith in
      let dialled : x.phone ≡ phone = codes_eq→eq x.phone phone hit in
      (rw hit (Memᴰ.head (sym same)), sym (ap (λ y. y.phone) same) ∙ dialled)
  | inr miss ↦
      let (m, dialled) = returning-head phone name guests g more (ground arith) in
      (rw miss (Memᴰ.tail m), dialled)
]

last-Mem : (g : Guest) (guests : List Guest) → Memᴰ g (guests ++ g ∷ [])
last-Mem g [] = Memᴰ.head refl
last-Mem g (x ∷ guests) = Memᴰ.tail (last-Mem g guests)

guest_or_new-known :
    (fresh : Guest) (phone : List ℕ) (guests updated returned : List Guest)
    → fresh.phone ≡ phone
    → ((g : Guest) (more : List Guest) → returned ≡ g ∷ more → Memᴰ g updated × (g.phone ≡ phone))
    → Memᴰ
        (guest_or_new fresh guests updated returned).1
        (guest_or_new fresh guests updated returned).0
      × ((guest_or_new fresh guests updated returned).1.phone ≡ phone)
guest_or_new-known fresh phone guests updated [] e h = (last-Mem fresh guests, e)
guest_or_new-known fresh phone guests updated (g ∷ more) e h = h g more refl

pub upsert_guest_known :
    (uuid : String) (phone : List ℕ) (name : Option (List ℕ)) (guests : List Guest)
    → let (guests', g) = upsert_guest_from_booking uuid phone name guests in
      Memᴰ g guests' × (g.phone ≡ phone)
unfolding upsert_guest_from_booking
upsert_guest_known uuid phone name guests =
    guest_or_new-known (new_guest uuid phone name) phone guests
      (update_where (phone_guard phone) (name_guest name) guests)
      (returning (phone_guard phone) (name_guest name) guests) refl
      (returning-head phone name guests)

-- Once a plan is scheduled there is a guest with the booking's phone, and every pending message
-- under a key of the plan goes to that guest, whoever it was bound to before: correcting a phone
-- number in the booking moves its messages to the corrected number.
pub schedule_plan-IsBound :
    (deps : SchedulerDeps) (row : BookingMirror) (plan : List PlannedSend) (b : Board)
    → let b' = (schedule_plan deps row plan b).0 in
      (g : Guest) × Memᴰ g b'.db.guests
      × (g.phone ≡ or_blank row.guest_phone)
      × All (λ s. IsBound g.id s.dedupe_key b'.db.scheduled) plan
unfolding schedule_plan
schedule_plan-IsBound deps row plan b =
    let name = first_name_from_name row.guest_name in
    let (guests, g) =
      upsert_guest_from_booking deps.guest_uuid (or_blank row.guest_phone) name b.db.guests in
    let (known, dialled) =
      upsert_guest_known deps.guest_uuid (or_blank row.guest_phone) name b.db.guests in
    (g, known, dialled, upsert_all-IsBound deps row g plan _)
