-- ===== src/Drafts/Decisions.antt =====
-- A draft is decided once: two approvals, a replay and the sweep of the expired race for it, and one
-- of them at most is given the row (claimDraftDecision, expireStaleDrafts).
use nistula_assistance.Prelude.{
  ◌++◌, ◌&&◌, not, zero, suc, sym, ap, head?, update_where, returning, codes_eq→eq, ℕ, ◌+◌, ◌≤◌,
  ◌≡◌, inl, inr, refl, String, Option, some, none, List, [], ◌∷◌, Bool, true, false, arith, ◌∙◌,
  any, codes_eq, get_elem?, get_elem?-update_where, get_elem?-append, Bool-cases, if◌then◌else◌,
}
use nistula_assistance.Drafts.{
  Draft, DraftTable, DraftDecision, NewDraft, is_pending, new_draft, insert_draft, decision_guard,
  decide, claim_draft_decision, stale_guard, expire, expire_stale_drafts,
}

-- A step of a history: a decision, a sweep, or the insert of a new draft.
pub data Step : Type 0 where
  decision : ℕ → List ℕ → DraftDecision → String → ℕ → Option String → Step
  sweep : ℕ → ℕ → Step
  proposal : String → List ℕ → ℕ → NewDraft → Step

abbrev pub table_or : Option DraftTable → DraftTable → DraftTable
table_or none old = old
table_or (some rows) old = rows

unfoldable pub run_step : Step → DraftTable → DraftTable
unfolding claim_draft_decision expire_stale_drafts insert_draft
run_step (decision stamp short_id d by now body) rows =
    (claim_draft_decision stamp short_id d by now body rows).0
run_step (sweep stamp cutoff) rows = (expire_stale_drafts stamp cutoff rows).0
run_step (proposal row_id short_id now input) rows =
    table_or (insert_draft row_id short_id now input rows) rows

unfoldable pub run_steps : List Step → DraftTable → DraftTable
unfolding run_step
run_steps [] rows = rows
run_steps (s ∷ steps) rows = run_steps steps (run_step s rows)

-- Whether the guard of a step takes a draft.
abbrev pub takes : Step → Draft → Bool
takes (decision stamp short_id d by now body) draft = decision_guard short_id draft
takes (sweep stamp cutoff) draft = stale_guard cutoff draft
takes (proposal row_id short_id now input) draft = false

abbrev pub resolved : Step → Draft → Draft
resolved (decision stamp short_id d by now body) draft = decide stamp d by now body draft
resolved (sweep stamp cutoff) draft = expire stamp draft
resolved (proposal row_id short_id now input) draft = draft

abbrev pub to_list : Option Draft → List Draft
to_list none = []
to_list (some d) = d ∷ []

-- The drafts that a step hands to its caller.
unfoldable pub returned : Step → DraftTable → List Draft
unfolding claim_draft_decision expire_stale_drafts
returned (decision stamp short_id d by now body) rows =
    to_list ((claim_draft_decision stamp short_id d by now body rows).1)
returned (sweep stamp cutoff) rows = (expire_stale_drafts stamp cutoff rows).1
returned (proposal row_id short_id now input) rows = []

abbrev pub has_short_id : List ℕ → Draft → Bool
has_short_id id d = codes_eq d.short_id id

-- How many drafts carry a short id, and how many of those are decided or expired.
unfoldable pub bearers : List ℕ → List Draft → ℕ
bearers id [] = 0
bearers id (d ∷ rows) = let rest = bearers id rows in if has_short_id id d then suc rest else rest

unfoldable pub settled_bearers : List ℕ → List Draft → ℕ
settled_bearers id [] = 0
settled_bearers id (d ∷ rows) =
    let rest = settled_bearers id rows in
    if has_short_id id d && not (is_pending d.status) then suc rest else rest

-- How often a history hands the draft of a short id to a caller.
unfoldable pub resolutions : List ℕ → List Step → DraftTable → ℕ
unfolding returned bearers run_step
resolutions id [] rows = 0
resolutions id (s ∷ steps) rows =
    bearers id (returned s rows) + resolutions id steps (run_step s rows)

takes-is_pending : (s : Step) (d : Draft) → takes s d ≡ true → is_pending d.status ≡ true
takes-is_pending (decision stamp short_id e by now body) d h = ground arith
takes-is_pending (sweep stamp cutoff) d h = ground arith
takes-is_pending (proposal row_id short_id now input) d h = absurd (ground arith)

resolved-is_pending :
    (s : Step) (d : Draft) → takes s d ≡ true → is_pending (resolved s d).status ≡ false
resolved-is_pending (decision stamp short_id DraftDecision.ok by now body) d h = refl
resolved-is_pending (decision stamp short_id DraftDecision.edit by now body) d h = refl
resolved-is_pending (decision stamp short_id DraftDecision.no_send by now body) d h = refl
resolved-is_pending (sweep stamp cutoff) d h = refl
resolved-is_pending (proposal row_id short_id now input) d h = absurd (ground arith)

get_elem?-table_or :
    (o : Option DraftTable) (rows : DraftTable) (i : ℕ) (d : Draft)
    → ((rows' : DraftTable) → o ≡ some rows' → get_elem? rows' i ≡ some d)
    → get_elem? rows i ≡ some d
    → get_elem? (table_or o rows) i ≡ some d
get_elem?-table_or none rows i d k h = h
get_elem?-table_or (some rows') rows i d k h = k rows' refl

-- A step leaves each draft in its place, resolved exactly if the step gets it.
get_elem?-run_step :
    (s : Step) (rows : DraftTable) (i : ℕ) (d : Draft)
    → get_elem? rows i ≡ some d
    → get_elem? (run_step s rows) i ≡ some (if takes s d then resolved s d else d)
unfolding run_step
get_elem?-run_step (decision stamp short_id e by now body) rows i d h =
    get_elem?-update_where (decision_guard short_id) (decide stamp e by now body) rows i d h
get_elem?-run_step (sweep stamp cutoff) rows i d h =
    get_elem?-update_where (stale_guard cutoff) (expire stamp) rows i d h
get_elem?-run_step (proposal row_id short_id now input) rows i d h =
    elim (Bool-cases (any (λ x. codes_eq x.short_id short_id) rows)) [
      | inl taken ↦ rw taken h
      | inr fresh ↦
          rw fresh (get_elem?-append rows (new_draft row_id short_id now input ∷ []) i d h)
    ]

module _ (p : Draft → Bool) (f : Draft → Draft) (id : List ℕ)
    (kept : (d : Draft) → (f d).short_id ≡ d.short_id) where
  bearers-update : (rows : DraftTable) → bearers id (update_where p f rows) ≡ bearers id rows
  unfolding bearers update_where
  bearers-update [] = refl
  bearers-update (d ∷ rows) = ground (arith, kept d, bearers-update rows)

  -- Each row that is returned was pending, and is settled afterwards.
  settled_bearers-update :
      (rows : DraftTable)
      → ((d : Draft) → p d ≡ true → is_pending d.status ≡ true)
      → ((d : Draft) → is_pending (f d).status ≡ false)
      → bearers id (returning p f rows) + settled_bearers id rows
        ≤ settled_bearers id (update_where p f rows)
  unfolding settled_bearers bearers update_where returning
  settled_bearers-update [] was is = omega arith
  settled_bearers-update (d ∷ rows) was is =
      ground (arith, kept d, was d, is d, settled_bearers-update rows was is)

bearers-head :
    (id : List ℕ) (rows : List Draft) → bearers id (to_list (head? rows)) ≤ bearers id rows
unfolding bearers
bearers-head id [] = omega arith
bearers-head id (d ∷ rows) = ground arith

settled_bearers-le : (id : List ℕ) (rows : DraftTable) → settled_bearers id rows ≤ bearers id rows
unfolding settled_bearers bearers
settled_bearers-le id [] = omega arith
settled_bearers-le id (d ∷ rows) = ground (arith, settled_bearers-le id rows)

bearers-append :
    (id : List ℕ) (rows : DraftTable) (d : Draft)
    → bearers id (rows ++ d ∷ []) ≡ bearers id rows + (if has_short_id id d then 1 else 0)
unfolding bearers
bearers-append id [] d = ground arith
bearers-append id (x ∷ rows) d = ground (arith, bearers-append id rows d)

settled_bearers-append :
    (id : List ℕ) (rows : DraftTable) (d : Draft)
    → settled_bearers id rows ≤ settled_bearers id (rows ++ d ∷ [])
unfolding settled_bearers
settled_bearers-append id [] d = omega arith
settled_bearers-append id (x ∷ rows) d = ground (arith, settled_bearers-append id rows d)

bearers_free :
    (id : List ℕ) (rows : DraftTable) → any (has_short_id id) rows ≡ false → bearers id rows ≡ 0
unfolding bearers
bearers_free id [] h = refl
bearers_free id (d ∷ rows) h = ground (arith, bearers_free id rows)

-- A step keeps the short id unique, and what it hands out is settled afterwards.
abbrev Accounts : List ℕ → ℕ → DraftTable → DraftTable → Type 0
Accounts id won rows rows' =
    (bearers id rows' ≤ 1) × (won + settled_bearers id rows ≤ settled_bearers id rows')

Accounts-insert :
    (id short_id : List ℕ) (row_id : String) (now : ℕ) (input : NewDraft) (rows : DraftTable)
    → bearers id rows ≤ 1
    → Accounts id 0 rows (table_or (insert_draft row_id short_id now input rows) rows)
unfolding insert_draft new_draft
Accounts-insert id short_id row_id now input rows h =
    let d = new_draft row_id short_id now input in
    elim (Bool-cases (any (has_short_id short_id) rows)) [
      | inl taken ↦ rw taken (h, omega arith)
      | inr fresh ↦ rw fresh (
        elim (Bool-cases (codes_eq short_id id)) [
          | inl same ↦
              let empty : bearers id rows ≡ 0 =
                ap (λ x. bearers x rows) (sym (codes_eq→eq short_id id same))
                ∙ bearers_free short_id rows fresh in
              ground (arith, bearers-append id rows d, empty)
          | inr other ↦ ground (arith, bearers-append id rows d)
        ],
        omega (arith, settled_bearers-append id rows d),
      )
    ]

decide-is_pending :
    (stamp : ℕ) (e : DraftDecision) (by : String) (now : ℕ) (body : Option String) (d : Draft)
    → is_pending (decide stamp e by now body d).status ≡ false
decide-is_pending stamp DraftDecision.ok by now body d = refl
decide-is_pending stamp DraftDecision.edit by now body d = refl
decide-is_pending stamp DraftDecision.no_send by now body d = refl

run_step-Accounts :
    (id : List ℕ) (s : Step) (rows : DraftTable)
    → bearers id rows ≤ 1
    → Accounts id (bearers id (returned s rows)) rows (run_step s rows)
unfolding run_step returned claim_draft_decision expire_stale_drafts bearers settled_bearers
run_step-Accounts id (decision stamp short_id e by now body) rows h =
    let p = decision_guard short_id in
    let f = decide stamp e by now body in
    (
      omega (arith, h, bearers-update p f id (λ d. refl) rows),
      omega (
        arith,
        bearers-head id (returning p f rows),
        settled_bearers-update p f id (λ d. refl) rows (λ d k. ground arith)
            (decide-is_pending stamp e by now body),
      ),
    )
run_step-Accounts id (sweep stamp cutoff) rows h =
    let p = stale_guard cutoff in
    let f = expire stamp in
    (
      omega (arith, h, bearers-update p f id (λ d. refl) rows),
      settled_bearers-update p f id (λ d. refl) rows (λ d k. ground arith) (λ d. refl),
    )
run_step-Accounts id (proposal row_id short_id now input) rows h =
    Accounts-insert id short_id row_id now input rows h

resolutions-le :
    (id : List ℕ) (steps : List Step) (rows : DraftTable)
    → bearers id rows ≤ 1
    → resolutions id steps rows + settled_bearers id rows ≤ 1
unfolding resolutions
resolutions-le id [] rows h = omega (arith, h, settled_bearers-le id rows)
resolutions-le id (s ∷ steps) rows h =
    let (unique, count) = run_step-Accounts id s rows h in
    omega (arith, count, resolutions-le id steps (run_step s rows) unique)

settled_bearers-get_elem? :
    (id : List ℕ) (rows : DraftTable) (i : ℕ) (d : Draft)
    → get_elem? rows i ≡ some d
    → has_short_id id d ≡ true
    → is_pending d.status ≡ false
    → 1 ≤ settled_bearers id rows
unfolding settled_bearers
settled_bearers-get_elem? id [] i d h k l = absurd (ground arith)
settled_bearers-get_elem? id (x ∷ rows) zero d h k l = ground arith
settled_bearers-get_elem? id (x ∷ rows) (suc i) d h k l =
    ground (arith, settled_bearers-get_elem? id rows i d h k l)

run_steps-settled :
    (steps : List Step) (rows : DraftTable) (i : ℕ) (d : Draft)
    → get_elem? rows i ≡ some d
    → is_pending d.status ≡ false
    → get_elem? (run_steps steps rows) i ≡ some d
unfolding run_steps
run_steps-settled [] rows i d h k = h
run_steps-settled (s ∷ steps) rows i d h k =
    let passed : takes s d ≡ false = elim (Bool-cases (takes s d)) [
      | inl hit ↦ absurd (ground (arith, takes-is_pending s d hit))
      | inr miss ↦ miss
    ] in
    run_steps-settled steps (run_step s rows) i d (get_elem?-run_step s rows i d h ∙ rw passed refl)
      k

-- Where at most one draft carries a short id, all the decisions and sweeps of a history together,
-- in any order, hand that draft to at most one caller; once it is approved, edited, rejected or
-- expired they hand it to none, and it keeps every column.
pub resolutions_le_one :
    (id : List ℕ) (steps : List Step) (rows : DraftTable) (i : ℕ) (d : Draft)
    → bearers id rows ≤ 1
    → get_elem? rows i ≡ some d
    → has_short_id id d ≡ true
    → (resolutions id steps rows ≤ 1)
      × (is_pending d.status ≡ false
          → (resolutions id steps rows ≡ 0) × (get_elem? (run_steps steps rows) i ≡ some d))
resolutions_le_one id steps rows i d unique h k = (
  omega (arith, resolutions-le id steps rows unique),
  λ done. (
    omega (
      arith,
      resolutions-le id steps rows unique,
      settled_bearers-get_elem? id rows i d h k done,
    ),
    run_steps-settled steps rows i d h done,
  ),
)
