-- ===== src/Turn/Cursor/Once.antt =====
-- No guest message is answered by two turns, however the runs of a conversation race.
use mathlib.Core.Path.{subst}
use nistula_assistance.Prelude.{
  ℕ, zero, suc, ◌≡◌, inl, inr, refl, sym, ap, ◌∙◌, String, Option, some, none, List, [], ◌∷◌, ◌++◌,
  Bool, true, false, ◌&&◌, arith, str_eq, eq_iff, any, get_elem?, codes, codes_eq, codes_eq_refl,
  All, All-map, All-append, All-both, All-select_where, select_where, select_where-All,
  update_where, returning, Bool-cases, Option-cases,
}
use nistula_assistance.Messages.{Message, MessageTable}
use nistula_assistance.Turn.Cursor.{
  Thread, MessageCursor, cursor_of, is_before, find_message, resolve_message_cursor, is_after,
  is_unprocessed, is_guest_message, get_unprocessed_guest_messages, StatusTransition, pointer_is,
  claim_guard, take_turn, claim_conversation_turn, last?,
}
use nistula_assistance.Turn.Cursor.Order.{
  is_before_trans, Ascends, Distinct, All-order_messages, Distinct-select_where,
  Ascends-order_messages,
}
use nistula_assistance.Turn.Cursor.Races.{
  Run, Race, RaceStep, arrive, wake, claim, read_turn, claim_args, settle_claim, settle_run,
  race_step, run_race, Covers, Resolves, IsRowOf, IsRun, IsFair,
}

find_message-append :
    (id : String) (rows more : MessageTable) (m : Message)
    → find_message id rows ≡ some m
    → find_message id (rows ++ more) ≡ some m
unfolding select_where
find_message-append id [] more m h = absurd (ground arith)
find_message-append id (r ∷ rows) more m h = elim (Bool-cases (str_eq r.id id)) [
  | inl hit ↦ ground arith
  | inr miss ↦ ground (arith, find_message-append id rows more m)
]

Resolves-append :
    (pointer : Option String) (rows more : MessageTable) (cursor : Option MessageCursor)
    → Resolves pointer rows cursor
    → Resolves pointer (rows ++ more) cursor
unfolding resolve_message_cursor
Resolves-append none rows more cursor h = h
Resolves-append (some id) rows more cursor (h, k) = elim (Option-cases (find_message id rows)) [
  | inl e ↦ absurd (ground (arith, e))
  | inr (m, e) ↦
      let e' = find_message-append id rows more m e in
      (ground (arith, e, e'), ground (arith, e, e'))
]

IsRun-append : (rows more : MessageTable) (r : Run) → IsRun rows r → IsRun (rows ++ more) r
IsRun-append rows more r h = record {
  read_at = Resolves-append r.expected rows more r.cursor h.read_at;
  ascends = h.ascends;
  past = h.past;
  known = All-map (λ m. find_message-append m.id rows more m) r.batch h.known;
}

find_message-miss :
    (m : Message) (rows : MessageTable) (s : Message)
    → codes_eq (codes s.id) (codes m.id) ≡ false
    → find_message s.id rows ≡ some s
    → find_message s.id (m ∷ rows) ≡ some s
unfolding select_where
find_message-miss m rows s h k = elim (Bool-cases (str_eq m.id s.id)) [
  | inl hit ↦
      let same : m.id ≡ s.id = (eq_iff m.id s.id).0 hit in
      let equal : codes_eq (codes s.id) (codes m.id) ≡ true =
        ap (λ t. codes_eq (codes s.id) (codes t)) same ∙ codes_eq_refl (codes s.id) in
      absurd (ground (arith, equal))
  | inr miss ↦ rw miss k
]

find_message-hit : (m : Message) (rows : MessageTable) → find_message m.id (m ∷ rows) ≡ some m
unfolding select_where
find_message-hit m rows = rw ((eq_iff m.id m.id).1 refl) refl

-- With a primary key each row is found under its id.
IsRowOf-Distinct : (rows : MessageTable) → Distinct rows → All (IsRowOf rows) rows
IsRowOf-Distinct [] d = tt
IsRowOf-Distinct (m ∷ rows) (d, ds) = (
  find_message-hit m rows,
  All-map (λ s h. find_message-miss m rows s h.0 h.1) rows
      (All-both _ (IsRowOf rows) rows d (IsRowOf-Distinct rows ds)),
)

and_right : (a b : Bool) → (a && b) ≡ true → b ≡ true
and_right a b h = ground arith

IsRun-read_turn :
    (thread : Thread) (rows : MessageTable) (cursor : Option MessageCursor)
    → Distinct rows
    → Resolves thread.last_processed_message_id rows cursor
    → IsRun rows (read_turn thread rows)
unfolding read_turn get_unprocessed_guest_messages
IsRun-read_turn thread rows cursor d (h, k) =
    let at = (resolve_message_cursor thread.last_processed_message_id rows).0 in
    let chosen = select_where (is_unprocessed thread.id at) rows in
    record {
      read_at = (refl, k);
      ascends =
          Ascends-order_messages chosen
            (Distinct-select_where (is_unprocessed thread.id at) rows d);
      past = All-order_messages _ chosen (
          All-map (λ m. and_right (is_guest_message thread.id m) (is_after at m)) chosen
            (select_where-All (is_unprocessed thread.id at) rows));
      known = All-order_messages (IsRowOf rows) chosen (
          All-select_where (IsRowOf rows) (is_unprocessed thread.id at) rows
            (IsRowOf-Distinct rows d));
    }

-- The newest of a batch, with all that it covers.
last?-Covers :
    (batch : List Message) (newest : Message)
    → last? batch ≡ some newest
    → Ascends batch
    → All (Covers (some (cursor_of newest))) batch
last?-Covers [] newest h a = tt
last?-Covers (m ∷ []) newest h a =
    let e : m ≡ newest = ground arith in ((λ b k. ap (λ r. is_before (cursor_of r) b) e ∙ k), tt)
last?-Covers (m ∷ r ∷ rows) newest h ((a, as'), more) =
    let rest = last?-Covers (r ∷ rows) newest h more in
    ((λ b k. is_before_trans (cursor_of m) (cursor_of r) b a (rest.0 b k)), rest)

last?-All {κ} :
    (P : Message → Type κ) (batch : List Message) (newest : Message)
    → last? batch ≡ some newest
    → All P batch
    → P newest
last?-All P [] newest h a = absurd (ground arith)
last?-All P (m ∷ []) newest h (a, as') = let e : m ≡ newest = ground arith in subst P e a
last?-All P (m ∷ r ∷ rows) newest h (a, as') = last?-All P (r ∷ rows) newest h as'

-- What an old claim covers is before what a new one reads.
Covers-before :
    (cursor : Option MessageCursor) (m b : Message)
    → Covers cursor m
    → is_after cursor b ≡ true
    → is_before (cursor_of m) (cursor_of b) ≡ true
Covers-before none m b c h = absurd (ground arith)
Covers-before (some at) m b c h = c (cursor_of b) h

Covers-later :
    (cursor : Option MessageCursor) (newest m : Message)
    → is_after cursor newest ≡ true
    → Covers cursor m
    → Covers (some (cursor_of newest)) m
Covers-later cursor newest m h c =
    λ b k. is_before_trans (cursor_of m) (cursor_of newest) b (Covers-before cursor m newest c h) k

Ascends-append :
    (first next : List Message)
    → Ascends first
    → Ascends next
    → All (λ m. All (λ b. is_before (cursor_of m) (cursor_of b) ≡ true) next) first
    → Ascends (first ++ next)
Ascends-append [] next a b h = b
Ascends-append (m ∷ first) next (a, as') b (h, hs) =
    (All-append _ first next a h, Ascends-append first next as' b hs)

pointer_is→eq : (e p : Option String) → pointer_is e p ≡ true → e ≡ p
pointer_is→eq none none h = refl
pointer_is→eq none (some p) h = ground arith
pointer_is→eq (some e) none h = ground arith
pointer_is→eq (some e) (some p) h = ap some (sym ((eq_iff p e).0 h))

Resolves-row :
    (rows : MessageTable) (m : Message)
    → IsRowOf rows m
    → Resolves (some m.id) rows (some (cursor_of m))
unfolding resolve_message_cursor
Resolves-row rows m h = (rw h refl, rw h refl)

settled : Race → Run → Message → Option StatusTransition → Race
settled st r newest transition = record st {
  thread = take_turn (claim_args st.thread r newest transition) st.thread;
  answered = st.answered ++ r.batch;
}

-- A claim that wins was read at the pointer that it finds.
IsFair-settled :
    (st : Race) (r : Run) (newest : Message) (transition : Option StatusTransition)
    → last? r.batch ≡ some newest
    → r.expected ≡ st.thread.last_processed_message_id
    → IsRun st.messages r
    → IsFair st
    → IsFair (settled st r newest transition)
unfolding settled
IsFair-settled st r newest transition top e run f =
    let at : r.cursor ≡ f.cursor =
      sym run.read_at.0 ∙ (ap (λ p. (resolve_message_cursor p st.messages).0) e ∙ f.points.0) in
    let past : All (λ m. is_after f.cursor m ≡ true) r.batch =
      subst (λ c. All (λ m. is_after c m ≡ true) r.batch) at run.past in
    let newest_past : is_after f.cursor newest ≡ true =
      last?-All (λ m. is_after f.cursor m ≡ true) r.batch newest top past in
    record {
      distinct = f.distinct;
      cursor = some (cursor_of newest);
      points =
          Resolves-row st.messages newest
            (last?-All (IsRowOf st.messages) r.batch newest top run.known);
      in_order = Ascends-append st.answered r.batch f.in_order run.ascends (
          All-map (λ m c. All-map (λ b. Covers-before f.cursor m b c) r.batch past) st.answered
            f.covered);
      covered =
          All-append (Covers (some (cursor_of newest))) st.answered r.batch
            (All-map (λ m. Covers-later f.cursor newest m newest_past) st.answered f.covered)
            (last?-Covers r.batch newest top run.ascends);
      runs = f.runs;
    }

IsFair-settle_claim :
    (st : Race) (r : Run) (newest : Message) (transition : Option StatusTransition)
    → last? r.batch ≡ some newest
    → IsRun st.messages r
    → IsFair st
    → IsFair (settle_claim st r (some newest) transition)
unfolding claim_conversation_turn update_where returning settled
IsFair-settle_claim st r newest transition top run f =
    elim (Bool-cases (claim_guard (claim_args st.thread r newest transition) st.thread)) [
      | inl won ↦
          let e : r.expected ≡ st.thread.last_processed_message_id =
            pointer_is→eq r.expected st.thread.last_processed_message_id
              (and_right (str_eq st.thread.id st.thread.id) _ won) in
          rw won (IsFair-settled st r newest transition top e run f)
      | inr lost ↦ rw lost f
    ]

All-get_elem? {κ} :
    (P : Run → Type κ) (runs : List Run) (i : ℕ) (r : Run)
    → get_elem? runs i ≡ some r
    → All P runs
    → P r
All-get_elem? P [] i r h a = absurd (ground arith)
All-get_elem? P (s ∷ runs) zero r h (a, as') = let e : s ≡ r = ground arith in subst P e a
All-get_elem? P (s ∷ runs) (suc i) r h (a, as') = All-get_elem? P runs i r h as'

IsFair-claim :
    (st : Race) (r : Run) (newest : Option Message) (transition : Option StatusTransition)
    → last? r.batch ≡ newest
    → IsRun st.messages r
    → IsFair st
    → IsFair (settle_claim st r newest transition)
IsFair-claim st r none transition top run f = f
IsFair-claim st r (some newest) transition top run f =
    IsFair-settle_claim st r newest transition top run f

IsFair-settle_run :
    (st : Race) (o : Option Run) (i : ℕ) (transition : Option StatusTransition)
    → get_elem? st.in_flight i ≡ o
    → IsFair st
    → IsFair (settle_run st o transition)
IsFair-settle_run st none i transition h f = f
IsFair-settle_run st (some r) i transition h f =
    IsFair-claim st r (last? r.batch) transition refl
      (All-get_elem? (IsRun st.messages) st.in_flight i r h f.runs) f

Distinct-append :
    (rows : MessageTable) (m : Message)
    → any (λ r. codes_eq (codes m.id) (codes r.id)) rows ≡ false
    → Distinct rows
    → Distinct (rows ++ m ∷ [])
Distinct-append [] m h d = (tt, tt)
Distinct-append (r ∷ rows) m h (d, ds) =
    let fresh : codes_eq (codes m.id) (codes r.id) ≡ false = ground arith in
    let others : any (λ s. codes_eq (codes m.id) (codes s.id)) rows ≡ false = ground arith in
    (All-append _ rows (m ∷ []) d (fresh, tt), Distinct-append rows m others ds)

IsFair-arrive : (m : Message) (st : Race) → IsFair st → IsFair (race_step (arrive m) st)
unfolding race_step
IsFair-arrive m st f =
    elim (Bool-cases (any (λ r. codes_eq (codes m.id) (codes r.id)) st.messages)) [
      | inl taken ↦ rw taken f
      | inr fresh ↦ rw fresh (record {
        distinct = Distinct-append st.messages m fresh f.distinct;
        cursor = f.cursor;
        points =
            Resolves-append st.thread.last_processed_message_id st.messages (m ∷ []) f.cursor
              f.points;
        in_order = f.in_order;
        covered = f.covered;
        runs = All-map (IsRun-append st.messages (m ∷ [])) st.in_flight f.runs;
      })
    ]

IsFair-race_step : (s : RaceStep) (st : Race) → IsFair st → IsFair (race_step s st)
unfolding race_step
IsFair-race_step (arrive m) st f = IsFair-arrive m st f
IsFair-race_step wake st f = record {
  distinct = f.distinct;
  cursor = f.cursor;
  points = f.points;
  in_order = f.in_order;
  covered = f.covered;
  runs =
      All-append (IsRun st.messages) st.in_flight (read_turn st.thread st.messages ∷ []) f.runs
        (IsRun-read_turn st.thread st.messages f.cursor f.distinct f.points, tt);
}
IsFair-race_step (claim i transition) st f =
    IsFair-settle_run st (get_elem? st.in_flight i) i transition refl f

IsFair-run_race : (steps : List RaceStep) (st : Race) → IsFair st → IsFair (run_race steps st)
unfolding run_race
IsFair-run_race [] st f = f
IsFair-run_race (s ∷ steps) st f = IsFair-run_race steps (race_step s st) (IsFair-race_step s st f)

-- However reads, claims and arrivals of messages interleave, the batches of the claims that win,
-- one after another, are strictly ascending in time and id: no guest message is answered by two
-- turns, and none after a later one. This starts from a table with its primary key, a pointer that
-- is empty or stands on a row, and no run under way; no message is deleted meanwhile.
pub answered-Ascends :
    (steps : List RaceStep) (thread : Thread) (rows : MessageTable) (cursor : Option MessageCursor)
    → Distinct rows
    → Resolves thread.last_processed_message_id rows cursor
    → Ascends
        (run_race steps
          (record { thread = thread; messages = rows; in_flight = []; answered = [] })).answered
answered-Ascends steps thread rows cursor d points =
    (IsFair-run_race steps
      (record { thread = thread; messages = rows; in_flight = []; answered = [] })
      (record {
        distinct = d;
        cursor = cursor;
        points = points;
        in_order = tt;
        covered = tt;
        runs = tt;
      })).in_order
