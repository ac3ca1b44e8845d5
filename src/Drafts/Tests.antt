-- ===== src/Drafts/Tests.antt =====
-- One draft approved from two phones while the sweep runs.
use nistula_assistance.Prelude.{
  arith, true, ◌≤◌, ◌≡◌, refl, some, none, false, List, [], ◌∷◌, codes, codes_eq, update_where,
  returning, get_elem?,
}
use nistula_assistance.Tasks.Writes.{upper_code}
use nistula_assistance.Drafts.{Draft, DraftDecision, arrival, pending, is_pending}
use nistula_assistance.Drafts.Decisions.{
  Step, decision, sweep, run_steps, resolutions, returned, bearers, resolutions_le_one,
}

abbrev reply : Draft
reply = record {
  id = "d-1";
  conversation_id = "c-1";
  short_id = codes "3F2KAB";
  reply_type = arrival;
  proposed_body = "Your villa is ready from three.";
  final_body = none;
  context_note = none;
  status = pending;
  decided_by = none;
  decided_at = none;
  created_at = 1000;
  updated_at = 1000;
}

abbrev race : List Step
race =
    sweep 2000 900
    ∷ decision 2100 (codes "3f2kab") DraftDecision.ok "+91999" 2100 none
    ∷ decision 2100 (codes "3F2KAB") DraftDecision.no_send "+91998" 2200 none
    ∷ sweep 9000 8000
    ∷ []

-- The first decision gets it.
one : resolutions (codes "3F2KAB") race (reply ∷ []) ≡ 1
unfolding resolutions returned bearers codes_eq upper_code update_where returning
one = refl

alone : bearers (codes "3F2KAB") (reply ∷ []) ≤ 1
unfolding bearers codes_eq
alone = omega arith

itself : codes_eq (codes "3F2KAB") (codes "3F2KAB") ≡ true
unfolding codes_eq
itself = refl

resolutions_le_one_example :
    (resolutions (codes "3F2KAB") race (reply ∷ []) ≤ 1)
    × (is_pending pending ≡ false
        → (resolutions (codes "3F2KAB") race (reply ∷ []) ≡ 0)
          × (get_elem? (run_steps race (reply ∷ [])) 0 ≡ some reply))
resolutions_le_one_example =
    resolutions_le_one (codes "3F2KAB") race (reply ∷ []) 0 reply alone refl itself
