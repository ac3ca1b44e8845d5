-- ===== src/Drafts.antt =====
-- src/db/drafts.ts and the drafts table of src/db/schema.ts: replies that wait for a human's
-- decision.
pub mod Decisions
mod Tests
use nistula_assistance.Prelude.{
  ℕ, zero, suc, ◌+◌, String, Option, some, none, List, [], ◌∷◌, ◌++◌, Bool, true, false, ◌&&◌, ltb,
  leb, str_eq, codes_eq, any, head?, length, select_where, update_where, returning, if◌then◌else◌,
}
use nistula_assistance.Tasks.Writes.{to_upper}

pub data DraftReplyType : Type 0 where
  presales arrival instay poststay : DraftReplyType

pub data DraftStatus : Type 0 where
  pending approved edited rejected expired : DraftStatus

pub record Draft : Type 0 where
  pub id : String
  pub conversation_id : String
  pub short_id : List ℕ
  pub reply_type : DraftReplyType
  pub proposed_body : String
  pub final_body : Option String
  pub context_note : Option String
  pub status : DraftStatus
  pub decided_by : Option String
  pub decided_at : Option ℕ
  pub created_at : ℕ
  pub updated_at : ℕ

abbrev pub DraftTable : Type 0
DraftTable = List Draft

-- DraftDecision
pub data DraftDecision : Type 0 where
  ok edit no_send : DraftDecision

abbrev pub decided_status : DraftDecision → DraftStatus
decided_status ok = approved
decided_status edit = edited
decided_status no_send = rejected

pub record NewDraft : Type 0 where
  pub conversation_id : String
  pub reply_type : DraftReplyType
  pub proposed_body : String
  pub context_note : Option String

abbrev pub is_pending : DraftStatus → Bool
is_pending pending = true
is_pending _ = false

abbrev pub is_expired : DraftStatus → Bool
is_expired expired = true
is_expired _ = false

abbrev pub same_type : DraftReplyType → DraftReplyType → Bool
same_type presales presales = true
same_type arrival arrival = true
same_type instay instay = true
same_type poststay poststay = true
same_type _ _ = false

abbrev pub same_status : DraftStatus → DraftStatus → Bool
same_status pending pending = true
same_status approved approved = true
same_status edited edited = true
same_status rejected rejected = true
same_status expired expired = true
same_status _ _ = false

unfoldable pub count_drafts_since : String → ℕ → DraftTable → ℕ
count_drafts_since conversation since rows =
    length
      (select_where (λ d. str_eq d.conversation_id conversation && leb since d.created_at) rows)

-- the row of the insert; the uuid, the short id and the clock are drawn outside
unfoldable pub new_draft : String → List ℕ → ℕ → NewDraft → Draft
new_draft row_id short_id now input = record {
  id = row_id;
  conversation_id = input.conversation_id;
  short_id = short_id;
  reply_type = input.reply_type;
  proposed_body = input.proposed_body;
  final_body = none;
  context_note = input.context_note;
  status = pending;
  decided_by = none;
  decided_at = none;
  created_at = now;
  updated_at = now;
}

-- The insert; `none` is the violation of the unique short id, which rolls the turn back.
unfoldable pub insert_draft : String → List ℕ → ℕ → NewDraft → DraftTable → Option DraftTable
unfolding new_draft
insert_draft row_id short_id now input rows =
    if any (λ d. codes_eq d.short_id short_id) rows
    then none
    else some (rows ++ new_draft row_id short_id now input ∷ [])

abbrev pub decision_guard : List ℕ → Draft → Bool
decision_guard short_id d = codes_eq d.short_id (to_upper short_id) && is_pending d.status

abbrev pub decide : ℕ → DraftDecision → String → ℕ → Option String → Draft → Draft
decide stamp decision decided_by now final_body d = record d {
  status = decided_status decision;
  decided_by = some decided_by;
  decided_at = some now;
  final_body = final_body;
  updated_at = stamp;
}

-- the table after it, and the draft of the approver that changed it
unfoldable pub claim_draft_decision :
    ℕ → List ℕ → DraftDecision → String → ℕ → Option String → DraftTable → DraftTable × Option Draft
claim_draft_decision stamp short_id decision decided_by now final_body rows = (
  update_where (decision_guard short_id) (decide stamp decision decided_by now final_body) rows,
  head?
      (returning (decision_guard short_id) (decide stamp decision decided_by now final_body) rows),
)

unfoldable pub find_draft_by_short_id : List ℕ → DraftTable → Option Draft
find_draft_by_short_id short_id rows =
    head? (select_where (λ d. codes_eq d.short_id (to_upper short_id)) rows)

abbrev pub stale_guard : ℕ → Draft → Bool
stale_guard cutoff d = is_pending d.status && ltb d.created_at cutoff

abbrev pub expire : ℕ → Draft → Draft
expire stamp d = record d { status = expired; updated_at = stamp }

unfoldable pub expire_stale_drafts : ℕ → ℕ → DraftTable → DraftTable × List Draft
expire_stale_drafts stamp cutoff rows = (
  update_where (stale_guard cutoff) (expire stamp) rows,
  returning (stale_guard cutoff) (expire stamp) rows,
)

unfoldable pub count_expired_drafts_since : ℕ → DraftTable → ℕ
count_expired_drafts_since since rows =
    length (select_where (λ d. is_expired d.status && leb since d.updated_at) rows)

-- one tally of the weekly report: the drafts created since then of a type and a status
unfoldable pub draft_stat_since : ℕ → DraftReplyType → DraftStatus → DraftTable → ℕ
draft_stat_since since type status rows = length (
    select_where
      (λ d. leb since d.created_at && (same_type d.reply_type type && same_status d.status status))
      rows)
