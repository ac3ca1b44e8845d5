-- ===== src/Staff/Commands/Held.antt =====
-- AI OFF holds a thread until AI ON (handleAiToggle, applyHumanTakeover, claimConversationTurn,
-- isHumanActive).
use nistula_assistance.Prelude.{
  ℕ, ◌+◌, ◌≡◌, refl, ap, ◌∙◌, String, Option, none, List, [], ◌∷◌, true, false, arith, str_eq,
  eq_iff, All, All-map, update_where, update_where-All,
}
use nistula_assistance.Lifecycle.{ConversationStatus}
use nistula_assistance.Turn.Cursor.{
  Thread, ThreadTable, ClaimArgs, claim_guard, take_turn, moved_status, claim_conversation_turn,
}
use nistula_assistance.Turn.Policy.{DirectiveKind, is_human_active, settle_plan_for}
use nistula_assistance.Turn.Settle.{transition_of}
use nistula_assistance.Staff.Commands.{
  Desk, Echo, thread_guard, take_over, set_takeover_state, hold_until, set_human_active_until,
  pause, resume, toggle, handle_ai_toggle, apply_human_takeover, find_conversations_by_phone_suffix,
  human_active_ttl_ms,
}

-- The thread of an id is held by AI OFF.
abbrev pub IsOff : String → Thread → Type 0
IsOff id t = str_eq t.id id ≡ true → t.status ≡ ConversationStatus.human_active

-- What happens to the threads after AI OFF: human replies, AI OFF and AI ON for any number, and
-- claims of turns with the transition that the policy gives them.
pub data Happening : Type 0 where
  human_reply : ℕ → String → ℕ → String → Option Echo → Happening
  turned_off turned_on : String → List ℕ → Happening
  turn : ClaimArgs → DirectiveKind → ConversationStatus → Happening

abbrev pub claim_with : ClaimArgs → DirectiveKind → ConversationStatus → ClaimArgs
claim_with args kind status = record args {
  status_transition = transition_of (settle_plan_for kind status).status_transition;
}

unfoldable pub happen : Happening → Desk → Desk
unfolding apply_human_takeover handle_ai_toggle claim_conversation_turn settle_plan_for
happen (human_reply now row_id stamp conversation echo) desk =
    apply_human_takeover now row_id stamp conversation echo desk
happen (turned_off phone digits) desk = handle_ai_toggle phone digits true desk
happen (turned_on phone digits) desk = handle_ai_toggle phone digits false desk
happen (turn args kind status) desk = record desk {
  threads = (claim_conversation_turn (claim_with args kind status) desk.threads).0;
}

unfoldable pub happen_all : List Happening → Desk → Desk
unfolding happen
happen_all [] desk = desk
happen_all (h ∷ rest) desk = happen_all rest (happen h desk)

-- No AI ON is for the conversation: what it would reach, then, is another one.
abbrev pub Spares : String → Happening → Desk → Type 0
Spares id (turned_on phone digits) desk =
    All (λ t. str_eq t.id id ≡ false)
      (find_conversations_by_phone_suffix digits desk.guests desk.threads)
Spares id _ desk = Unit

abbrev pub AllSpare : String → List Happening → Desk → Type 0
AllSpare id [] desk = Unit
AllSpare id (h ∷ rest) desk = Spares id h desk × AllSpare id rest (happen h desk)

-- No plan of a turn moves a status from human_active.
moved_status-held :
    (kind : DirectiveKind) (status : ConversationStatus)
    → moved_status
        (transition_of (settle_plan_for kind status).status_transition)
        ConversationStatus.human_active
      ≡ ConversationStatus.human_active
unfolding settle_plan_for
moved_status-held kind status = ground arith

IsOff-pause :
    (id phone : String) (target : Thread) (desk : Desk)
    → All (IsOff id) desk.threads
    → All (IsOff id) (pause phone target desk).threads
unfolding set_takeover_state
IsOff-pause id phone target desk h =
    update_where-All (IsOff id) (thread_guard target.id)
      (take_over ConversationStatus.human_active none) desk.threads (λ u g o k. refl) h

resumed-IsOff :
    (id : String) (target u : Thread)
    → str_eq target.id id ≡ false
    → str_eq u.id target.id ≡ true
    → IsOff id (take_over ConversationStatus.ai_active none u)
resumed-IsOff id target u apart hit =
    let same : u.id ≡ target.id = (eq_iff u.id target.id).0 hit in
    λ k. absurd (ground (arith, ap (λ s. str_eq s id) same, apart, k))

IsOff-resume :
    (id phone : String) (target : Thread) (desk : Desk)
    → str_eq target.id id ≡ false
    → All (IsOff id) desk.threads
    → All (IsOff id) (resume phone target desk).threads
unfolding set_takeover_state
IsOff-resume id phone target desk apart h =
    update_where-All (IsOff id) (thread_guard target.id)
      (take_over ConversationStatus.ai_active none) desk.threads
      (λ u g o. resumed-IsOff id target u apart g) h

IsOff-toggle_pausing :
    (id phone : String) (digits : List ℕ) (found : List Thread) (desk : Desk)
    → All (IsOff id) desk.threads
    → All (IsOff id) (toggle phone digits true found desk).threads
IsOff-toggle_pausing id phone digits [] desk h = h
IsOff-toggle_pausing id phone digits (t ∷ []) desk h = IsOff-pause id phone t desk h
IsOff-toggle_pausing id phone digits (t ∷ u ∷ rest) desk h = h

IsOff-toggle_resuming :
    (id phone : String) (digits : List ℕ) (found : List Thread) (desk : Desk)
    → All (λ t. str_eq t.id id ≡ false) found
    → All (IsOff id) desk.threads
    → All (IsOff id) (toggle phone digits false found desk).threads
IsOff-toggle_resuming id phone digits [] desk a h = h
IsOff-toggle_resuming id phone digits (t ∷ []) desk (a, as') h = IsOff-resume id phone t desk a h
IsOff-toggle_resuming id phone digits (t ∷ u ∷ rest) desk a h = h

IsOff-take_turn :
    (id : String) (args : ClaimArgs) (kind : DirectiveKind) (status : ConversationStatus)
    (t : Thread)
    → IsOff id t
    → IsOff id (take_turn (claim_with args kind status) t)
IsOff-take_turn id args kind status t h = λ k.
    ap (moved_status (transition_of (settle_plan_for kind status).status_transition)) (h k)
    ∙ moved_status-held kind status

IsOff-happen :
    (id : String) (e : Happening) (desk : Desk)
    → Spares id e desk
    → All (IsOff id) desk.threads
    → All (IsOff id) (happen e desk).threads
unfolding happen apply_human_takeover set_human_active_until handle_ai_toggle
    claim_conversation_turn
IsOff-happen id (human_reply now row_id stamp conversation echo) desk s h =
    update_where-All (IsOff id) (thread_guard conversation) (hold_until (now + human_active_ttl_ms))
      desk.threads (λ u g o. o) h
IsOff-happen id (turned_off phone digits) desk s h =
    IsOff-toggle_pausing id phone digits
      (find_conversations_by_phone_suffix digits desk.guests desk.threads) desk h
IsOff-happen id (turned_on phone digits) desk s h =
    IsOff-toggle_resuming id phone digits
      (find_conversations_by_phone_suffix digits desk.guests desk.threads) desk s h
IsOff-happen id (turn args kind status) desk s h =
    update_where-All (IsOff id) (claim_guard (claim_with args kind status))
      (take_turn (claim_with args kind status)) desk.threads
      (λ u g o. IsOff-take_turn id args kind status u o) h

IsOff-happen_all :
    (id : String) (rest : List Happening) (desk : Desk)
    → AllSpare id rest desk
    → All (IsOff id) desk.threads
    → All (IsOff id) (happen_all rest desk).threads
unfolding happen_all
IsOff-happen_all id [] desk s h = h
IsOff-happen_all id (e ∷ rest) desk (s, ss) h =
    IsOff-happen_all id rest (happen e desk) ss (IsOff-happen id e desk s h)

paused-IsOff :
    (id : String) (rows : ThreadTable)
    → All
        (IsOff id)
        (update_where (thread_guard id) (take_over ConversationStatus.human_active none) rows)
unfolding update_where
paused-IsOff id [] = tt
paused-IsOff id (t ∷ rows) = ((λ k. ground arith), paused-IsOff id rows)

IsOff-toggled :
    (phone : String) (digits : List ℕ) (found : List Thread) (t : Thread) (desk : Desk)
    → found ≡ t ∷ []
    → All (IsOff t.id) (toggle phone digits true found desk).threads
unfolding set_takeover_state
IsOff-toggled phone digits found t desk e = rw e (paused-IsOff t.id desk.threads)

-- The human holds the thread of an id at every time.
abbrev pub IsHeld : String → Thread → Type 0
IsHeld id t =
    str_eq t.id id ≡ true → (now : ℕ) → is_human_active t.status t.human_active_until now ≡ true

IsHeld-IsOff : (id : String) (t : Thread) → IsOff id t → IsHeld id t
unfolding is_human_active
IsHeld-IsOff id t h = λ k now. let e = h k in ap (λ s. is_human_active s t.human_active_until now) e

-- After an AI OFF whose digits end the phone of one guest only, the AI stays silent in that thread at
-- every time, over human replies with their two hours, later AI OFFs, the turns of the worker with
-- whatever directive, and every AI ON that reaches another thread: only an AI ON for it ends the hold.
pub handle_ai_toggle-IsHeld :
    (phone : String) (digits : List ℕ) (t : Thread) (rest : List Happening) (desk : Desk)
    → find_conversations_by_phone_suffix digits desk.guests desk.threads ≡ t ∷ []
    → AllSpare t.id rest (handle_ai_toggle phone digits true desk)
    → All (IsHeld t.id) (happen_all rest (handle_ai_toggle phone digits true desk)).threads
unfolding handle_ai_toggle
handle_ai_toggle-IsHeld phone digits t rest desk one spare = All-map (IsHeld-IsOff t.id) _ (
    IsOff-happen_all t.id rest (handle_ai_toggle phone digits true desk) spare
      (IsOff-toggled phone digits _ t desk one))
