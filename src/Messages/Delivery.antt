-- ===== src/Messages/Delivery.antt =====
-- Status webhooks come duplicated and out of order: what a message ends as is the highest rank that
-- any of them reports (applyStatusUpdate).
use nistula_assistance.Prelude.{
  ℕ, ◌≡◌, inl, inr, refl, ◌∙◌, String, Option, some, none, List, [], ◌∷◌, ◌++◌, Bool, true, false,
  ◌&&◌, ◌||◌, ltb, arith, str_eq, get_elem?, get_elem?-update_where, get_elem?-append, update_where,
  Bool-cases, if◌then◌else◌,
}
use nistula_assistance.Windows.{greatest}
use nistula_assistance.Messages.{
  Message, MessageTable, MessageStatus, is_queued, is_outward, conflicts, insert_message, rank,
  rank_guard, set_status, outbound_status, update_status, update_known, apply_status_update,
}
use nistula_assistance.Messages.Failure.{queued_guard, settle_failed, is_taken, write_failed}
use nistula_assistance.Messages.Sending.{
  settle_sent, write_sent, give_up, reconcile_stale_sends-messages,
}
use nistula_assistance.Messages.History.{
  Event, webhook, settle, fail, reconcile, insert, run_event, run_history,
}

abbrev ranks_of : Option MessageStatus → List ℕ
ranks_of none = []
ranks_of (some s) = rank s ∷ []

-- The ranks that a history reports of a message, in the order of its webhooks.
unfoldable pub evidence : String → List Event → List ℕ
unfolding outbound_status
evidence wa [] = []
evidence wa (webhook to next error_text ∷ events) =
    (if str_eq wa to then ranks_of (outbound_status next) else []) ++ evidence wa events
evidence wa (settle id given ∷ events) = evidence wa events
evidence wa (fail rejects id error_text given ∷ events) = evidence wa events
evidence wa (reconcile now ∷ events) = evidence wa events
evidence wa (insert m ∷ events) = evidence wa events

-- The greatest of a list of numbers and a first one.
abbrev pub peak : ℕ → List ℕ → ℕ
peak n [] = n
peak n (k ∷ ks) = peak (greatest n k) ks

-- A message that went out: it has its id, and its send is settled.
pub record IsOut (wa : String) (m : Message) : Type 0 where
  pub has_id : m.wa_message_id ≡ some wa
  pub goes_out : is_outward m.direction ≡ true
  pub settled : is_queued m.status ≡ false

-- What an event makes of such a message.
abbrev heard : String → String → Option MessageStatus → Option String → Message → Message
heard wa to none error_text m = m
heard wa to (some next) error_text m =
    if rank_guard to next m then set_status next error_text m else m

abbrev hears : String → Event → Message → Message
hears wa (webhook to next error_text) m = heard wa to (outbound_status next) error_text m
hears wa _ m = m

get_elem?-if :
    (b : Bool) (rows others : MessageTable) (i : ℕ) (m : Message)
    → get_elem? rows i ≡ some m
    → get_elem? others i ≡ some m
    → get_elem? (if b then rows else others) i ≡ some m
get_elem?-if true rows others i m h k = h
get_elem?-if false rows others i m h k = k

get_elem?-unselected :
    (p : Message → Bool) (f : Message → Message) (rows : MessageTable) (i : ℕ) (m : Message)
    → p m ≡ false
    → get_elem? rows i ≡ some m
    → get_elem? (update_where p f rows) i ≡ some m
get_elem?-unselected p f rows i m miss h = get_elem?-update_where p f rows i m h ∙ rw miss refl

get_elem?-heard :
    (wa to : String) (next : Option MessageStatus) (error_text : Option String)
    (rows : MessageTable) (i : ℕ) (m : Message)
    → get_elem? rows i ≡ some m
    → get_elem? (update_known to next error_text rows).0 i ≡ some (heard wa to next error_text m)
unfolding update_status
get_elem?-heard wa to none error_text rows i m h = h
get_elem?-heard wa to (some next) error_text rows i m h =
    get_elem?-update_where (rank_guard to next) (set_status next error_text) rows i m h

get_elem?-insert_message :
    (n : Message) (rows : MessageTable) (i : ℕ) (m : Message)
    → get_elem? rows i ≡ some m
    → get_elem? (insert_message n rows).0 i ≡ some m
unfolding insert_message
get_elem?-insert_message n rows i m h = elim (Bool-cases (conflicts n.wa_message_id rows)) [
  | inl hit ↦ rw hit h
  | inr miss ↦ rw miss (get_elem?-append rows (n ∷ []) i m h)
]

get_elem?-run_event :
    (wa : String) (e : Event) (rows : MessageTable) (i : ℕ) (m : Message)
    → IsOut wa m
    → get_elem? rows i ≡ some m
    → get_elem? (run_event e rows) i ≡ some (hears wa e m)
unfolding run_event apply_status_update write_sent write_failed
get_elem?-run_event wa (webhook to next error_text) rows i m o h =
    get_elem?-heard wa to (outbound_status next) error_text rows i m h
get_elem?-run_event wa (settle id given) rows i m o h =
    get_elem?-if (is_taken id (some given) rows) rows (write_sent id given rows) i m h (
      get_elem?-unselected (queued_guard id) (settle_sent given) rows i m
        (ground (arith, o.settled)) h)
get_elem?-run_event wa (fail rejects id error_text given) rows i m o h =
    get_elem?-if (rejects || is_taken id given rows) rows
      (update_where (queued_guard id) (settle_failed error_text given) rows) i m h
      (get_elem?-unselected (queued_guard id) (settle_failed error_text given) rows i m
        (ground (arith, o.settled)) h)
get_elem?-run_event wa (reconcile now) rows i m o h =
    rw (reconcile_stale_sends-messages now (record { messages = rows; alerts = [] }))
      (get_elem?-unselected _ give_up rows i m (ground (arith, o.settled)) h)
get_elem?-run_event wa (insert n) rows i m o h = get_elem?-insert_message n rows i m h

heard-IsOut :
    (wa to : String) (next : Option MessageStatus) (error_text : Option String) (m : Message)
    → IsOut wa m
    → ((s : MessageStatus) → next ≡ some s → is_queued s ≡ false)
    → IsOut wa (heard wa to next error_text m)
heard-IsOut wa to none error_text m o k = o
heard-IsOut wa to (some next) error_text m o k = elim (Bool-cases (rank_guard to next m)) [
  | inl hit ↦ rw hit (record { has_id = o.has_id; goes_out = o.goes_out; settled = k next refl })
  | inr miss ↦ rw miss o
]

outbound_status-settled :
    (next : String) (s : MessageStatus) → outbound_status next ≡ some s → is_queued s ≡ false
unfolding outbound_status
outbound_status-settled next s h = ground arith

hears-IsOut : (wa : String) (e : Event) (m : Message) → IsOut wa m → IsOut wa (hears wa e m)
hears-IsOut wa (webhook to next error_text) m o =
    heard-IsOut wa to (outbound_status next) error_text m o (outbound_status-settled next)
hears-IsOut wa (settle id given) m o = o
hears-IsOut wa (fail rejects id error_text given) m o = o
hears-IsOut wa (reconcile now) m o = o
hears-IsOut wa (insert n) m o = o

rank_guard-IsOut :
    (wa to : String) (next : MessageStatus) (m : Message)
    → IsOut wa m
    → rank_guard to next m ≡ (str_eq wa to && ltb (rank m.status) (rank next))
rank_guard-IsOut wa to next m o = ground (arith, o.has_id, o.goes_out)

rank-heard :
    (wa to : String) (next : Option MessageStatus) (error_text : Option String) (m : Message)
    (rest : List ℕ)
    → IsOut wa m
    → peak (rank (heard wa to next error_text m).status) rest
      ≡ peak (rank m.status) ((if str_eq wa to then ranks_of next else []) ++ rest)
rank-heard wa to none error_text m rest o = ground arith
rank-heard wa to (some next) error_text m rest o =
    let guard = rank_guard-IsOut wa to next m o in ground (arith, guard)

peak-hears :
    (wa : String) (e : Event) (events : List Event) (m : Message)
    → IsOut wa m
    → peak (rank (hears wa e m).status) (evidence wa events)
      ≡ peak (rank m.status) (evidence wa (e ∷ events))
unfolding evidence
peak-hears wa (webhook to next error_text) events m o =
    rank-heard wa to (outbound_status next) error_text m (evidence wa events) o
peak-hears wa (settle id given) events m o = refl
peak-hears wa (fail rejects id error_text given) events m o = refl
peak-hears wa (reconcile now) events m o = refl
peak-hears wa (insert n) events m o = refl

-- A message that went out ends, after any history of webhooks, settlings, failures, sweeps and
-- inserts, at the highest rank of its own and those that the webhooks about it report: a late or
-- repeated webhook never takes it back, and an unknown status counts for nothing.
pub run_history-peak :
    (wa : String) (events : List Event) (rows : MessageTable) (i : ℕ) (m : Message)
    → IsOut wa m
    → get_elem? rows i ≡ some m
    → (n : Message) × (get_elem? (run_history events rows) i ≡ some n)
      × (rank n.status ≡ peak (rank m.status) (evidence wa events))
unfolding run_history evidence
run_history-peak wa [] rows i m o h = (m, h, refl)
run_history-peak wa (e ∷ events) rows i m o h =
    let (n, there, top) =
      run_history-peak wa events (run_event e rows) i (hears wa e m) (hears-IsOut wa e m o)
        (get_elem?-run_event wa e rows i m o h) in
    (n, there, top ∙ peak-hears wa e events m o)
