-- ===== src/Lib.antt =====
-- Verification of nistula-assistance, the concierge of a villa company: it answers guests on
-- WhatsApp, raises tasks for the staff and chases them, and sends the messages of a booking's life.
--
-- The parts and the files that model them:
--
-- Clock (src/lib/time.ts). Instants are milliseconds since 1970, read on the IST wall clock; a
-- calendar day is its year, month and day. shiftDay is days_after and days_before, isNightIST is
-- is_night_ist, istWallClockToInstant is ist_wall_clock_to_instant. Clock/DayText has the
-- "YYYY-MM-DD" texts that the program compares as strings. Nothing before 1970 is modelled.
--
-- Tasks (src/db/tasks.ts, the tasks table of src/db/schema.ts). The table is a list of rows in the
-- order of their insertion. Each guarded UPDATE is a guard (its WHERE) with a change (its SET), and
-- returns the rows that it changed. Tasks/Insert has insertTask with the two unique indexes of the
-- table and the five draws of a short id, Tasks/Reads the SELECTs. Tasks/History runs the writes,
-- the inserts and the erasure of a guest (the UPDATE of the tasks in src/db/erasure.ts) in any
-- order: each is one statement of the database, so that is every interleaving of the workers. What
-- random drawing, uuids and clocks return are arguments.
--
-- Staff (src/staff). Staff/Roster is roster.ts, Staff/Sla the nudger of sla.ts: World is the
-- database and the alerts, SlaDeps the roster, the clock, what the messaging client answers and
-- which statements the database rejects. Staff/Parsing reads what staff type, as functions on codes
-- in place of the patterns; Staff/Commands is commands.ts and humanTakeover.ts and
-- Staff/Commands/Approvals draftCommands.ts: Desk is the database with the list of what the
-- messaging client was asked to send. Between the sends of a task and the claim of its rung other
-- workers run any history of Tasks/History.
--
-- Lifecycle (src/lifecycle, with the tables of src/db/schema.ts). Lifecycle/Gates is gates.ts,
-- Lifecycle/SendGuards is sendGuards.ts, Lifecycle/Retired isRetiredVillaType of src/lib/villas.ts,
-- Lifecycle/Writes the writes to scheduled_messages, Lifecycle/Sender the tick of sender.ts.
-- planTemplatedSend, createSendIntent and dispatchTemplated are arguments of the tick, and so is
-- what other workers do to the scheduled rows before a row is claimed. A statement that throws is
-- modelled at the claim's transaction; the catch of the loop then defers the row; what else might
-- throw in a turn is not modelled. Lifecycle/Plan is the timing matrix of plan.ts and
-- Lifecycle/Scheduler the booking events of scheduler.ts, with Lifecycle/Guests of src/db/repos.ts:
-- Board is the database and the alerts. Each path ends in a value of Scheduled, and the chain of
-- early returns is a chain of functions after_lookup, after_contract, after_gates, after_view,
-- after_plan.
--
-- Lifecycle/Consent has the writes of src/db/consent.ts.
--
-- Messages (src/db/repos.ts, src/wa). insertMessage and applyStatusUpdate are in Messages, failSend
-- and its judgement of a failure in Messages/Failure, createSendIntent, dispatchToGraph, sendText
-- and reconcileStaleSends in Messages/Sending. alertOps (src/ops/alerts.ts) adds its cards to the
-- same table, as rows of no conversation that the system sends; how many there are, and what their
-- sends make of them, is an argument, which covers the dedupe of half an hour, and in
-- Messages/History a card is an insert of its own. What Graph answers, what the database rejects
-- and what the other workers write during a send are arguments. Messages/History runs the writes in
-- any order.
--
-- Turn (src/brain/debounce.ts, src/brain/policy.ts, src/brain/worker.ts, and the cursor and the
-- claim of src/db/repos.ts). Turn/Cursor has the pointer of a conversation; Turn/Cursor/Races runs
-- reads, claims and arrivals in any order, and deletes no message. Turn/Policy decides the
-- directive and the plan of a batch, Turn/Settle is the transaction of the claim and Turn/Worker
-- processConversation: the turn of the model, the patterns that look for words, the clocks and the
-- ids are arguments, and what a pass tells others (alerts, ops cards, the queue, the draft card) is
-- its list of effects; the cards of its alerts are rows of the messages too, those of its
-- escalations are not modelled. The upkeep after the delivery of a reply is left out.
--
-- Mirror (src/db/bookings.ts, eventKindForUpsert of src/ezee/normalize.ts). The mirror of eZee's
-- bookings as a list of rows: upsertMirrorRow with its diff, its kept room label and its guard
-- against the return of a cancelled booking; Mirror/Cancelling has markBookingCancelled,
-- insertCancelStub and findCancelTarget. Number, by which two amounts are compared, is an argument
-- that gives the code of a double, or none for NaN. Of the raw payload only its number of rooms is
-- kept.
--
-- Mirror/Normalise (src/ezee/normalize.ts). mapStatus with the folding of eZee's words, and the
-- choice of a guest's number; the other columns of normalizeReservation are not modelled.
--
-- Mirror/Poller, Mirror/Ladder (src/ezee/poller.ts). processReservation of a normalised row and
-- processCancelGroup, each in its transaction with the events that it queues; a transaction that
-- fails is none. Mirror/Guard runs the payloads that arrive after a cancel. Mirror/Ladder is the
-- failure counter with its alerts: noteSuccess, noteTransientFailure, noteAuthFailure and their
-- order in runPollCycle, a cycle being given by the answers of eZee and the number of its failed
-- items. groupCancels, the acknowledgements, linkStayByPhone and the alerts on a normaliser's
-- issues are left out.
--
-- Phone (src/lib/phone.ts). normalizePhone on codes.
--
-- Drafts (src/db/drafts.ts). The replies that wait for a human, decided by a guarded update or
-- expired by a sweep; Drafts/Decisions runs them in any order.
--
-- Windows (src/db/windows.ts). The 24-hour window of a number; Windows/Touching runs inbound
-- messages in any order.
--
-- Stays (src/brain/stayView.ts). project decides what may be said of a booking, derive_stage and
-- select_stays what stage a guest is in and which stays are shown.
--
-- Texts that the program compares character by character (short ids, sources, phones, clock texts)
-- are lists of codes; the others are strings. The loops run over lists, so no fuel is needed; the
-- draws of a short id are bounded by five, as in the source.
--
-- Not modelled: logging, the texts of cards and templates, the calls of the language model and of
-- the messaging and booking services, the queue, the server and its configuration.
pub mod Prelude
pub mod Clock
pub mod Tasks
pub mod Staff
pub mod Lifecycle
pub mod Drafts
pub mod Messages
pub mod Mirror
pub mod Phone
pub mod Stays
pub mod Turn
pub mod Windows
