-- ===== src/Staff/Tests.antt =====
-- The roster and the nudger at concrete inputs: one escalation, chased twice.
use nistula_assistance.Prelude.{All, ℕ, ◌≡◌, ◌↔◌, refl, some, none, true, false, [], ◌∷◌, codes}
use nistula_assistance.Tasks.{Task, TaskKind, escalation, opened, guest}
use nistula_assistance.Tasks.Reads.{find_overdue_tasks}
use nistula_assistance.Staff.Roster.{
  StaffRole, StaffMember, Roster, Assignment, role_and_villa, assign_for,
}
use nistula_assistance.Staff.Roster.Routing.{
  IsHonest, Declines, assign_for-IsHonest, assign_for-eq-none_iff,
}
use nistula_assistance.Staff.Sla.{Rung, sent, World, SlaDeps, run_sla_nudger}
use nistula_assistance.Staff.Sla.Honesty.{Adds, IsSupported, run_sla_nudger-IsSupported}
use nistula_assistance.Staff.Sla.Ladder.{once_chased}

abbrev asha : StaffMember
asha = record {
  name = "Asha";
  phone = "+91900";
  role = StaffRole.housekeeping;
  villas = "Villa Noa" ∷ [];
}

abbrev desk : StaffMember
desk = record { name = "Desk"; phone = "+91901"; role = StaffRole.frontdesk; villas = [] }

abbrev team : Roster
team = record { members = asha ∷ desk ∷ []; ops_numbers = "+91999" ∷ [] }

abbrev round : Assignment
round = record { phone = "+91900"; member = some asha; via = role_and_villa }

assign_for-IsHonest_example : IsHonest team TaskKind.housekeeping (some "Villa Noa") round
unfolding assign_for
assign_for-IsHonest_example =
    assign_for-IsHonest team TaskKind.housekeeping (some "Villa Noa") round refl

assign_for-eq-none_iff_example :
    (assign_for team TaskKind.maintenance none ≡ none)
    ↔ (All (Declines TaskKind.maintenance none) team.members × (team.ops_numbers ≡ []))
assign_for-eq-none_iff_example = assign_for-eq-none_iff team TaskKind.maintenance none

abbrev lost_key : Task
lost_key = record {
  id = "t-1";
  conversation_id = some "c-1";
  guest_id = some "g-1";
  booking_id = none;
  villa_label = none;
  kind = escalation;
  short_id = codes "7F3K2M";
  request_key = none;
  summary = "lost key";
  detail = none;
  status = opened;
  origin = guest;
  assigned_phone = some "+91901";
  sla_minutes = 10;
  sla_deadline = 600000;
  nudge_count = 0;
  opened_at = 0;
  closed_at = none;
  closed_by = none;
}

abbrev start : World
start = record { tasks = lost_key ∷ []; evidence = []; alerts = [] }

-- A client that accepts every card, at a time.
abbrev tick_at : ℕ → SlaDeps
tick_at now = record {
  roster = team;
  ops_numbers = "+91999" ∷ [];
  now = now;
  send = λ id phone card. sent;
  update_throws = λ id. false;
  evidence_throws = λ id. false;
  meanwhile = λ id. [];
}

abbrev desk_rung : Rung
desk_rung = record { after_ms = 0; cc_ops = false }

abbrev ops_rung : Rung
ops_rung = record { after_ms = 600000; cc_ops = true }

abbrev waiting : World
waiting = record { tasks = once_chased lost_key ∷ []; evidence = []; alerts = [] }

run_sla_nudger-IsSupported_example :
    Adds
      (tick_at 600000)
      (IsSupported (tick_at 600000) (find_overdue_tasks 600000 20 start.tasks))
      start
      (run_sla_nudger (tick_at 600000) start).0
run_sla_nudger-IsSupported_example = run_sla_nudger-IsSupported (tick_at 600000) start
