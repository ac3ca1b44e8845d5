-- ===== src/Staff/Roster.antt =====
-- src/staff/roster.ts: the ladder of people that a task goes to.
pub mod Routing
use nistula_assistance.Prelude.{
  ℕ, String, Option, some, none, List, [], ◌∷◌, Bool, true, false, ◌&&◌, ◌||◌, str_eq, any, head?,
  if◌then◌else◌,
}
use nistula_assistance.Tasks.{TaskKind}

pub data StaffRole : Type 0 where
  housekeeping maintenance frontdesk : StaffRole

pub record StaffMember : Type 0 where
  pub name : String
  pub phone : String
  pub role : StaffRole
  pub villas : List String

pub record Roster : Type 0 where
  pub members : List StaffMember
  pub ops_numbers : List String

-- ROLE_FOR_KIND
abbrev pub role_for_kind : TaskKind → StaffRole
role_for_kind TaskKind.housekeeping = housekeeping
role_for_kind TaskKind.maintenance = maintenance
role_for_kind TaskKind.frontdesk = frontdesk
role_for_kind TaskKind.escalation = frontdesk
role_for_kind TaskKind.night_queue = frontdesk

abbrev pub same_role : StaffRole → StaffRole → Bool
same_role housekeeping housekeeping = true
same_role maintenance maintenance = true
same_role frontdesk frontdesk = true
same_role _ _ = false

-- Array.prototype.find
abbrev pub find {ℓ} : {A : Type ℓ} → (A → Bool) → List A → Option A
find p [] = none
find p (x ∷ xs) = let rest = find p xs in if p x then some x else rest

abbrev pub is_desk : StaffMember → Bool
is_desk m = same_role m.role frontdesk

unfoldable pub frontdesk_lead : Roster → Option StaffMember
frontdesk_lead roster = find is_desk roster.members

pub data Via : Type 0 where
  role_and_villa lead ops : Via

pub record Assignment : Type 0 where
  pub phone : String
  pub member : Option StaffMember
  pub via : Via

abbrev pub on_round : TaskKind → String → StaffMember → Bool
on_round kind villa m = same_role m.role (role_for_kind kind) && any (λ v. str_eq v villa) m.villas

abbrev pub round_match : Roster → TaskKind → Option String → Option StaffMember
round_match roster kind none = none
round_match roster kind (some villa) = find (on_round kind villa) roster.members

abbrev pub ops_rung : List String → Option Assignment
ops_rung [] = none
ops_rung (number ∷ _) = some (record { phone = number; member = none; via = ops })

abbrev pub desk_rung : Option StaffMember → List String → Option Assignment
desk_rung (some m) numbers = some (record { phone = m.phone; member = some m; via = lead })
desk_rung none numbers = ops_rung numbers

abbrev pub round_rung : Option StaffMember → Option StaffMember → List String → Option Assignment
round_rung (some m) l numbers =
    some (record { phone = m.phone; member = some m; via = role_and_villa })
round_rung none l numbers = desk_rung l numbers

unfoldable pub assign_for : Roster → TaskKind → Option String → Option Assignment
unfolding frontdesk_lead
assign_for roster kind villa =
    round_rung (round_match roster kind villa) (frontdesk_lead roster) roster.ops_numbers

abbrev pub has_phone : String → StaffMember → Bool
has_phone phone m = str_eq m.phone phone

unfoldable pub is_ops_number : Roster → String → Bool
is_ops_number roster phone = any (λ n. str_eq n phone) roster.ops_numbers

unfoldable pub is_staff_phone : Roster → String → Bool
is_staff_phone roster phone =
    any (has_phone phone) roster.members || any (λ n. str_eq n phone) roster.ops_numbers

unfoldable pub member_for : Roster → String → Option StaffMember
member_for roster phone = find (has_phone phone) roster.members
