-- ===== src/Lifecycle/Guests.antt =====
-- upsertGuestFromBooking and getOrCreateConversation of src/db/repos.ts.
use nistula_assistance.Prelude.{
  ℕ, String, Option, some, none, List, [], ◌∷◌, ◌++◌, Bool, false, str_eq, codes_eq, any,
  update_where, returning, if◌then◌else◌,
}
use nistula_assistance.Lifecycle.{Guest, Conversation, ai_active}

-- coalesce(first_name, excluded.first_name)
abbrev pub coalesce : Option (List ℕ) → Option (List ℕ) → Option (List ℕ)
coalesce none new = new
coalesce (some old) new = some old

abbrev pub phone_guard : List ℕ → Guest → Bool
phone_guard phone g = codes_eq g.phone phone

abbrev pub name_guest : Option (List ℕ) → Guest → Guest
name_guest name g = record g { first_name = coalesce g.first_name name }

abbrev pub new_guest : String → List ℕ → Option (List ℕ) → Guest
new_guest uuid phone name = record {
  id = uuid;
  phone = phone;
  first_name = name;
  opt_out_marketing = false;
  marketing_opt_in = false;
  marketing_opt_in_source = none;
  marketing_opt_in_at = none;
}

abbrev pub guest_or_new : Guest → List Guest → List Guest → List Guest → List Guest × Guest
guest_or_new fresh guests updated [] = (guests ++ fresh ∷ [], fresh)
guest_or_new fresh guests updated (g ∷ _) = (updated, g)

unfoldable pub upsert_guest_from_booking :
    String → List ℕ → Option (List ℕ) → List Guest → List Guest × Guest
upsert_guest_from_booking uuid phone name guests =
    guest_or_new (new_guest uuid phone name) guests
      (update_where (phone_guard phone) (name_guest name) guests)
      (returning (phone_guard phone) (name_guest name) guests)

unfoldable pub get_or_create_conversation : String → String → List Conversation → List Conversation
get_or_create_conversation uuid guest conversations =
    if any (λ c. str_eq c.guest_id guest) conversations
    then conversations
    else conversations
      ++ record { id = uuid; guest_id = guest; status = ai_active; human_active_until = none } ∷ []
