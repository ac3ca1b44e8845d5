-- ===== src/Staff/Parsing.antt =====
-- parseStaffCommand of src/staff/commands.ts and parseDraftCommand of src/staff/draftCommands.ts:
-- the patterns as functions on the codes of a text.

pub mod Typed
use nistula_assistance.Prelude.{
  ℕ, Option, some, none, List, [], ◌∷◌, Bool, true, false, ◌&&◌, ◌||◌, ◌==◌, leb, codes, length,
  if◌then◌else◌,
}
use nistula_assistance.Lifecycle.Gates.{is_space, trim_start, trim_end, lower, trim, is_blank}

pub data StaffCommand : Type 0 where
  done ai_on ai_off : List ℕ → StaffCommand
  tasks unknown : StaffCommand

pub data DraftCommand : Type 0 where
  ok reject : List ℕ → DraftCommand
  edit : List ℕ → List ℕ → DraftCommand

-- `[a-z0-9]` under the flag i
abbrev pub is_alnum : ℕ → Bool
is_alnum c =
    (leb b'0' c && leb c b'9') || ((leb b'a' c && leb c b'z') || (leb b'A' c && leb c b'Z'))

abbrev pub is_digit : ℕ → Bool
is_digit c = leb b'0' c && leb c b'9'

-- a word at the start, in any case; what follows it
unfoldable pub strip_word : List ℕ → List ℕ → Option (List ℕ)
strip_word [] text = some text
strip_word (w ∷ word) [] = none
strip_word (w ∷ word) (c ∷ text) =
    let rest = strip_word word text in if lower c == w then rest else none

-- `\s+`
unfoldable pub strip_spaces : Option (List ℕ) → Option (List ℕ)
unfolding is_space trim_start
strip_spaces none = none
strip_spaces (some []) = none
strip_spaces (some (c ∷ text)) = if is_space c then some (trim_start text) else none

-- `#?`
abbrev pub strip_hash : List ℕ → List ℕ
strip_hash [] = []
strip_hash (c ∷ text) = if c == b'#' then text else c ∷ text

unfoldable pub take_while : (ℕ → Bool) → List ℕ → List ℕ
take_while p [] = []
take_while p (c ∷ text) = let rest = take_while p text in if p c then c ∷ rest else []

unfoldable pub drop_while : (ℕ → Bool) → List ℕ → List ℕ
drop_while p [] = []
drop_while p (c ∷ text) = let rest = drop_while p text in if p c then rest else c ∷ text

unfoldable pub all_of : (ℕ → Bool) → List ℕ → Bool
all_of p [] = true
all_of p (c ∷ text) = p c && all_of p text

-- `[\s.!]`
abbrev pub is_tail : ℕ → Bool
is_tail c = is_space c || (c == b'.' || c == b'!')

abbrev pub is_list_tail : ℕ → Bool
is_list_tail c = is_tail c || c == b'?'

-- The run of an id: the word boundary and the tail make it the whole run of its characters.
abbrev pub run_if : Bool → List ℕ → Option (List ℕ)
run_if true run = some run
run_if false run = none

abbrev pub is_id_length : List ℕ → Bool
is_id_length run = leb 4 (length run) && leb (length run) 10

abbrev pub anchored_run : (ℕ → Bool) → (List ℕ → Bool) → Option (List ℕ) → Option (List ℕ)
anchored_run p fits none = none
anchored_run p fits (some text) =
    let body = strip_hash text in
    let run = take_while p body in run_if (fits run && all_of is_tail (drop_while p body)) run

-- `word\s+#?([a-z0-9]{4,10})\b[\s.!]*`
unfoldable pub parse_id : List ℕ → List ℕ → Option (List ℕ)
unfolding strip_word strip_spaces take_while drop_while all_of is_space
parse_id word text = anchored_run is_alnum is_id_length (strip_spaces (strip_word word text))

abbrev pub has_four : List ℕ → Bool
has_four run = leb 4 (length run)

abbrev pub digits_after : List ℕ → Option (List ℕ) → Option (List ℕ)
digits_after word none = none
digits_after word (some text) = anchored_run is_digit has_four (strip_spaces (strip_word word text))

-- `ai\s+(on|off)\s+#?(\d{4,})\b[\s.!]*`, for one of the two words
unfoldable pub parse_ai : List ℕ → List ℕ → Option (List ℕ)
unfolding strip_word strip_spaces take_while drop_while all_of is_space
parse_ai word text = digits_after word (strip_spaces (strip_word (codes "ai") text))

abbrev pub is_list_call : Option (List ℕ) → Bool
is_list_call none = false
is_list_call (some rest) = all_of is_list_tail rest

abbrev pub ai_command : Option (List ℕ) → Option (List ℕ) → StaffCommand
ai_command (some digits) off = ai_on digits
ai_command none (some digits) = ai_off digits
ai_command none none = unknown

abbrev pub done_or : Option (List ℕ) → StaffCommand → StaffCommand
done_or (some id) other = done id
done_or none other = other

abbrev pub body_or_empty : Option (List ℕ) → List ℕ
body_or_empty none = []
body_or_empty (some text) = text

unfoldable pub parse_trimmed : List ℕ → StaffCommand
unfolding parse_id parse_ai strip_word all_of
parse_trimmed text = done_or (parse_id (codes "done") text) (
    if is_list_call (strip_word (codes "tasks") text)
    then tasks
    else ai_command (parse_ai (codes "on") text) (parse_ai (codes "off") text))

unfoldable pub parse_staff_command : Option (List ℕ) → StaffCommand
unfolding parse_trimmed trim_start trim_end
parse_staff_command body = parse_trimmed (trim (body_or_empty body))

-- `edit\s+#?([a-z0-9]{4,10})\s+([\s\S]+)`, whose tail is then trimmed
abbrev pub edit_of : List ℕ → Option (List ℕ) → Option DraftCommand
edit_of run none = none
edit_of run (some rest) =
    let text = trim rest in if is_blank text then none else some (edit run text)

abbrev pub edit_run : Option (List ℕ) → Option DraftCommand
edit_run none = none
edit_run (some text) =
    let body = strip_hash text in
    let run = take_while is_alnum body in
    if is_id_length run then edit_of run (strip_spaces (some (drop_while is_alnum body))) else none

abbrev pub draft_command :
    Option (List ℕ) → Option (List ℕ) → Option DraftCommand → Option DraftCommand
draft_command (some id) refused edited = some (ok id)
draft_command none (some id) edited = some (reject id)
draft_command none none edited = edited

unfoldable pub parse_draft_command : Option (List ℕ) → Option DraftCommand
unfolding parse_id strip_word strip_spaces take_while drop_while trim_start trim_end
parse_draft_command body =
    let text = trim (body_or_empty body) in
    draft_command (parse_id (codes "ok") text) (parse_id (codes "no") text)
      (edit_run (strip_spaces (strip_word (codes "edit") text)))
