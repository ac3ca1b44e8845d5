-- ===== src/Lifecycle/Retired.antt =====
-- isRetiredVillaType of src/lib/villas.ts: the names of the villa product that is no longer let.
use nistula_assistance.Prelude.{
  ℕ, Option, some, none, List, [], ◌∷◌, Bool, true, false, not, ◌&&◌, ◌||◌, ◌==◌, leb, codes,
  if◌then◌else◌,
}
use nistula_assistance.Lifecycle.Gates.{lower, is_space}

-- A character of `\w`.
abbrev pub is_word : ℕ → Bool
is_word c =
    (leb b'a' c && leb c b'z')
    || ((leb b'A' c && leb c b'Z') || ((leb b'0' c && leb c b'9') || c == b'_'))

-- What follows a word, read without case, if the text begins with it.
unfoldable pub after_word : List ℕ → List ℕ → Option (List ℕ)
after_word [] text = some text
after_word (p ∷ ps) [] = none
after_word (p ∷ ps) (c ∷ s) = let rest = after_word ps s in if lower c == p then rest else none

abbrev pub at_boundary : List ℕ → Bool
at_boundary [] = true
at_boundary (c ∷ _) = not (is_word c)

abbrev pub ends_word : Option (List ℕ) → Bool
ends_word none = false
ends_word (some rest) = at_boundary rest

-- `\s+villa\b`, once one white space has been read
unfoldable pub spaces_villa : List ℕ → Bool
spaces_villa [] = false
spaces_villa (c ∷ s) =
    let rest = spaces_villa s in
    if is_space c then rest else ends_word (after_word (codes "villa") (c ∷ s))

abbrev pub one_space : Option (List ℕ) → Bool
one_space none = false
one_space (some []) = false
one_space (some (c ∷ s)) = is_space c && spaces_villa s

-- `/\bnistula\s+villa\b/i` from a place on; the flag says whether a word character stands before it
unfoldable pub retired_from : Bool → List ℕ → Bool
unfolding after_word spaces_villa
retired_from in_word [] = false
retired_from in_word (c ∷ s) =
    (not in_word && one_space (after_word (codes "nistula") (c ∷ s))) || retired_from (is_word c) s

unfoldable pub is_retired_villa_type : Option (List ℕ) → Bool
unfolding retired_from
is_retired_villa_type none = false
is_retired_villa_type (some text) = retired_from false text
