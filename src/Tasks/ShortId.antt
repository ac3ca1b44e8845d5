-- ===== src/Tasks/ShortId.antt =====
-- The short id that a human types back (generateShortId of src/db/tasks.ts).
use nistula_assistance.Prelude.{
  ℕ, zero, suc, ◌+◌, ◌-◌, ◌≡◌, refl, List, [], ◌∷◌, map, codes, leb, ◌&&◌, if◌then◌else◌, get_elem?,
  arith, All, Option-cases, inl, inr, some, none,
}
use nistula_assistance.Tasks.Writes.{upper_code, to_upper}

abbrev short_id_alphabet : List ℕ
short_id_alphabet = codes "0123456789ABCDEFGHJKMNPQRSTVWXYZ"

abbrev pub short_id_length : ℕ
short_id_length = 6

-- A character of the alphabet; `randomInt` stays below its length, where `undefined` never arises.
unfoldable pub alphabet_at : ℕ → ℕ
alphabet_at i = elim (get_elem? short_id_alphabet i) [ none ↦ 0 | some c ↦ c ]

-- the loop of generateShortId; `draw i` is what the i-th call of randomInt returned
unfoldable pub draw_chars : (ℕ → ℕ) → ℕ → ℕ → List ℕ
draw_chars draw i zero = []
draw_chars draw i (suc left) = alphabet_at (draw i) ∷ draw_chars draw (i + 1) left

unfoldable pub generate_short_id : (ℕ → ℕ) → List ℕ
unfolding draw_chars alphabet_at
generate_short_id draw = draw_chars draw 0 short_id_length

-- the lower-case letter that a phone keyboard gives for a code
abbrev pub lower_code : ℕ → ℕ
lower_code c = if leb b'A' c && leb c b'Z' then c + b'a' - b'A' else c

abbrev Returns : ℕ → Type 0
Returns c = upper_code (lower_code c) ≡ c

alphabet-Returns : All Returns short_id_alphabet
unfolding upper_code
alphabet-Returns = ground arith

get_elem?-Returns : (cs : List ℕ) (i c : ℕ) → All Returns cs → get_elem? cs i ≡ some c → Returns c
get_elem?-Returns [] i c all h = absurd (ground arith)
get_elem?-Returns (d ∷ cs) zero c (r, all) h = ground (arith, r)
get_elem?-Returns (d ∷ cs) (suc i) c (r, all) h = get_elem?-Returns cs i c all h

alphabet_at-Returns : (i : ℕ) → Returns (alphabet_at i)
unfolding alphabet_at upper_code
alphabet_at-Returns i = elim (Option-cases (get_elem? short_id_alphabet i)) [
  | inl outside ↦ rw outside refl
  | inr (c, h) ↦ rw h (get_elem?-Returns short_id_alphabet i c alphabet-Returns h)
]

upper-lower-draw_chars :
    (draw : ℕ → ℕ) (i left : ℕ)
    → to_upper (map lower_code (draw_chars draw i left)) ≡ draw_chars draw i left
unfolding draw_chars
upper-lower-draw_chars draw i zero = refl
upper-lower-draw_chars draw i (suc left) =
    cc (alphabet_at-Returns (draw i), upper-lower-draw_chars draw (i + 1) left)

-- An id typed in lower case is read back as the id that was issued.
pub upper-lower-generate_short_id :
    (draw : ℕ → ℕ) → to_upper (map lower_code (generate_short_id draw)) ≡ generate_short_id draw
unfolding generate_short_id
upper-lower-generate_short_id draw = upper-lower-draw_chars draw 0 6
