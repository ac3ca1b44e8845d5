-- ===== src/Staff/Parsing/Typed.antt =====
-- What staff type is read as it was meant: DONE in any case, any white space, with or without the
-- hash of the card (parseStaffCommand).
use nistula_assistance.Prelude.{
  ℕ, ◌≡◌, refl, ap, ◌∙◌, some, List, [], ◌∷◌, ◌++◌, Bool, true, false, arith, codes, map, All,
  All-map,
}
use nistula_assistance.Lifecycle.Gates.{is_space, trim_start, trim_end, trim, lower, is_blank}
use nistula_assistance.Staff.Parsing.{
  done, is_alnum, strip_word, strip_spaces, strip_hash, take_while, drop_while, all_of,
  is_id_length, anchored_run, parse_id, parse_trimmed, parse_staff_command,
}

abbrev pub IsAlnum : ℕ → Type 0
IsAlnum c = is_alnum c ≡ true

abbrev pub IsSpace : ℕ → Type 0
IsSpace c = is_space c ≡ true

abbrev IsSolid : ℕ → Type 0
IsSolid c = is_space c ≡ false

alnum-IsSolid : (c : ℕ) → IsAlnum c → IsSolid c
unfolding is_space
alnum-IsSolid c h = ground arith

strip_word-lower :
    (w word rest : List ℕ) → map lower word ≡ w → strip_word w (word ++ rest) ≡ some rest
unfolding strip_word
strip_word-lower [] [] rest h = refl
strip_word-lower [] (c ∷ word) rest h = absurd (ground arith)
strip_word-lower (x ∷ w) [] rest h = absurd (ground arith)
strip_word-lower (x ∷ w) (c ∷ word) rest h =
    let first : lower c ≡ x = ground arith in
    let others : map lower word ≡ w = ground arith in
    ground (arith, first, strip_word-lower w word rest others)

blank_append : (x s : List ℕ) → is_blank s ≡ false → is_blank (x ++ s) ≡ false
blank_append [] s h = h
blank_append (c ∷ x) s h = refl

trim_end-solid : (s : List ℕ) → All IsSolid s → trim_end s ≡ s
unfolding trim_end
trim_end-solid [] h = refl
trim_end-solid (c ∷ s) (h, hs) = rw (h, trim_end-solid s hs) refl

trim_end-append : (x s : List ℕ) → is_blank s ≡ false → trim_end s ≡ s → trim_end (x ++ s) ≡ x ++ s
unfolding trim_end
trim_end-append [] s h k = k
trim_end-append (c ∷ x) s h k =
    let rest = trim_end-append x s h k in
    let solid = blank_append x s h in rw (rest) (ground (arith, solid))

trim_start-solid : (c : ℕ) (s : List ℕ) → IsSolid c → trim_start (c ∷ s) ≡ c ∷ s
unfolding trim_start
trim_start-solid c s h = rw h refl

trim_start-spaces :
    (spaces : List ℕ) (c : ℕ) (s : List ℕ)
    → All IsSpace spaces
    → IsSolid c
    → trim_start (spaces ++ (c ∷ s)) ≡ c ∷ s
unfolding trim_start
trim_start-spaces [] c s h k = trim_start-solid c s k
trim_start-spaces (x ∷ spaces) c s (h, hs) k = rw h (trim_start-spaces spaces c s hs k)

take_while-All : (p : ℕ → Bool) (s : List ℕ) → All (λ c. p c ≡ true) s → take_while p s ≡ s
unfolding take_while
take_while-All p [] h = refl
take_while-All p (c ∷ s) (h, hs) = rw (h, take_while-All p s hs) refl

drop_while-All : (p : ℕ → Bool) (s : List ℕ) → All (λ c. p c ≡ true) s → drop_while p s ≡ []
unfolding drop_while
drop_while-All p [] h = refl
drop_while-All p (c ∷ s) (h, hs) = rw (h, drop_while-All p s hs) refl

hash-IsSolid : IsSolid b'#'
unfolding is_space
hash-IsSolid = refl

-- the hash of the card, or none
abbrev pub hashed : Bool → List ℕ → List ℕ
hashed true id = b'#' ∷ id
hashed false id = id

strip_hash-hashed :
    (with_hash : Bool) (c : ℕ) (id : List ℕ)
    → IsAlnum c
    → strip_hash (hashed with_hash (c ∷ id)) ≡ c ∷ id
strip_hash-hashed true c id h = refl
strip_hash-hashed false c id h = ground arith

strip_spaces-hashed :
    (space : ℕ) (spaces : List ℕ) (with_hash : Bool) (c : ℕ) (id : List ℕ)
    → IsSpace space
    → All IsSpace spaces
    → IsAlnum c
    → strip_spaces (some (space ∷ (spaces ++ hashed with_hash (c ∷ id))))
      ≡ some (hashed with_hash (c ∷ id))
unfolding strip_spaces
strip_spaces-hashed space spaces true c id h hs k =
    rw (h, trim_start-spaces spaces b'#' (c ∷ id) hs (hash-IsSolid)) refl
strip_spaces-hashed space spaces false c id h hs k =
    rw (h, trim_start-spaces spaces c id hs (alnum-IsSolid c k)) refl

-- An id: four to ten letters and digits, given by its first one.
pub record IsId (c : ℕ) (id : List ℕ) : Type 0 where
  pub alnum : All IsAlnum (c ∷ id)
  pub fits : is_id_length (c ∷ id) ≡ true

anchored_run-hashed :
    (with_hash : Bool) (c : ℕ) (id : List ℕ)
    → IsId c id
    → anchored_run is_alnum is_id_length (some (hashed with_hash (c ∷ id))) ≡ some (c ∷ id)
unfolding all_of
anchored_run-hashed with_hash c id h =
    rw
      (
        strip_hash-hashed with_hash c id h.alnum.0,
        take_while-All is_alnum (c ∷ id) h.alnum,
        drop_while-All is_alnum (c ∷ id) h.alnum,
        h.fits,
      )
      refl

parse_id-hashed :
    (w word : List ℕ) (space : ℕ) (spaces : List ℕ) (with_hash : Bool) (c : ℕ) (id : List ℕ)
    → map lower word ≡ w
    → IsSpace space
    → All IsSpace spaces
    → IsId c id
    → parse_id w (word ++ (space ∷ (spaces ++ hashed with_hash (c ∷ id)))) ≡ some (c ∷ id)
unfolding parse_id
parse_id-hashed w word space spaces with_hash c id e h hs k =
    rw
      (
        strip_word-lower w word (space ∷ (spaces ++ hashed with_hash (c ∷ id))) e,
        strip_spaces-hashed space spaces with_hash c id h hs k.alnum.0,
      )
      (anchored_run-hashed with_hash c id k)

trim_end-hashed :
    (with_hash : Bool) (c : ℕ) (id : List ℕ)
    → All IsAlnum (c ∷ id)
    → trim_end (hashed with_hash (c ∷ id)) ≡ hashed with_hash (c ∷ id)
trim_end-hashed true c id h =
    trim_end-solid (b'#' ∷ (c ∷ id)) (hash-IsSolid, All-map alnum-IsSolid (c ∷ id) h)
trim_end-hashed false c id h = trim_end-solid (c ∷ id) (All-map alnum-IsSolid (c ∷ id) h)

hashed-is_blank :
    (with_hash : Bool) (c : ℕ) (id : List ℕ) → is_blank (hashed with_hash (c ∷ id)) ≡ false
hashed-is_blank true c id = refl
hashed-is_blank false c id = refl

typed-trim :
    (d : ℕ) (word spaces : List ℕ) (with_hash : Bool) (c : ℕ) (id : List ℕ)
    → IsSolid d
    → All IsAlnum (c ∷ id)
    → trim (d ∷ (word ++ (spaces ++ hashed with_hash (c ∷ id))))
      ≡ d ∷ (word ++ (spaces ++ hashed with_hash (c ∷ id)))
typed-trim d word spaces with_hash c id solid h =
    let text = spaces ++ hashed with_hash (c ∷ id) in
    let blank = hashed-is_blank with_hash c id in
    let inner : trim_end text ≡ text =
      trim_end-append spaces (hashed with_hash (c ∷ id)) blank (trim_end-hashed with_hash c id h) in
    ap trim_end (trim_start-solid d (word ++ text) solid)
    ∙ trim_end-append (d ∷ word) text (blank_append spaces _ blank) inner

d-IsSolid : (d : ℕ) → lower d ≡ b'd' → IsSolid d
unfolding is_space
d-IsSolid d h = ground arith

-- A text of the word done in any case, white space, a hash or none, and four to ten letters and
-- digits is read as the closing of exactly those characters, in the case that they were typed in.
pub parse_staff_command-done :
    (d : ℕ) (word : List ℕ) (space : ℕ) (spaces : List ℕ) (with_hash : Bool) (c : ℕ) (id : List ℕ)
    → map lower (d ∷ word) ≡ codes "done"
    → IsSpace space
    → All IsSpace spaces
    → IsId c id
    → parse_staff_command (some (d ∷ (word ++ (space ∷ (spaces ++ hashed with_hash (c ∷ id))))))
      ≡ done (c ∷ id)
unfolding parse_staff_command parse_trimmed
parse_staff_command-done d word space spaces with_hash c id e h hs k =
    let solid = d-IsSolid d (ground arith) in
    rw
      (
        typed-trim d word (space ∷ spaces) with_hash c id solid k.alnum,
        parse_id-hashed (codes "done") (d ∷ word) space spaces with_hash c id e h hs k,
      )
      refl
