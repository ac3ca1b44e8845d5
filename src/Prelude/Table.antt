-- ===== src/Prelude/Table.antt =====
-- A database table as the list of its rows, and the guarded UPDATE ... WHERE ... RETURNING that
-- every state flip of the program is made by.
use Prim.Native.Nat.{ℕ, zero, suc}
use mathlib.Core.Path.{◌≡◌, refl, ap}
use mathlib.Core.Logic.{inl, inr}
use mathlib.Core.Bool.{Bool, true, false}
use mathlib.Core.List.{List, [], ◌∷◌, ◌++◌}
use mathlib.Core.Option.{some}
use native.Mathlib.Omega.{arith}
use nistula_assistance.Prelude.Tests.{if◌then◌else◌, Bool-cases}
use nistula_assistance.Prelude.Lists.{length, get_elem?, All}

module _ {ℓ} {A : Type ℓ} where
  -- SELECT ... WHERE
  unfoldable pub select_where : (A → Bool) → List A → List A
  select_where p [] = []
  select_where p (r ∷ rows) = let rest = select_where p rows in if p r then r ∷ rest else rest

  -- the rows after UPDATE ... SET ... WHERE
  unfoldable pub update_where : (A → Bool) → (A → A) → List A → List A
  update_where p f [] = []
  update_where p f (r ∷ rows) = (if p r then f r else r) ∷ update_where p f rows

  -- what RETURNING gives: the changed rows
  unfoldable pub returning : (A → Bool) → (A → A) → List A → List A
  returning p f [] = []
  returning p f (r ∷ rows) = let rest = returning p f rows in if p r then f r ∷ rest else rest

  -- DELETE ... WHERE
  unfoldable pub delete_where : (A → Bool) → List A → List A
  delete_where p [] = []
  delete_where p (r ∷ rows) = let rest = delete_where p rows in if p r then rest else r ∷ rest

  pub length-update_where :
      (p : A → Bool) (f : A → A) (rows : List A) → length (update_where p f rows) ≡ length rows
  unfolding update_where
  length-update_where p f [] = refl
  length-update_where p f (r ∷ rows) = ap suc (length-update_where p f rows)

  -- RETURNING gives one row for each that the guard selects.
  pub length-returning :
      (p : A → Bool) (f : A → A) (rows : List A)
      → length (returning p f rows) ≡ length (select_where p rows)
  unfolding returning select_where
  length-returning p f [] = refl
  length-returning p f (r ∷ rows) = ground (arith, length-returning p f rows)

  -- A change that falsifies the guard makes the same UPDATE a no-op that returns nothing.
  pub returning-update_where :
      (p : A → Bool) (f g : A → A) (rows : List A)
      → ((r : A) → p (f r) ≡ false)
      → returning p g (update_where p f rows) ≡ []
  unfolding returning update_where
  returning-update_where p f g [] h = refl
  returning-update_where p f g (r ∷ rows) h =
      ground (arith, h r, returning-update_where p f g rows h)

  pub select_where-All :
      (p : A → Bool) (rows : List A) → All (λ r. p r ≡ true) (select_where p rows)
  unfolding select_where
  select_where-All p [] = tt
  select_where-All p (r ∷ rows) = ground (arith, select_where-All p rows)

  pub All-select_where {κ} :
      (P : A → Type κ) (p : A → Bool) (rows : List A) → All P rows → All P (select_where p rows)
  unfolding select_where
  All-select_where P p [] h = tt
  All-select_where P p (r ∷ rows) (h, hs) = elim (Bool-cases (p r)) [
    | inl hit ↦ rw hit (h, All-select_where P p rows hs)
    | inr miss ↦ rw miss (All-select_where P p rows hs)
  ]

  pub All-both {κ κ'} :
      (P : A → Type κ) (Q : A → Type κ') (rows : List A)
      → All P rows
      → All Q rows
      → All (λ r. P r × Q r) rows
  All-both P Q [] h k = tt
  All-both P Q (r ∷ rows) (h, hs) (k, ks) = ((h, k), All-both P Q rows hs ks)

  pub update_where-All {κ} :
      (P : A → Type κ) (p : A → Bool) (f : A → A) (rows : List A)
      → ((r : A) → p r ≡ true → P r → P (f r))
      → All P rows
      → All P (update_where p f rows)
  unfolding update_where
  update_where-All P p f [] h k = tt
  update_where-All P p f (r ∷ rows) h (k, ks) =
      (ground (arith, h r), update_where-All P p f rows h ks)

  pub returning-All {κ} :
      (P : A → Type κ) (p : A → Bool) (f : A → A) (rows : List A)
      → ((r : A) → p r ≡ true → P (f r))
      → All P (returning p f rows)
  unfolding returning
  returning-All P p f [] h = tt
  returning-All P p f (r ∷ rows) h = ground (arith, h r, returning-All P p f rows h)

  -- The row at each place is the old one, changed exactly where the guard selects it.
  pub get_elem?-update_where :
      (p : A → Bool) (f : A → A) (rows : List A) (i : ℕ) (r : A)
      → get_elem? rows i ≡ some r
      → get_elem? (update_where p f rows) i ≡ some (if p r then f r else r)
  unfolding update_where
  get_elem?-update_where p f [] i r h = ground arith
  get_elem?-update_where p f (x ∷ rows) zero r h = ground arith
  get_elem?-update_where p f (x ∷ rows) (suc i) r h = get_elem?-update_where p f rows i r h

  pub get_elem?-append :
      (rows more : List A) (i : ℕ) (r : A)
      → get_elem? rows i ≡ some r
      → get_elem? (rows ++ more) i ≡ some r
  get_elem?-append [] more i r h = ground arith
  get_elem?-append (x ∷ rows) more zero r h = h
  get_elem?-append (x ∷ rows) more (suc i) r h = get_elem?-append rows more i r h

  -- An update that returns no row has changed none.
  pub update_where_of_returning_nil :
      (p : A → Bool) (f : A → A) (rows : List A)
      → returning p f rows ≡ []
      → update_where p f rows ≡ rows
  unfolding update_where returning
  update_where_of_returning_nil p f [] h = refl
  update_where_of_returning_nil p f (r ∷ rows) h =
      ground (arith, update_where_of_returning_nil p f rows)
