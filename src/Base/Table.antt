-- ===== src/Base/Table.antt =====
-- Tables as lists of rows, and the statements on them that the services use.
use Prim.Native.Nat.{ℕ, suc, ◌+◌}
use mathlib.Core.Path.{◌≡◌}
use mathlib.Core.Bool.{Bool}
use mathlib.Core.Option.{Option, none, some}
use mathlib.Core.List.{List, [], ◌∷◌, ◌++◌}
use native.Mathlib.Omega.{arith}
use proyecto_sd_reserva_de_h.Base.Tests.{if◌then◌else◌}

module _ {ℓ} {A : Type ℓ} where
  abbrev pub length : List A → ℕ
  length [] = 0
  length (x ∷ xs) = suc (length xs)

  pub length-append : (xs ys : List A) → length (xs ++ ys) ≡ length xs + length ys
  length-append [] ys = omega arith
  length-append (x ∷ xs) ys = omega (arith, length-append xs ys)

  abbrev pub All {κ} : (A → Type κ) → List A → Type κ
  All P [] = Unit
  All P (x ∷ xs) = P x × All P xs

  -- `SELECT … WHERE test`.
  unfoldable pub select : (A → Bool) → List A → List A
  select test [] = []
  select test (r ∷ rows) = let rest = select test rows in if test r then r ∷ rest else rest

  -- The first row that `test` accepts: `QueryRow(…).Scan(…)`.
  unfoldable pub find_row : (A → Bool) → List A → Option A
  find_row test [] = none
  find_row test (r ∷ rows) = if test r then some r else find_row test rows

  -- `none` is an expression out of its column's range.
  unfoldable pub place_row : Option A → Option (List A × ℕ) → Option (List A × ℕ)
  place_row (some r) (some (rows, n)) = some (r ∷ rows, suc n)
  place_row none _ = none
  place_row (some r) none = none

  unfoldable pub keep_row : A → Option (List A × ℕ) → Option (List A × ℕ)
  keep_row r none = none
  keep_row r (some (rows, n)) = some (r ∷ rows, n)

  -- `UPDATE … SET … WHERE test`, with the number of rows that it changes. A row whose new value
  -- is out of range fails the whole statement.
  unfoldable pub update_rows : (A → Bool) → (A → Option A) → List A → Option (List A × ℕ)
  unfolding place_row keep_row
  update_rows test change [] = some ([], 0)
  update_rows test change (r ∷ rows) =
      let rest = update_rows test change rows in
      if test r then place_row (change r) rest else keep_row r rest
