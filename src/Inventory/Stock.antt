-- ===== src/Inventory/Stock.antt =====
-- What the statements of inventario-service/main.go do to a table whose ids are a primary key.
use mathlib.Core.Path.{fun_ext}
use proyecto_sd_reserva_de_h.Base.{
  ℕ, ◌≡◌, refl, sym, ◌∙◌, ap, inl, inr, String, Bool, true, false, ◌&&◌, List, [], ◌∷◌, Option,
  none, some, arith, str_eq, str_eq_iff, find_row, update_rows, place_row, keep_row, Bool-cases,
  if◌then◌else◌,
}
use proyecto_sd_reserva_de_h.Base.Int.{ℤ, ◌+ℤ◌, ◌-ℤ◌, leb_ℤ, in_int4, int_laws, pos_part, neg_part}
use proyecto_sd_reserva_de_h.Inventory.Tables.{
  RoomType, has_id, set_stock, block_rows, release_rows, total_stock,
}

abbrev pub always : ℤ → Bool
always v = true

Option_some_eq : {v w : ℤ} → some v ≡ some w → v ≡ w
Option_some_eq e = ground arith

swap_stock : (v w t : ℤ) → v +ℤ t +ℤ w ≡ w +ℤ t +ℤ v
swap_stock v w t = omega int_laws

add_front : (a t' w t v : ℤ) → t' +ℤ w ≡ t +ℤ v → a +ℤ t' +ℤ w ≡ a +ℤ t +ℤ v
add_front a t' w t v h = omega (int_laws, ap pos_part h, ap neg_part h)

-- The stock of a room type.
unfoldable pub stock_of : {Price : Type 0} → String → List (RoomType Price) → Option ℤ
stock_of key rows = elim (find_row (has_id key) rows) [ none ↦ none | some r ↦ some r.stock_total ]

no_stock_in_nil :
    (Price : Type 0) (key : String) {w : ℤ} → stock_of {Price = Price} key [] ≡ some w → ⊥
unfolding stock_of find_row
no_stock_in_nil Price key h = cc

module _ {Price : Type 0} where
  -- The primary key: no id occurs twice.
  abbrev pub HasUniqueIds : List (RoomType Price) → Type 0
  HasUniqueIds [] = Unit
  HasUniqueIds (r ∷ rows) = (find_row (has_id r.id) rows ≡ none) × HasUniqueIds rows

  -- The stock of the first row with an id is set.
  unfoldable pub put_stock : String → ℤ → List (RoomType Price) → List (RoomType Price)
  put_stock key v [] = []
  put_stock key v (r ∷ rows) =
      let others = put_stock key v rows in
      if has_id key r then record r { stock_total = v } ∷ rows else r ∷ others

  -- What a conditional update of one row should do: nothing if the row is missing or its stock fails
  -- the guard, an error if the new stock is out of range, and one changed row otherwise.
  unfoldable pub adjust_row :
      (ℤ → Bool)
      → (ℤ → ℤ)
      → String
      → List (RoomType Price)
      → Option ℤ
      → Option (List (RoomType Price) × ℕ)
  adjust_row guard change key rows none = some (rows, 0)
  adjust_row guard change key rows (some v) =
      if guard v
      then if in_int4 (change v) then some (put_stock key (change v) rows, 1) else none
      else some (rows, 0)

  missing_rows :
      (test : RoomType Price → Bool) (change : RoomType Price → Option (RoomType Price))
      (key : String) (rows : List (RoomType Price))
      → ((r : RoomType Price) → has_id key r ≡ false → test r ≡ false)
      → find_row (has_id key) rows ≡ none
      → update_rows test change rows ≡ some (rows, 0)
  unfolding find_row update_rows
  missing_rows test change key [] h m = refl
  missing_rows test change key (r ∷ rows) h m = elim (Bool-cases (has_id key r)) [
    | inl e ↦ absurd (cc (rw e at m))
    | inr e ↦ rw (h r e, missing_rows test change key rows h (rw e at m)) refl
  ]

  find_row_other :
      (key : String) (r : RoomType Price) (rows : List (RoomType Price))
      → has_id key r ≡ true
      → find_row (has_id r.id) rows ≡ none
      → find_row (has_id key) rows ≡ none
  find_row_other key r rows e m = let same = (str_eq_iff r.id key).0 e in rw same at m

  adjust_row_hit :
      (guard : ℤ → Bool) (change : ℤ → ℤ) (key : String) (r : RoomType Price)
      (rows : List (RoomType Price))
      → has_id key r ≡ true
      → (if guard r.stock_total
          then place_row (set_stock (change r.stock_total) r) (some (rows, 0))
          else keep_row r (some (rows, 0)))
        ≡ adjust_row guard change key (r ∷ rows) (some r.stock_total)
  unfolding adjust_row put_stock set_stock place_row keep_row
  adjust_row_hit guard change key r rows e = ground arith

  adjust_row_miss :
      (guard : ℤ → Bool) (change : ℤ → ℤ) (key : String) (r : RoomType Price)
      (rows : List (RoomType Price)) (o : Option ℤ)
      → has_id key r ≡ false
      → keep_row r (adjust_row guard change key rows o) ≡ adjust_row guard change key (r ∷ rows) o
  unfolding adjust_row put_stock keep_row
  adjust_row_miss guard change key r rows none e = refl
  adjust_row_miss guard change key r rows (some v) e = ground arith

  pub stock_of_hit :
      (key : String) (r : RoomType Price) (rows : List (RoomType Price))
      → has_id key r ≡ true
      → stock_of key (r ∷ rows) ≡ some r.stock_total
  unfolding stock_of find_row
  stock_of_hit key r rows e = ground arith

  pub stock_of_miss :
      (key : String) (r : RoomType Price) (rows : List (RoomType Price))
      → has_id key r ≡ false
      → stock_of key (r ∷ rows) ≡ stock_of key rows
  unfolding stock_of find_row
  stock_of_miss key r rows e = rw (e, stock_of)

  -- A conditional update by id does what it should on a table with a primary key.
  pub update_rows_by_id :
      (guard : ℤ → Bool) (change : ℤ → ℤ) (key : String) (rows : List (RoomType Price))
      → HasUniqueIds rows
      → update_rows
          (λ r. has_id key r && guard r.stock_total)
          (λ r. set_stock (change r.stock_total) r)
          rows
        ≡ adjust_row guard change key rows (stock_of key rows)
  unfolding update_rows
  update_rows_by_id guard change key [] u = unfold adjust_row stock_of find_row in refl
  update_rows_by_id guard change key (r ∷ rows) u = elim (Bool-cases (has_id key r)) [
    | inl e ↦
        let rest =
          missing_rows (λ r. has_id key r && guard r.stock_total)
            (λ r. set_stock (change r.stock_total) r) key rows (λ r' e'. rw e')
            (find_row_other key r rows e u.0) in
        rw (e, rest, stock_of_hit key r rows e) (adjust_row_hit guard change key r rows e)
    | inr e ↦
        rw (e, update_rows_by_id guard change key rows u.1, stock_of_miss key r rows e)
          (adjust_row_miss guard change key r rows (stock_of key rows) e)
  ]

  -- The two statements, for every quantity.
  pub block_rows_by_id :
      (quantity : ℤ) (key : String) (rows : List (RoomType Price))
      → HasUniqueIds rows
      → block_rows quantity key rows
        ≡ adjust_row (leb_ℤ quantity) (λ v. v -ℤ quantity) key rows (stock_of key rows)
  unfolding block_rows
  block_rows_by_id quantity key rows u =
      update_rows_by_id (leb_ℤ quantity) (λ v. v -ℤ quantity) key rows u

  pub release_rows_by_id :
      (quantity : ℤ) (key : String) (rows : List (RoomType Price))
      → HasUniqueIds rows
      → release_rows quantity key rows
        ≡ adjust_row always (λ v. v +ℤ quantity) key rows (stock_of key rows)
  unfolding release_rows
  release_rows_by_id quantity key rows u =
      rw (← and_true) (update_rows_by_id always (λ v. v +ℤ quantity) key rows u)
    where
      and_true : (λ (r : RoomType Price). has_id key r && true) ≡ has_id key
      and_true = fun_ext λ r. ground arith

  -- Reading after the write of one stock.
  pub stock_of-put_stock :
      (key j : String) (v : ℤ) (rows : List (RoomType Price))
      → stock_of j (put_stock key v rows) ≡ (
          if str_eq key j
          then elim (stock_of j rows) [ none ↦ none | some w ↦ some v ]
          else stock_of j rows)
  unfolding stock_of find_row put_stock
  stock_of-put_stock key j v [] = ground arith
  stock_of-put_stock key j v (r ∷ rows) = ground (
    arith,
    str_eq_iff key j,
    str_eq_iff r.id key,
    str_eq_iff r.id j,
    stock_of-put_stock key j v rows,
  )

  -- The sum moves by as much as the one stock.
  pub total_stock-put_stock :
      (key : String) (v w : ℤ) (rows : List (RoomType Price))
      → stock_of key rows ≡ some w
      → total_stock (put_stock key v rows) +ℤ w ≡ total_stock rows +ℤ v
  unfolding put_stock total_stock
  total_stock-put_stock key v w [] h = absurd (no_stock_in_nil Price key h)
  total_stock-put_stock key v w (r ∷ rows) h = elim (Bool-cases (has_id key r)) [
    | inl e ↦ rw e (
        rw (Option_some_eq (sym (stock_of_hit key r rows e) ∙ h))
          (swap_stock v w (total_stock rows)))
    | inr e ↦ rw e (
        add_front r.stock_total _ _ _ _
          (total_stock-put_stock key v w rows (sym (stock_of_miss key r rows e) ∙ h)))
  ]

  missing-put_stock :
      (j key : String) (v : ℤ) (rows : List (RoomType Price))
      → find_row (has_id j) rows ≡ none
      → find_row (has_id j) (put_stock key v rows) ≡ none
  unfolding find_row put_stock
  missing-put_stock j key v [] h = refl
  missing-put_stock j key v (r ∷ rows) h = ground (arith, missing-put_stock j key v rows)

  pub put_stock-HasUniqueIds :
      (key : String) (v : ℤ) (rows : List (RoomType Price))
      → HasUniqueIds rows
      → HasUniqueIds (put_stock key v rows)
  unfolding put_stock
  put_stock-HasUniqueIds key v [] u = tt
  put_stock-HasUniqueIds key v (r ∷ rows) u =
      ground (arith, put_stock-HasUniqueIds key v rows, missing-put_stock r.id key v rows)
