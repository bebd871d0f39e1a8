-- ===== src/Inventory/Contract.antt =====
-- An abstract service of stocks for `UpdateStock` (inventario-service/main.go): a map from room types
-- to stocks, which forgets the other columns and the order of the rows, and the answer to each
-- request. The handler implements it; Promise is about what the README documents.
pub mod Promise
use mathlib.Core.Path.{fun_ext, subst}
use proyecto_sd_reserva_de_h.Base.{
  ℕ, ◌+◌, ◌≡◌, refl, sym, ◌∙◌, ap, inl, inr, String, Bool, List, Option, none, some, str_eq,
  str_eq_iff, Bool-cases, if◌then◌else◌, Result, ok, err, Outcome, done, refused, unacknowledged,
  Env, perform, answered, reply_lost, Answer, fail, Code, status_error, concat,
}
use proyecto_sd_reserva_de_h.Base.Int.{ℤ, ◌+ℤ◌, ◌-ℤ◌, leb_ℤ, in_int4}
use proyecto_sd_reserva_de_h.Inventory.Events.{operation_block, operation_release}
use proyecto_sd_reserva_de_h.Inventory.Tables.{RoomType, UpdateStockRequest, UpdateStockResponse}
use proyecto_sd_reserva_de_h.Inventory.Stock.{
  HasUniqueIds, put_stock, stock_of, adjust_row, always, block_rows_by_id, release_rows_by_id,
  stock_of-put_stock, put_stock-HasUniqueIds,
}
use proyecto_sd_reserva_de_h.Inventory.Server.{
  InventoryServer, run_statement, statement_result, change_stock, is_block, is_release,
  update_stock,
}
use proyecto_sd_reserva_de_h.Inventory.Server.Frames.{settled_answer, settle_lem, refuse_action_lem}

abbrev pub Stocks : Type 0
Stocks = String → Option ℤ

abbrev pub view : {Price : Type 0} → List (RoomType Price) → Stocks
view rows key = stock_of key rows

abbrev pub put : String → ℤ → Stocks → Stocks
put key v stocks j = if str_eq key j then some v else stocks j

-- One conditional change of one stock.
abbrev move_from : (ℤ → Bool) → (ℤ → ℤ) → String → Stocks → Option ℤ → Result String (ℕ × Stocks)
move_from guard change key stocks none = ok (0, stocks)
move_from guard change key stocks (some v) =
    if guard v
    then if in_int4 (change v)
      then ok (1, put key (change v) stocks)
      else err "integer out of range"
    else ok (0, stocks)

abbrev pub move : (ℤ → Bool) → (ℤ → ℤ) → String → Stocks → Result String (ℕ × Stocks)
move guard change key stocks = move_from guard change key stocks (stocks key)

abbrev promise :
    Env
    → UpdateStockRequest
    → String
    → Result String ℕ × Stocks
    → Answer UpdateStockResponse × Stocks
promise env req label (r, stocks) = (settled_answer env req label r, stocks)

-- The contract: blocking takes from a stock that covers the quantity, releasing adds, any other
-- action is refused, and the outcome of the database call decides whether the change happens and
-- whether it is seen.
unfoldable pub contract :
    Env → Outcome → UpdateStockRequest → Stocks → Answer UpdateStockResponse × Stocks
contract env outcome req stocks =
    if is_block req.accion
    then promise env req "bloquear" (
        perform outcome (move (leb_ℤ req.cantidad) (λ v. v -ℤ req.cantidad) req.room_type_id)
          stocks)
    else if is_release req.accion
    then promise env req "liberar"
        (perform outcome (move always (λ v. v +ℤ req.cantidad) req.room_type_id) stocks)
    else (fail (status_error Code.invalid_argument (concat "accion invalida: " req.accion)), stocks)

module _ {Price : Type 0} where
  -- A statement's result on rows, and on stocks.
  abbrev Agrees : Result String (ℕ × List (RoomType Price)) → Result String (ℕ × Stocks) → Type 0
  Agrees (ok (n, rows)) (ok (m, stocks)) = (n ≡ m) × (view rows ≡ stocks) × HasUniqueIds rows
  Agrees (err e) (err e') = e ≡ e'
  Agrees _ _ = ⊥

  view-put_stock :
      (key : String) (v w : ℤ) (rows : List (RoomType Price))
      → stock_of key rows ≡ some w
      → view (put_stock key v rows) ≡ put key v (view rows)
  view-put_stock key v w rows h = fun_ext λ j. elim (Bool-cases (str_eq key j)) [
    | inl e ↦ rw (stock_of-put_stock key j v rows, e, ← (str_eq_iff key j).0 e, h) refl
    | inr e ↦ rw (stock_of-put_stock key j v rows, e) refl
  ]

  adjust_row-Agrees :
      (guard : ℤ → Bool) (change : ℤ → ℤ) (key : String) (rows : List (RoomType Price))
      (o : Option ℤ)
      → HasUniqueIds rows
      → stock_of key rows ≡ o
      → Agrees
          (run_statement (λ rs. adjust_row guard change key rs o) rows)
          (move_from guard change key (view rows) o)
  unfolding adjust_row
  adjust_row-Agrees guard change key rows none u h = (refl, refl, u)
  adjust_row-Agrees guard change key rows (some v) u h = elim (Bool-cases (guard v)) [
    | inl e ↦ elim (Bool-cases (in_int4 (change v))) [
      | inl f ↦
          rw (e, f)
            (
              refl,
              view-put_stock key (change v) v rows h,
              put_stock-HasUniqueIds key (change v) rows u,
            )
      | inr f ↦ rw (e, f) refl
    ]
    | inr e ↦ rw e (refl, refl, u)
  ]

  done-Agrees :
      (rows : List (RoomType Price)) (r : Result String (ℕ × List (RoomType Price)))
      (r' : Result String (ℕ × Stocks))
      → HasUniqueIds rows
      → Agrees r r'
      → ((answered rows r).0 ≡ (answered (view rows) r').0)
        × (view (answered rows r).1 ≡ (answered (view rows) r').1)
        × HasUniqueIds (answered rows r).1
  done-Agrees rows (ok (n, rows')) (ok (m, st)) u h = (ap ok h.0, h.1, h.2)
  done-Agrees rows (err e) (err e') u h = (ap err h, refl, u)
  done-Agrees rows (ok p) (err e') u h = absurd h
  done-Agrees rows (err e) (ok p) u h = absurd h

  lost-Agrees :
      (e : String) (rows : List (RoomType Price)) (r : Result String (ℕ × List (RoomType Price)))
      (r' : Result String (ℕ × Stocks))
      → HasUniqueIds rows
      → Agrees r r'
      → ((reply_lost e rows r).0 ≡ (reply_lost e (view rows) r').0)
        × (view (reply_lost e rows r).1 ≡ (reply_lost e (view rows) r').1)
        × HasUniqueIds (reply_lost e rows r).1
  lost-Agrees e rows (ok (n, rows')) (ok (m, st)) u h = (refl, h.1, h.2)
  lost-Agrees e rows (err x) (err y) u h = (ap err h, refl, u)
  lost-Agrees e rows (ok p) (err y) u h = absurd h
  lost-Agrees e rows (err x) (ok p) u h = absurd h

  -- Running the statement under an outcome keeps the two in step.
  perform-Agrees :
      (outcome : Outcome) (rows : List (RoomType Price))
      (f : List (RoomType Price) → Result String (ℕ × List (RoomType Price)))
      (g : Stocks → Result String (ℕ × Stocks))
      → HasUniqueIds rows
      → Agrees (f rows) (g (view rows))
      → ((perform outcome f rows).0 ≡ (perform outcome g (view rows)).0)
        × (view (perform outcome f rows).1 ≡ (perform outcome g (view rows)).1)
        × HasUniqueIds (perform outcome f rows).1
  unfolding perform
  perform-Agrees done rows f g u h = done-Agrees rows (f rows) (g (view rows)) u h
  perform-Agrees (refused e) rows f g u h = (refl, refl, u)
  perform-Agrees (unacknowledged e) rows f g u h = lost-Agrees e rows (f rows) (g (view rows)) u h

  -- What the handler shows of the tables and the answer, and what the contract says.
  abbrev pub Refines :
      Answer UpdateStockResponse × InventoryServer Price
      → Answer UpdateStockResponse × Stocks
      → Type 0
  Refines (a, s) (a', stocks) = (a ≡ a') × (view s.room_types ≡ stocks) × HasUniqueIds s.room_types

  change_stock-Refines :
      (env : Env) (label operation : String) (req : UpdateStockRequest) (s : InventoryServer Price)
      (statement : List (RoomType Price) → Option (List (RoomType Price) × ℕ)) (guard : ℤ → Bool)
      (change : ℤ → ℤ)
      → HasUniqueIds s.room_types
      → statement s.room_types
        ≡ adjust_row guard change req.room_type_id s.room_types
            (stock_of req.room_type_id s.room_types)
      → Refines (change_stock env label operation req statement s) (
          promise env req label
            (perform (env.outcome s.tick) (move guard change req.room_type_id) (view s.room_types)))
  unfolding change_stock
  change_stock-Refines env label operation req s statement guard change u e =
      let rows = s.room_types in
      let key = req.room_type_id in
      let step =
        perform-Agrees (env.outcome s.tick) rows (run_statement statement) (move guard change key) u
          (subst (λ o. Agrees (statement_result o) (move guard change key (view rows))) (sym e)
            (adjust_row-Agrees guard change key rows (stock_of key rows) u refl)) in
      let after = record s {
        room_types = (perform (env.outcome s.tick) (run_statement statement) rows).1;
        tick = s.tick + 1;
      } in
      let (answer, frame) =
        settle_lem env req after label operation
          (perform (env.outcome s.tick) (run_statement statement) rows).0 in
      (
        answer ∙ ap (settled_answer env req label) step.0,
        ap view frame ∙ step.1,
        subst HasUniqueIds (sym frame) step.2,
      )

  -- The handler refines the contract: its answer is the contract's, the stocks that its table shows
  -- afterwards are the contract's, and the ids stay unique.
  pub update_stock-Refines :
      (env : Env) (req : UpdateStockRequest) (s : InventoryServer Price)
      → HasUniqueIds s.room_types
      → Refines (update_stock env req s) (contract env (env.outcome s.tick) req (view s.room_types))
  unfolding update_stock contract
  update_stock-Refines env req s u = elim (Bool-cases (is_block req.accion)) [
    | inl b ↦ rw b (
        change_stock-Refines env "bloquear" operation_block req s _ _ _ u
          (block_rows_by_id req.cantidad req.room_type_id s.room_types u))
    | inr nb ↦ elim (Bool-cases (is_release req.accion)) [
      | inl r ↦
          rw (nb, r)
            (change_stock-Refines env "liberar" operation_release req s _ _ _ u
              (release_rows_by_id req.cantidad req.room_type_id s.room_types u))
      | inr nr ↦
          let (answer, frame) = refuse_action_lem env req s in
          rw (nb, nr) (answer, ap view frame, subst HasUniqueIds (sym frame) u)
    ]
  ]
