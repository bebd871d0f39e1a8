-- ===== src/Inventory/Contract/Promise.antt =====
-- `UpdateStock` of inventario-service/main.go beside the contract of inventario-service/README.md: its
-- two actions, and the table of gRPC codes for a stock that is too small and for database errors.
use mathlib.Core.Path.{subst}
use proyecto_sd_reserva_de_h.Base.{
  ◌≡◌, ◌∙◌, ap, refl, sym, ◌⊎◌, inl, inr, String, true, false, List, Option, none, some, str_eq,
  str_eq_refl, Bool-cases, if◌then◌else◌, Outcome, done, refused, unacknowledged, Env, perform,
  Answer, reply, fail, Code, status_error,
}
use proyecto_sd_reserva_de_h.Base.Int.{ℤ, pos, ◌+ℤ◌, ◌-ℤ◌, ◌<ℤ◌, leb_ℤ, in_int4}
use proyecto_sd_reserva_de_h.Inventory.Tables.{RoomType, UpdateStockRequest, UpdateStockResponse}
use proyecto_sd_reserva_de_h.Inventory.Stock.{HasUniqueIds, stock_of}
use proyecto_sd_reserva_de_h.Inventory.Server.{InventoryServer, is_block, is_release, update_stock}
use proyecto_sd_reserva_de_h.Inventory.Server.Frames.{settled_answer}
use proyecto_sd_reserva_de_h.Inventory.Negative.{release_not_block}
use proyecto_sd_reserva_de_h.Inventory.Contract.{Stocks, view, contract, update_stock-Refines}

-- The stock after the action, if it can be done.
abbrev pub promised_stock : UpdateStockRequest → ℤ → Option ℤ
promised_stock req v =
    if is_block req.accion
    then if leb_ℤ req.cantidad v then some (v -ℤ req.cantidad) else none
    else some (v +ℤ req.cantidad)

abbrev pub or_same : ℤ → Option ℤ → ℤ
or_same v none = v
or_same v (some w) = w

-- Status true, or an error with one of the codes of the table.
abbrev pub AnswersWith : Option Code → Answer UpdateStockResponse → Type 0
AnswersWith none a = a ≡ reply (record { status = true })
AnswersWith (some code) a = (m : String) × (a ≡ fail (status_error code m))

-- The code, by the outcome of the database call, and the stock that is then there.
abbrev pub promised_code : Outcome → Option ℤ → Option Code
promised_code done (some w) = none
promised_code done none = some Code.resource_exhausted
promised_code _ _ = some Code.internal

abbrev pub stock_after : Outcome → ℤ → Option ℤ → ℤ
stock_after (refused e) v o = v
stock_after _ v o = or_same v o

-- What the contract says of a request for a room type with the stock `v`; `other` is another one.
abbrev pub Promised :
    {Price : Type 0}
    → Outcome
    → UpdateStockRequest
    → String
    → ℤ
    → List (RoomType Price)
    → Answer UpdateStockResponse × InventoryServer Price
    → Type 0
Promised outcome req other v rows (a, t) =
    let after = promised_stock req v in
    AnswersWith (promised_code outcome after) a
    × (stock_of req.room_type_id t.room_types ≡ some (stock_after outcome v after))
    × (stock_of other t.room_types ≡ stock_of other rows)

-- The contract on abstract stocks.
abbrev PromisedStocks :
    Outcome
    → UpdateStockRequest
    → String
    → ℤ
    → Stocks
    → Answer UpdateStockResponse × Stocks
    → Type 0
PromisedStocks outcome req other v stocks (a, stocks') =
    let after = promised_stock req v in
    AnswersWith (promised_code outcome after) a
    × (stocks' req.room_type_id ≡ some (stock_after outcome v after))
    × (stocks' other ≡ stocks other)

contract-Promised :
    (env : Env) (outcome : Outcome) (req : UpdateStockRequest) (stocks : Stocks) (v : ℤ)
    (other : String)
    → stocks req.room_type_id ≡ some v
    → (is_block req.accion ≡ true) ⊎ (is_release req.accion ≡ true)
    → in_int4 (or_same v (promised_stock req v)) ≡ true
    → env.counter_accepts req.cantidad ≡ true
    → str_eq req.room_type_id other ≡ false
    → PromisedStocks outcome req other v stocks (contract env outcome req stocks)
unfolding contract perform settled_answer
contract-Promised env done req stocks v other e (inl b) fits c o =
    elim (Bool-cases (leb_ℤ req.cantidad v)) [
      | inl l ↦
          rw (b, e, l, rw (b, l) at fits, c, str_eq_refl req.room_type_id, o) (refl, refl, refl)
      | inr l ↦ rw (b, e, l) ((_, refl), e, refl)
    ]
contract-Promised env (refused x) req stocks v other e (inl b) fits c o = rw b ((_, refl), e, refl)
contract-Promised env (unacknowledged x) req stocks v other e (inl b) fits c o =
    elim (Bool-cases (leb_ℤ req.cantidad v)) [
      | inl l ↦
          rw (b, e, l, rw (b, l) at fits, str_eq_refl req.room_type_id, o) ((_, refl), refl, refl)
      | inr l ↦ rw (b, e, l) ((_, refl), e, refl)
    ]
contract-Promised env done req stocks v other e (inr r) fits c o =
    let nb = release_not_block req.accion r in
    rw (nb, r, e, rw nb at fits, c, str_eq_refl req.room_type_id, o) (refl, refl, refl)
contract-Promised env (refused x) req stocks v other e (inr r) fits c o =
    let nb = release_not_block req.accion r in rw (nb, r) ((_, refl), e, refl)
contract-Promised env (unacknowledged x) req stocks v other e (inr r) fits c o =
    let nb = release_not_block req.accion r in
    rw (nb, r, e, rw nb at fits, str_eq_refl req.room_type_id, o) ((_, refl), refl, refl)

module _ {Price : Type 0} where
  -- On unique ids, for a room type that is there and a positive quantity that the metrics library
  -- takes, `UpdateStock` keeps the README's contract. A block takes the quantity from a stock that
  -- covers it, and answers RESOURCE_EXHAUSTED and takes nothing where it does not; a release adds the
  -- quantity; a refused database call is INTERNAL and changes nothing, and one whose reply is lost is
  -- INTERNAL after the change. The stock after the change is an INT. No other stock changes.
  pub update_stock-Promised :
      (env : Env) (req : UpdateStockRequest) (s : InventoryServer Price) (v : ℤ) (other : String)
      → HasUniqueIds s.room_types
      → stock_of req.room_type_id s.room_types ≡ some v
      → pos 0 <ℤ req.cantidad
      → (is_block req.accion ≡ true) ⊎ (is_release req.accion ≡ true)
      → in_int4 (or_same v (promised_stock req v)) ≡ true
      → env.counter_accepts req.cantidad ≡ true
      → str_eq req.room_type_id other ≡ false
      → Promised (env.outcome s.tick) req other v s.room_types (update_stock env req s)
  update_stock-Promised env req s v other u e positive act fits c o =
      let outcome = env.outcome s.tick in
      let stocks = view s.room_types in
      let (answer, table, ids) = update_stock-Refines env req s u in
      let (a, b, d) = contract-Promised env outcome req stocks v other e act fits c o in
      (
        subst (AnswersWith (promised_code outcome (promised_stock req v))) (sym answer) a,
        ap (λ (f : Stocks). f req.room_type_id) table ∙ b,
        ap (λ (f : Stocks). f other) table ∙ d,
      )
