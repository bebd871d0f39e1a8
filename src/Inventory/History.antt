-- ===== src/Inventory/History.antt =====
-- Any sequence of `UpdateStock` requests to inventario-service/main.go. The server takes them one
-- statement at a time, so a sequence stands for concurrent requests too.
use mathlib.Core.Path.{subst}
use proyecto_sd_reserva_de_h.Base.{
  ℕ, ◌≡◌, ◌≢◌, refl, sym, inl, inr, ◌&&◌, String, true, not, List, [], ◌∷◌, Option, none, some,
  arith, str_eq, str_eq_iff, Option-cases, if◌then◌else◌, Outcome, done, refused, unacknowledged,
  Env, perform, Answer, All,
}
use proyecto_sd_reserva_de_h.Base.Int.{ℤ, pos, ◌+ℤ◌, ◌-ℤ◌, ◌≤ℤ◌, +ℤ_parts, -ℤ_parts}
use proyecto_sd_reserva_de_h.Inventory.Tables.{UpdateStockRequest, UpdateStockResponse, is_granted}
use proyecto_sd_reserva_de_h.Inventory.Stock.{HasUniqueIds, stock_of}
use proyecto_sd_reserva_de_h.Inventory.Server.{InventoryServer, is_block, update_stock}
use proyecto_sd_reserva_de_h.Inventory.Server.Frames.{settled_answer}
use proyecto_sd_reserva_de_h.Inventory.Contract.{Stocks, view, contract, update_stock-Refines}

abbrev pub Log : Type 0
Log = List (UpdateStockRequest × Answer UpdateStockResponse)

module _ {Price : Type 0} where
  -- The requests in order, with their answers.
  unfoldable pub serve_all :
      Env → List UpdateStockRequest → InventoryServer Price → Log × InventoryServer Price
  serve_all env [] s = ([], s)
  serve_all env (req ∷ reqs) s =
      let (a, s') = update_stock env req s in
      let (log, t) = serve_all env reqs s' in ((req, a) ∷ log, t)

-- What the answers say was blocked, and released, of one room type: a request that is granted and
-- does not block releases.
abbrev pub blocked : String → Log → ℤ
blocked key [] = pos 0
blocked key ((req, a) ∷ log) =
    let rest = blocked key log in
    if is_granted a && (str_eq req.room_type_id key && is_block req.accion)
    then req.cantidad +ℤ rest
    else rest

abbrev pub released : String → Log → ℤ
released key [] = pos 0
released key ((req, a) ∷ log) =
    let rest = released key log in
    if is_granted a && (str_eq req.room_type_id key && not (is_block req.accion))
    then req.cantidad +ℤ rest
    else rest

-- No stock is negative.
abbrev pub IsStocked : Stocks → Type 0
IsStocked stocks = (key : String) (v : ℤ) → stocks key ≡ some v → pos 0 ≤ℤ v

-- The stock of one room type after one answered request.
abbrev pub after_answer : UpdateStockRequest → Answer UpdateStockResponse → String → ℤ → ℤ
after_answer req a key v =
    if is_granted a && str_eq req.room_type_id key
    then if is_block req.accion then v -ℤ req.cantidad else v +ℤ req.cantidad
    else v

abbrev pub then_after :
    UpdateStockRequest → Answer UpdateStockResponse → String → Option ℤ → Option ℤ
then_after req a key none = none
then_after req a key (some v) = some (after_answer req a key v)

contract-after :
    (env : Env) (outcome : Outcome) (req : UpdateStockRequest) (stocks : Stocks) (key : String)
    → ((e : String) → outcome ≢ unacknowledged e)
    → env.counter_accepts req.cantidad ≡ true
    → (contract env outcome req stocks).1 key
      ≡ then_after req (contract env outcome req stocks).0 key (stocks key)
unfolding contract perform settled_answer
contract-after env done req stocks key h c = ground (arith, str_eq_iff req.room_type_id key)
contract-after env (refused e) req stocks key h c = ground arith
contract-after env (unacknowledged e) req stocks key h c = absurd (h e refl)

contract-IsStocked :
    (env : Env) (outcome : Outcome) (req : UpdateStockRequest) (stocks : Stocks)
    → pos 0 ≤ℤ req.cantidad
    → IsStocked stocks
    → IsStocked (contract env outcome req stocks).1
unfolding contract perform
contract-IsStocked env (refused e) req stocks q h key v p = ground (arith, h key v)
contract-IsStocked env outcome req stocks q h key v p =
    elim (Option-cases (stocks req.room_type_id)) [
      | inl missing ↦ ground (arith, h key v)
      | inr (w, e) ↦
          let nonneg = h req.room_type_id w e in
          ground (
            arith,
            h key v,
            nonneg,
            str_eq_iff req.room_type_id key,
            +ℤ_parts w req.cantidad,
            -ℤ_parts w req.cantidad,
          )
    ]

module _ {Price : Type 0} where
  abbrev pub Holds : (Stocks → Type 0) → InventoryServer Price → Type 0
  Holds P s = P (view s.room_types) × HasUniqueIds s.room_types

  pub update_stock-Holds :
      (env : Env) (req : UpdateStockRequest) (s : InventoryServer Price)
      → pos 0 ≤ℤ req.cantidad
      → Holds IsStocked s
      → Holds IsStocked (update_stock env req s).1
  update_stock-Holds env req s q (h, u) =
      let (answer, table, ids) = update_stock-Refines env req s u in
      (subst IsStocked (sym table) (contract-IsStocked env _ req _ q h), ids)

  -- Requests with no negative quantity keep every stock at zero or above, and the ids unique,
  -- whatever their actions, their order and the outcomes of their database calls.
  pub serve_all-Holds :
      (env : Env) (reqs : List UpdateStockRequest) (s : InventoryServer Price)
      → All (λ req. pos 0 ≤ℤ req.cantidad) reqs
      → Holds IsStocked s
      → Holds IsStocked (serve_all env reqs s).1
  unfolding serve_all
  serve_all-Holds env [] s q h = h
  serve_all-Holds env (req ∷ reqs) s q h =
      serve_all-Holds env reqs (update_stock env req s).1 q.1 (update_stock-Holds env req s q.0 h)

  -- The stock of each room type after a request, by its answer.
  pub update_stock_after :
      (env : Env) (req : UpdateStockRequest) (s : InventoryServer Price) (key : String)
      → HasUniqueIds s.room_types
      → ((n : ℕ) (e : String) → env.outcome n ≢ unacknowledged e)
      → env.counter_accepts req.cantidad ≡ true
      → stock_of key (update_stock env req s).1.room_types
        ≡ then_after req (update_stock env req s).0 key (stock_of key s.room_types)
  update_stock_after env req s key u h c =
      let (answer, table, ids) = update_stock-Refines env req s u in
      subst
        (λ stocks.
          stocks key ≡ then_after req (update_stock env req s).0 key (stock_of key s.room_types))
        (sym table)
        (subst
          (λ a.
            (contract env (env.outcome s.tick) req (view s.room_types)).1 key
            ≡ then_after req a key (stock_of key s.room_types))
          (sym answer)
          (contract-after env (env.outcome s.tick) req (view s.room_types) key (h s.tick) c))
