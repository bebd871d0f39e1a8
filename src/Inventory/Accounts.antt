-- ===== src/Inventory/Accounts.antt =====
-- The books of the inventory service over any sequence of requests (inventario-service/main.go).
use proyecto_sd_reserva_de_h.Base.{
  ℕ, ◌≡◌, ◌≢◌, refl, ◌∙◌, ap, String, true, List, [], ◌∷◌, some, arith, unacknowledged, Env, Answer,
  All,
}
use proyecto_sd_reserva_de_h.Base.Int.{ℤ, pos, ◌+ℤ◌, ◌-ℤ◌, ◌≤ℤ◌, int_laws, pos_part, neg_part}
use proyecto_sd_reserva_de_h.Inventory.Tables.{UpdateStockRequest, UpdateStockResponse}
use proyecto_sd_reserva_de_h.Inventory.Stock.{HasUniqueIds, stock_of}
use proyecto_sd_reserva_de_h.Inventory.Server.{InventoryServer, update_stock}
use proyecto_sd_reserva_de_h.Inventory.Contract.{update_stock-Refines}
use proyecto_sd_reserva_de_h.Inventory.History.{
  Log, serve_all, blocked, released, after_answer, then_after, update_stock_after, Holds, IsStocked,
  serve_all-Holds,
}

minus_blocked : (v q w b r : ℤ) → w +ℤ b ≡ v -ℤ q +ℤ r → w +ℤ (q +ℤ b) ≡ v +ℤ r
minus_blocked v q w b r h = omega (int_laws, ap pos_part h, ap neg_part h)

plus_released : (v q w b r : ℤ) → w +ℤ b ≡ v +ℤ q +ℤ r → w +ℤ b ≡ v +ℤ (q +ℤ r)
plus_released v q w b r h = omega (int_laws, ap pos_part h, ap neg_part h)

-- What one answered request adds to the two sums is what it moves the stock by.
after_answer_balance :
    (req : UpdateStockRequest) (a : Answer UpdateStockResponse) (key : String) (v w : ℤ) (log : Log)
    → w +ℤ blocked key log ≡ after_answer req a key v +ℤ released key log
    → w +ℤ blocked key ((req, a) ∷ log) ≡ v +ℤ released key ((req, a) ∷ log)
after_answer_balance req a key v w log h = ground (
  arith,
  minus_blocked v req.cantidad w (blocked key log) (released key log),
  plus_released v req.cantidad w (blocked key log) (released key log),
)

module _ {Price : Type 0} where
  -- No database call loses its acknowledgement, and the metrics library takes every quantity that is
  -- not negative. Then, over any requests with no negative quantity, a room type's stock at the end,
  -- with what the answers say was blocked, is its stock at the start with what was released.
  pub serve_all_balances :
      (env : Env) (reqs : List UpdateStockRequest) (s : InventoryServer Price) (key : String)
      (v : ℤ)
      → ((n : ℕ) (e : String) → env.outcome n ≢ unacknowledged e)
      → ((q : ℤ) → pos 0 ≤ℤ q → env.counter_accepts q ≡ true)
      → All (λ req. pos 0 ≤ℤ req.cantidad) reqs
      → HasUniqueIds s.room_types
      → stock_of key s.room_types ≡ some v
      → let (log, t) = serve_all env reqs s in
        (w : ℤ) × (stock_of key t.room_types ≡ some w)
        × (w +ℤ blocked key log ≡ v +ℤ released key log)
  unfolding serve_all
  serve_all_balances env [] s key v h c q u e = (v, e, refl)
  serve_all_balances env (req ∷ reqs) s key v h c q u e =
      let (a, s') = update_stock env req s in
      let here =
        update_stock_after env req s key u h (c req.cantidad q.0)
        ∙ ap (then_after req (update_stock env req s).0 key) e in
      let (w, f, balance) =
        serve_all_balances env reqs (update_stock env req s).1 key
          (after_answer req (update_stock env req s).0 key v) h c q.1
          (update_stock-Refines env req s u).2 here in
      (
        w,
        f,
        after_answer_balance req (update_stock env req s).0 key v w
            (serve_all env reqs (update_stock env req s).1).0 balance,
      )

  -- Under the same conditions, from tables with no negative stock, no more is ever granted of a room
  -- type than it had at the start and got back.
  pub no_overbooking :
      (env : Env) (reqs : List UpdateStockRequest) (s : InventoryServer Price) (key : String)
      (v : ℤ)
      → ((n : ℕ) (e : String) → env.outcome n ≢ unacknowledged e)
      → ((q : ℤ) → pos 0 ≤ℤ q → env.counter_accepts q ≡ true)
      → All (λ req. pos 0 ≤ℤ req.cantidad) reqs
      → Holds IsStocked s
      → stock_of key s.room_types ≡ some v
      → blocked key (serve_all env reqs s).0 ≤ℤ v +ℤ released key (serve_all env reqs s).0
  no_overbooking env reqs s key v h c q (st, u) e =
      let (w, f, balance) = serve_all_balances env reqs s key v h c q u e in
      let nonneg = (serve_all-Holds env reqs s q (st, u)).0 key w f in
      omega (int_laws, nonneg, ap pos_part balance, ap neg_part balance)
