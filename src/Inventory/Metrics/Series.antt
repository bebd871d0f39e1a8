-- ===== src/Inventory/Metrics/Series.antt =====
-- The errors that `UpdateStock` of inventario-service/main.go counts, and the series that `init` makes.
use proyecto_sd_reserva_de_h.Base.{
  ℕ, ◌≡◌, ◌⊎◌, inl, inr, arith, String, Bool, true, ◌&&◌, ◌||◌, false, List, [], ◌∷◌, Option,
  str_eq, Result, ok, err, Env, Bool-cases, All,
}
use proyecto_sd_reserva_de_h.Inventory.Events.{operation_block, operation_release}
use proyecto_sd_reserva_de_h.Inventory.Tables.{
  RoomType, block_rows, release_rows, UpdateStockRequest,
}
use proyecto_sd_reserva_de_h.Inventory.Server.{
  InventoryServer, settle, change_stock, refuse_action, exec_stock, is_block, is_release,
  update_stock,
}
use proyecto_sd_reserva_de_h.Inventory.History.{serve_all}
use proyecto_sd_reserva_de_h.Inventory.Metrics.{initial_errors}

abbrev pub is_among : String × String → List (String × String) → Bool
is_among x [] = false
is_among x (y ∷ ys) = (str_eq x.0 y.0 && str_eq x.1 y.1) || is_among x ys

abbrev pub AreInitial : List (String × String) → Type 0
AreInitial errors = All (λ x. is_among x initial_errors ≡ true) errors

-- At most one error is counted, and in a series that `init` has made.
abbrev CountsOne : List (String × String) → List (String × String) → Type 0
CountsOne before after =
    (after ≡ before)
    ⊎ ((x : String × String) × (is_among x initial_errors ≡ true) × (after ≡ x ∷ before))

CountsOne-AreInitial :
    (before after : List (String × String))
    → CountsOne before after
    → AreInitial before
    → AreInitial after
CountsOne-AreInitial before after (inl e) h = rw e h
CountsOne-AreInitial before after (inr (x, i, e)) h = rw e (i, h)

module _ {Price : Type 0} where
  settle-CountsOne :
      (env : Env) (label operation : String) (req : UpdateStockRequest) (r : Result String ℕ)
      (s : InventoryServer Price)
      → CountsOne s.errors (settle env label operation req r s).1.errors
  unfolding settle
  settle-CountsOne env label operation req (err e) s = ground arith
  settle-CountsOne env label operation req (ok n) s = ground arith

  refuse_action-CountsOne :
      (env : Env) (req : UpdateStockRequest) (s : InventoryServer Price)
      → CountsOne s.errors (refuse_action env req s).1.errors
  unfolding refuse_action
  refuse_action-CountsOne env req s = ground arith

  change_stock-CountsOne :
      (env : Env) (label operation : String) (req : UpdateStockRequest)
      (statement : List (RoomType Price) → Option (List (RoomType Price) × ℕ))
      (s : InventoryServer Price)
      → CountsOne s.errors (change_stock env label operation req statement s).1.errors
  unfolding change_stock
  change_stock-CountsOne env label operation req statement s =
      let (r, after) = exec_stock env statement s in
      settle-CountsOne env label operation req r after

  update_stock-CountsOne :
      (env : Env) (req : UpdateStockRequest) (s : InventoryServer Price)
      → CountsOne s.errors (update_stock env req s).1.errors
  unfolding update_stock
  update_stock-CountsOne env req s = elim (Bool-cases (is_block req.accion)) [
    | inl b ↦ rw b (
        change_stock-CountsOne env "bloquear" operation_block req
          (block_rows req.cantidad req.room_type_id) s)
    | inr nb ↦ elim (Bool-cases (is_release req.accion)) [
      | inl r ↦
          rw (nb, r)
            (change_stock-CountsOne env "liberar" operation_release req
              (release_rows req.cantidad req.room_type_id) s)
      | inr nr ↦ rw (nb, nr) (refuse_action-CountsOne env req s)
    ]
  ]

  -- Every error that `UpdateStock` requests count is in a series that `init` has made.
  pub serve_all-AreInitial :
      (env : Env) (reqs : List UpdateStockRequest) (s : InventoryServer Price)
      → AreInitial s.errors
      → AreInitial (serve_all env reqs s).1.errors
  unfolding serve_all
  serve_all-AreInitial env [] s h = h
  serve_all-AreInitial env (req ∷ reqs) s h =
      serve_all-AreInitial env reqs (update_stock env req s).1
        (CountsOne-AreInitial _ _ (update_stock-CountsOne env req s) h)
