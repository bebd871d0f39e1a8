-- ===== src/Inventory/Metrics/Gauge.antt =====
-- The gauge of the rooms that are left agrees with the counters of the stock updates
-- (inventario-service/main.go).
use mathlib.Core.Path.{◌∙◌, ap}
use proyecto_sd_reserva_de_h.Base.{
  ℕ, ◌≡◌, ◌≢◌, refl, ◌⊎◌, inl, inr, arith, String, Bool, true, List, [], ◌∷◌, Option, some, ◌==◌,
  ◌+◌, if◌then◌else◌, Result, ok, err, Outcome, done, refused, unacknowledged, Env, ask, perform,
  All, Bool-cases, Option-cases,
}
use proyecto_sd_reserva_de_h.Base.Int.{
  ℤ, pos, ◌+ℤ◌, ◌-ℤ◌, ◌≤ℤ◌, in_int4, int_laws, pos_part, neg_part,
}
use proyecto_sd_reserva_de_h.Inventory.Events.{operation_block, operation_release}
use proyecto_sd_reserva_de_h.Inventory.Tables.{RoomType, UpdateStockRequest, total_stock}
use proyecto_sd_reserva_de_h.Inventory.Stock.{
  HasUniqueIds, put_stock, stock_of, adjust_row, block_rows_by_id, release_rows_by_id,
  total_stock-put_stock,
}
use proyecto_sd_reserva_de_h.Inventory.Server.{
  InventoryServer, run_statement, settle, change_stock, refuse_action, is_block, is_release,
  update_stock,
}
use proyecto_sd_reserva_de_h.Inventory.Contract.{update_stock-Refines}
use proyecto_sd_reserva_de_h.Inventory.History.{serve_all}
use proyecto_sd_reserva_de_h.Inventory.Metrics.{
  available_rooms, counter, gauge_value, initial_stock_updates,
}

-- What is left and was blocked, less what was released.
abbrev books : ℤ → List (String × ℤ) → ℤ
books total adds = total +ℤ counter "bloquear" adds -ℤ counter "liberar" adds

books_blocked :
    (total total' v q : ℤ) (adds : List (String × ℤ))
    → total' +ℤ v ≡ total +ℤ (v -ℤ q)
    → books total' (("bloquear", q) ∷ adds) ≡ books total adds
books_blocked total total' v q adds h = omega (int_laws, ap pos_part h, ap neg_part h)

books_released :
    (total total' v q : ℤ) (adds : List (String × ℤ))
    → total' +ℤ v ≡ total +ℤ (v +ℤ q)
    → books total' (("liberar", q) ∷ adds) ≡ books total adds
books_released total total' v q adds h = omega (int_laws, ap pos_part h, ap neg_part h)

-- What is counts_after after a statement.
abbrev counts_after : String → ℤ → Result String ℕ → List (String × ℤ) → List (String × ℤ)
counts_after label q (err e) adds = adds
counts_after label q (ok n) adds = if n == 0 then adds else (label, q) ∷ adds

module _ {Price : Type 0} where
  abbrev books_of : InventoryServer Price → ℤ
  books_of s = books (total_stock s.room_types) s.stock_updates

  settle_counts :
      (env : Env) (label operation : String) (req : UpdateStockRequest) (r : Result String ℕ)
      (s : InventoryServer Price)
      → env.counter_accepts req.cantidad ≡ true
      → let t = (settle env label operation req r s).1 in
        (t.stock_updates ≡ counts_after label req.cantidad r s.stock_updates)
        × (t.room_types ≡ s.room_types)
  unfolding settle
  settle_counts env label operation req (err e) s c = ground arith
  settle_counts env label operation req (ok n) s c = ground arith

  refuse_action_counts :
      (env : Env) (req : UpdateStockRequest) (s : InventoryServer Price)
      → let t = (refuse_action env req s).1 in
        (t.stock_updates ≡ s.stock_updates) × (t.room_types ≡ s.room_types)
  unfolding refuse_action
  refuse_action_counts env req s = ground arith

  -- A conditional update of one stock, whose result is not lost.
  abbrev Adjusts :
      (ℤ → ℤ) → String → List (RoomType Price) → Result String ℕ × List (RoomType Price) → Type 0
  Adjusts change key rows (r, rows') =
      (((label : String) (q : ℤ) (adds : List (String × ℤ)) → counts_after label q r adds ≡ adds)
        × (rows' ≡ rows))
      ⊎ ((v : ℤ) × (r ≡ ok 1)
          × (rows' ≡ put_stock key (change v) rows)
          × (stock_of key rows ≡ some v))

  adjust_row-Adjusts :
      (guard : ℤ → Bool) (change : ℤ → ℤ) (key : String) (rows : List (RoomType Price))
      (outcome : Outcome) (statement : List (RoomType Price) → Option (List (RoomType Price) × ℕ))
      → ((e : String) → outcome ≢ unacknowledged e)
      → statement rows ≡ adjust_row guard change key rows (stock_of key rows)
      → Adjusts change key rows (perform outcome (run_statement statement) rows)
  unfolding adjust_row perform
  adjust_row-Adjusts guard change key rows (refused e) statement h p = inl ((λ l q a. refl), refl)
  adjust_row-Adjusts guard change key rows (unacknowledged e) statement h p = absurd (h e refl)
  adjust_row-Adjusts guard change key rows done statement h p =
      elim (Option-cases (stock_of key rows)) [
        | inl m ↦ rw (p, m) (inl ((λ l q a. refl), refl))
        | inr (v, m) ↦ elim (Bool-cases (guard v)) [
          | inl g ↦ elim (Bool-cases (in_int4 (change v))) [
            | inl f ↦ rw (p, m, g, f) (inr (v, refl, refl, refl))
            | inr f ↦ rw (p, m, g, f) (inl ((λ l q a. refl), refl))
          ]
          | inr g ↦ rw (p, m, g) (inl ((λ l q a. refl), refl))
        ]
      ]

  change_stock-books :
      (env : Env) (label operation : String) (req : UpdateStockRequest) (s : InventoryServer Price)
      (statement : List (RoomType Price) → Option (List (RoomType Price) × ℕ)) (guard : ℤ → Bool)
      (change : ℤ → ℤ)
      → ((e : String) → env.outcome s.tick ≢ unacknowledged e)
      → env.counter_accepts req.cantidad ≡ true
      → statement s.room_types
        ≡ adjust_row guard change req.room_type_id s.room_types
            (stock_of req.room_type_id s.room_types)
      → ((total' v : ℤ)
          → total' +ℤ v ≡ total_stock s.room_types +ℤ change v
          → books total' ((label, req.cantidad) ∷ s.stock_updates) ≡ books_of s)
      → books_of (change_stock env label operation req statement s).1 ≡ books_of s
  unfolding change_stock
  change_stock-books env label operation req s statement guard change h c p balance =
      let rows = s.room_types in
      let q = req.cantidad in
      let (r, rows') = perform (env.outcome s.tick) (run_statement statement) rows in
      let after = record s { room_types = rows'; tick = s.tick + 1 } in
      let t = (settle env label operation req r after).1 in
      let (adds, frame) = settle_counts env label operation req r after c in
      let table = ap (λ rs. books (total_stock rs) t.stock_updates) frame in
      let counts = ap (books (total_stock rows')) adds in
      elim (adjust_row-Adjusts guard change req.room_type_id rows (env.outcome s.tick) statement h
        p) [
          | inl (same, e) ↦
              table
              ∙ counts
              ∙ ap (books (total_stock rows')) (same label q s.stock_updates)
              ∙ ap (λ rs. books (total_stock rs) s.stock_updates) e
          | inr (v, e, f, m) ↦
              let put = put_stock req.room_type_id (change v) rows in
              table
              ∙ counts
              ∙ ap (λ x. books (total_stock rows') (counts_after label q x s.stock_updates)) e
              ∙ ap (λ rs. books (total_stock rs) ((label, q) ∷ s.stock_updates)) f
              ∙ balance (total_stock put) v
                  (total_stock-put_stock req.room_type_id (change v) v rows m)
        ]

  update_stock-books :
      (env : Env) (req : UpdateStockRequest) (s : InventoryServer Price)
      → ((e : String) → env.outcome s.tick ≢ unacknowledged e)
      → env.counter_accepts req.cantidad ≡ true
      → HasUniqueIds s.room_types
      → books_of (update_stock env req s).1 ≡ books_of s
  unfolding update_stock
  update_stock-books env req s h c u = elim (Bool-cases (is_block req.accion)) [
    | inl b ↦ rw b (
        change_stock-books env "bloquear" operation_block req s _ _ _ h c
          (block_rows_by_id req.cantidad req.room_type_id s.room_types u)
          (λ total' v e.
            books_blocked (total_stock s.room_types) total' v req.cantidad s.stock_updates e))
    | inr nb ↦ elim (Bool-cases (is_release req.accion)) [
      | inl r ↦
          rw (nb, r)
            (change_stock-books env "liberar" operation_release req s _ _ _ h c
              (release_rows_by_id req.cantidad req.room_type_id s.room_types u)
              (λ total' v e.
                books_released (total_stock s.room_types) total' v req.cantidad s.stock_updates e))
      | inr nr ↦
          let (adds, frame) = refuse_action_counts env req s in
          let t = (refuse_action env req s).1 in
          rw (nb, nr)
            (ap (λ rs. books (total_stock rs) t.stock_updates) frame
              ∙ ap (books (total_stock s.room_types)) adds)
    ]
  ]

  serve_all-books :
      (env : Env) (reqs : List UpdateStockRequest) (s : InventoryServer Price)
      → ((n : ℕ) (e : String) → env.outcome n ≢ unacknowledged e)
      → ((q : ℤ) → pos 0 ≤ℤ q → env.counter_accepts q ≡ true)
      → All (λ req. pos 0 ≤ℤ req.cantidad) reqs
      → HasUniqueIds s.room_types
      → books_of (serve_all env reqs s).1 ≡ books_of s
  unfolding serve_all
  serve_all-books env [] s h c q u = refl
  serve_all-books env (req ∷ reqs) s h c q u =
      serve_all-books env reqs (update_stock env req s).1 h c q.1
        (update_stock-Refines env req s u).2
      ∙ update_stock-books env req s (h s.tick) (c req.cantidad q.0) u

  -- No database call loses its acknowledgement, and the metrics library takes every quantity that is
  -- not negative. Then, over any requests with no negative quantity, from counters as `init` makes them, the
  -- gauge of the rooms that are left, with the counter of the blocked ones, is the gauge at the start
  -- with the counter of the released ones.
  pub gauge_agrees :
      (env : Env) (reqs : List UpdateStockRequest) (s : InventoryServer Price)
      → ((n : ℕ) (e : String) → env.outcome n ≢ unacknowledged e)
      → ((q : ℤ) → pos 0 ≤ℤ q → env.counter_accepts q ≡ true)
      → All (λ req. pos 0 ≤ℤ req.cantidad) reqs
      → HasUniqueIds s.room_types
      → s.stock_updates ≡ initial_stock_updates
      → let t = (serve_all env reqs s).1 in
        available_rooms done (some t.room_types) +ℤ counter "bloquear" t.stock_updates
        ≡ available_rooms done (some s.room_types) +ℤ counter "liberar" t.stock_updates
  unfolding available_rooms ask gauge_value
  gauge_agrees env reqs s h c q u e =
      let t = (serve_all env reqs s).1 in
      let kept = serve_all-books env reqs s h c q u ∙ ap (books (total_stock s.room_types)) e in
      omega (int_laws, ap pos_part kept, ap neg_part kept)
