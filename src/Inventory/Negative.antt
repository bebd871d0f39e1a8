-- ===== src/Inventory/Negative.antt =====
-- Quantities below zero, which inventario-service/main.go does not refuse (the layered server does).
use proyecto_sd_reserva_de_h.Base.{
  ◌≡◌, ◌∙◌, ap, ◌⊎◌, inl, inr, String, true, false, some, arith, str_eq_iff, str_eq_refl, done, Env,
  perform, panics,
}
use proyecto_sd_reserva_de_h.Base.Int.{ℤ, ◌+ℤ◌, in_int4}
use proyecto_sd_reserva_de_h.Inventory.Tables.{UpdateStockRequest}
use proyecto_sd_reserva_de_h.Inventory.Stock.{HasUniqueIds, stock_of}
use proyecto_sd_reserva_de_h.Inventory.Server.{InventoryServer, is_block, is_release, update_stock}
use proyecto_sd_reserva_de_h.Inventory.Server.Frames.{settled_answer}
use proyecto_sd_reserva_de_h.Inventory.Contract.{Stocks, view, contract, update_stock-Refines}

contract_negative :
    (env : Env) (req : UpdateStockRequest) (stocks : Stocks) (v : ℤ)
    → is_block req.accion ≡ false
    → is_release req.accion ≡ true
    → env.counter_accepts req.cantidad ≡ false
    → stocks req.room_type_id ≡ some v
    → in_int4 (v +ℤ req.cantidad) ≡ true
    → ((contract env done req stocks).0 ≡ panics)
      × ((contract env done req stocks).1 req.room_type_id ≡ some (v +ℤ req.cantidad))
unfolding contract perform settled_answer
contract_negative env req stocks v b r c e f = ground (arith, str_eq_refl req.room_type_id)

release_names : (accion : String) → is_release accion ≡ true → (accion ≡ "LIBERAR") ⊎ (accion ≡ "1")
release_names accion r = ground (arith, str_eq_iff accion "LIBERAR", str_eq_iff accion "1")

pub release_not_block : (accion : String) → is_release accion ≡ true → is_block accion ≡ false
release_not_block accion r = elim (release_names accion r) [ inl e ↦ rw e | inr e ↦ rw e ]

module _ {Price : Type 0} where
  -- The metrics library refuses the quantity, and the database call goes well. Then the release of a
  -- negative quantity panics, and has already taken that much from the stock: there is no guard, so
  -- the stock falls below zero wherever it was the smaller.
  pub negative_release :
      (env : Env) (req : UpdateStockRequest) (s : InventoryServer Price) (v : ℤ)
      → HasUniqueIds s.room_types
      → env.outcome s.tick ≡ done
      → env.counter_accepts req.cantidad ≡ false
      → is_release req.accion ≡ true
      → stock_of req.room_type_id s.room_types ≡ some v
      → in_int4 (v +ℤ req.cantidad) ≡ true
      → ((update_stock env req s).0 ≡ panics)
        × (stock_of req.room_type_id (update_stock env req s).1.room_types
            ≡ some (v +ℤ req.cantidad))
  negative_release env req s v u d c r e f =
      let (answer, table, ids) = update_stock-Refines env req s u in
      let (a, b) =
        contract_negative env req (view s.room_types) v (release_not_block req.accion r) r c e f in
      let at_done : contract env (env.outcome s.tick) req (view s.room_types)
          ≡ contract env done req (view s.room_types) =
        ap (λ o. contract env o req (view s.room_types)) d in
      (
        answer ∙ ap (λ x. x.0) at_done ∙ a,
        ap (λ (f : Stocks). f req.room_type_id) (table ∙ ap (λ x. x.1) at_done) ∙ b,
      )
