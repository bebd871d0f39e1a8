-- ===== src/Reservation/Compensation/Effect.antt =====
-- What `compensateInventory` of mi-servicio/main.go does to the ledger.
use mathlib.Core.Path.{subst, ◌∙◌, ap}
use proyecto_sd_reserva_de_h.Base.{
  ℕ, zero, suc, ◌+◌, ◌≡◌, refl, sym, ◌&&◌, String, arith, Bool, true, false, str_eq, Result, ok,
  err, Status, concat, print_ℕ, if◌then◌else◌,
}
use proyecto_sd_reserva_de_h.Breaker.{CallError}
use proyecto_sd_reserva_de_h.Inventory.Tables.{UpdateStockResponse}
use proyecto_sd_reserva_de_h.Reservation.Tables.{
  success, failure, compensating, compensated, compensation_failed,
}
use proyecto_sd_reserva_de_h.Reservation.Remote.{InventoryService, World, give_one, release_one}
use proyecto_sd_reserva_de_h.Reservation.Server.{
  ReservationServer, Act, call_inventory, inc, record_saga_transition, Metric,
}
use proyecto_sd_reserva_de_h.Reservation.Ledger.{Ledger, ledger, record_saga_transition-IsQuiet}
use proyecto_sd_reserva_de_h.Reservation.Calls.{
  IsAcknowledged, is_success, give_one-false, call_inventory-releases,
}
use proyecto_sd_reserva_de_h.Reservation.Compensation.{
  give_up, released_at, after_attempt, release_attempts, compensate_inventory, max_attempts,
}

abbrev pub unless : Bool → ℕ
unless b = if b then 0 else 1

module _ (inv : InventoryService) where
  open inv use {State, stock, IsSound}

  -- One unit of `key` is given back if `b`, and `d` compensations are given up.
  abbrev pub Gives : String → Bool → ℕ → Ledger State → Ledger State → Type 0
  Gives key b d l l' =
      IsSound l'.inventory
      × ((j : String) → stock j l'.inventory ≡ give_one (b && str_eq key j) (stock j l.inventory))
      × (l'.reservations ≡ l.reservations)
      × (l'.given_up ≡ l.given_up + d)

  then-Gives :
      (key : String) (b : Bool) (d : ℕ) (l l' l'' : Ledger State)
      → Gives key false 0 l l'
      → Gives key b d l' l''
      → Gives key b d l l''
  then-Gives key b d l l' l'' (h, st, rs, g) (h', st', rs', g') = (
    h',
    λ j. st' j ∙ ap (give_one (b && str_eq key j)) (st j ∙ give_one-false _),
    rs' ∙ rs,
    omega arith,
  )

  module _ (w : World) (k : IsAcknowledged w) (saga_id key : String) where
    abbrev Compensates : Bool → ReservationServer State → ReservationServer State → Type 0
    Compensates b s s' = Gives key b (unless b) (ledger s) (ledger s')

    by_status-Compensates :
        (attempt : ℕ) (retry : Act State Bool) (b : Bool) (s t : ReservationServer State)
        → Gives key b 0 (ledger s) (ledger t)
        → (IsSound t.inventory → Compensates (retry t).0 t (retry t).1)
        → let (b', t') = (if b then released_at inv w saga_id key attempt else retry) t in
          Compensates b' s t'
    unfolding released_at
    by_status-Compensates attempt retry true s t p q =
        let counted = (inc (Metric.compensations "success") t).1 in
        let detail = concat "Stock liberado en intento " (print_ℕ attempt) in
        subst (Gives key true 0 (ledger s))
          (sym (record_saga_transition-IsQuiet w saga_id compensated success detail counted)) p
    by_status-Compensates attempt retry false s t p q =
        then-Gives key _ _ (ledger s) (ledger t) _ p (q p.0)

    after_attempt-Compensates :
        (attempt : ℕ) (retry : Act State Bool) (res : Result (CallError Status) UpdateStockResponse)
        (s t : ReservationServer State)
        → Gives key (is_success res) 0 (ledger s) (ledger t)
        → (IsSound t.inventory → Compensates (retry t).0 t (retry t).1)
        → let (b, t') = after_attempt inv w saga_id key attempt retry res t in Compensates b s t'
    unfolding after_attempt
    after_attempt-Compensates attempt retry (err e) s t p q =
        then-Gives key _ _ (ledger s) (ledger t) _ p (q p.0)
    after_attempt-Compensates attempt retry (ok res) s t p q =
        by_status-Compensates attempt retry res.status s t p q

    call-Gives :
        (s : ReservationServer State)
        → IsSound s.inventory
        → let (r, t) = call_inventory inv w (release_one key) s in
          Gives key (is_success r) 0 (ledger s) (ledger t)
    unfolding call_inventory
    call-Gives s h =
        let (h', st) = call_inventory-releases inv w key s k h in (h', st, refl, omega arith)

    give_up-Compensates :
        (s : ReservationServer State)
        → IsSound s.inventory
        → let (b, t) = give_up inv w saga_id key s in Compensates b s t
    unfolding give_up
    give_up-Compensates s h =
        let counted = (inc (Metric.compensations "failed") s).1 in
        subst (Gives key false 1 (ledger s))
          (sym (
            record_saga_transition-IsQuiet w saga_id compensation_failed failure
              "No se pudo liberar stock despues de 3 intentos" counted))
          (h, λ j. sym (give_one-false _), refl, refl)

    release_attempts-Compensates :
        (left attempt : ℕ) (s : ReservationServer State)
        → IsSound s.inventory
        → let (b, t) = release_attempts inv w saga_id key left attempt s in Compensates b s t
    unfolding release_attempts
    release_attempts-Compensates zero attempt s h = give_up-Compensates s h
    release_attempts-Compensates (suc left) attempt s h =
        let (r, t) = call_inventory inv w (release_one key) s in
        after_attempt-Compensates attempt (release_attempts inv w saga_id key left (attempt + 1)) r
          s t (call-Gives s h) (release_attempts-Compensates left (attempt + 1) t)

    -- When no reply of a call that took effect is lost, `compensateInventory` returns true after it
    -- gave back exactly one unit of the room type, and false after it changed no stock and counted
    -- a failed compensation. The reservations stay.
    pub compensate_inventory_accounts :
        (s : ReservationServer State)
        → IsSound s.inventory
        → let (b, t) = compensate_inventory inv w saga_id key s in Compensates b s t
    unfolding compensate_inventory
    compensate_inventory_accounts s h =
        let t =
          (record_saga_transition w saga_id compensating success
            "Liberando stock por fallo posterior al bloqueo" s).1 in
        let q =
          record_saga_transition-IsQuiet w saga_id compensating success
            "Liberando stock por fallo posterior al bloqueo" s in
        let (b, u) = release_attempts inv w saga_id key max_attempts 1 t in
        subst (λ l. Gives key b (unless b) l (ledger u)) q
          (release_attempts-Compensates max_attempts 1 t
            (subst (λ (l : Ledger State). IsSound l.inventory) (sym q) h))
