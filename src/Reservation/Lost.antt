-- ===== src/Reservation/Lost.antt =====
-- What happens in mi-servicio/main.go when a call takes effect and its reply is lost.
pub mod Insertion
mod Examples
use mathlib.Core.Path.{subst, ◌∙◌, ap}
use proyecto_sd_reserva_de_h.Base.{
  ℕ, zero, suc, print_ℕ, ◌+◌, ◌≡◌, refl, sym, String, arith, Bool, true, false, List, ◌∷◌, Result,
  ok, err, Outcome, done, refused, unacknowledged, perform, Answer, reply, fail, panics, Code,
  Status, status_error, concat, if◌then◌else◌,
}
use proyecto_sd_reserva_de_h.Breaker.{
  CircuitBreaker, CallError, circuit_open, from_call, allow, execute,
}
use proyecto_sd_reserva_de_h.Inventory.Tables.{UpdateStockResponse}
use proyecto_sd_reserva_de_h.Reservation.Tables.{
  success, user_validated, stock_locked, stock_lock_failed, Database, insert_reservation, failure,
  compensating, compensated, compensation_failed, saga_failed, reservation_insert_failed,
  ReservationRow,
}
use proyecto_sd_reserva_de_h.Reservation.Remote.{
  InventoryService, User, World, remote, block_one, release_one,
}
use proyecto_sd_reserva_de_h.Reservation.Server.{
  Metric, Act, exec, CreateReservationResponse, ReservationServer, inc, record_saga_transition,
  fail_saga, call_inventory, error_message,
}
use proyecto_sd_reserva_de_h.Reservation.Ledger.{
  Ledger, ledger, record_saga_transition-IsQuiet, fail_saga-IsQuiet, publish_failed-IsQuiet,
}
use proyecto_sd_reserva_de_h.Reservation.Compensation.{
  give_up, released_at, after_attempt, release_attempts, compensate_inventory, max_attempts,
}
use proyecto_sd_reserva_de_h.Reservation.Create.{
  Job, reservation_row, not_saved, saved, save_reservation, refuse_call, publish_failed,
  lock_failed, locked, lock_stock,
}

execute_fails :
    {E A S : Type 0} (start finish : ℕ) (cb : CircuitBreaker) (fn : S → Result E A × S) (s : S)
    (e : E)
    → (allow start cb).0 ≡ true
    → (fn s).0 ≡ err e
    → ((execute start finish cb fn s).0 ≡ err (from_call e))
      × ((execute start finish cb fn s).2 ≡ (fn s).1)
unfolding execute
execute_fails start finish cb fn s e p q = ground arith

remote_lost :
    {A I : Type 0} (outcome : Outcome) (handler : I → Answer A × I) (i : I) (e : String)
    → outcome ≡ unacknowledged e
    → ((remote outcome handler i).0 ≡ err (status_error Code.unavailable e))
      × ((remote outcome handler i).1 ≡ (handler i).1)
unfolding remote
remote_lost outcome handler i e p = rw p (refl, refl)

module _ (inv : InventoryService) (w : World) where
  open inv use {State, handle}

  -- The end of a run whose lock failed, as the ledger and the client see it.
  lock_failed-Quiet :
      (job : Job) (email : String) (st : Status) (r : Result (CallError Status) UpdateStockResponse)
      (s : ReservationServer State)
      → r ≡ err (from_call st)
      → let (a, t) = locked inv w job email r s in
        (a
          ≡ fail (
              status_error Code.resource_exhausted
                (concat "No se pudo asegurar la habitacion: " st.message)))
        × (ledger t ≡ ledger s)
  unfolding locked lock_failed error_message
  lock_failed-Quiet job email st r s q =
      let counted = (inc (Metric.failures "inventory_lock") s).1 in
      let failed = (fail_saga w job.saga_id stock_lock_failed st.message counted).1 in
      rw q (
        refl,
        publish_failed-IsQuiet w job (concat "inventory_lock_failed: " st.message) failed
            ∙ fail_saga-IsQuiet w job.saga_id stock_lock_failed st.message counted,
      )

  -- When the lock's call is let through by the breaker and its reply is lost after it took effect,
  -- the run fails and never releases the unit: the inventory service is left as the lock made it,
  -- no reservation is added, and no compensation is tried.
  pub lock_reply_lost :
      (job : Job) (user : User) (s : ReservationServer State) (e : String)
      → let t =
          (record_saga_transition w job.saga_id user_validated success
            (concat "Usuario validado: " user.nombre)
            s).1 in
        (allow (w.clock t.tick) t.inventory_breaker).0 ≡ true
        → w.outcome (t.tick + 1) ≡ unacknowledged e
        → let (a, u) = lock_stock inv w job user s in
          (a
            ≡ fail (
                status_error Code.resource_exhausted
                  (concat "No se pudo asegurar la habitacion: " e)))
          × (ledger u ≡ record (ledger s) {
            inventory = (handle (block_one job.req.room_type_id) s.inventory).1;
          })
  unfolding lock_stock call_inventory
  lock_reply_lost job user s e p q =
      let detail = concat "Usuario validado: " user.nombre in
      let t = (record_saga_transition w job.saga_id user_validated success detail s).1 in
      let quiet = record_saga_transition-IsQuiet w job.saga_id user_validated success detail s in
      let req = block_one job.req.room_type_id in
      let fn = remote (w.outcome (t.tick + 1)) (handle req) in
      let (r, i) = remote_lost (w.outcome (t.tick + 1)) (handle req) t.inventory e q in
      let st = status_error Code.unavailable e in
      let (r', i') =
        execute_fails (w.clock t.tick) (w.clock (t.tick + 2)) t.inventory_breaker fn t.inventory st
          p r in
      let (res, u) = call_inventory inv w req t in
      let (a, l) = lock_failed-Quiet job user.email st res u r' in
      (
        a,
        l
            ∙ ap (λ x. record (ledger t) { inventory = x }) (i' ∙ i)
            ∙ ap (λ (x : Ledger State). record x { inventory = (handle req s.inventory).1 }) quiet,
      )
