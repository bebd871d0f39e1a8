-- ===== src/Reservation/Accounts/Run.antt =====
-- A run of `CreateReservation` (mi-servicio/main.go) from its start to the call of the inventory
-- service.
use mathlib.Core.Path.{subst, ◌∙◌, ap}
use proyecto_sd_reserva_de_h.Base.{
  ◌≡◌, refl, sym, String, arith, Bool, true, false, concat, Result, ok, err, Status, Option, none,
  some, if◌then◌else◌, Answer, find_row, ask,
}
use proyecto_sd_reserva_de_h.Breaker.{CallError, circuit_open, from_call}
use proyecto_sd_reserva_de_h.Inventory.Tables.{UpdateStockResponse}
use proyecto_sd_reserva_de_h.Reservation.Events.{new_reservation_created}
use proyecto_sd_reserva_de_h.Reservation.Tables.{
  SagaState, success, user_validated, stock_unavailable, ReservationRow, has_key,
}
use proyecto_sd_reserva_de_h.Reservation.Remote.{InventoryService, User, World, block_one}
use proyecto_sd_reserva_de_h.Reservation.Server.{
  Metric, CreateReservationRequest, CreateReservationResponse, ReservationServer, Act,
  call_inventory, call_user, inc, next_tick, record_saga_transition, fail_saga, start_saga,
  publish_reservation_event,
}
use proyecto_sd_reserva_de_h.Reservation.Ledger.{
  Ledger, ledger, IsQuiet, record_saga_transition-IsQuiet, fail_saga-IsQuiet,
  publish_failed-IsQuiet, start_saga-IsQuiet, find_existing-IsQuiet,
  publish_reservation_event-IsQuiet,
}
use proyecto_sd_reserva_de_h.Reservation.Calls.{
  IsAcknowledged, is_success, take_one-false, call_inventory-blocks,
}
use proyecto_sd_reserva_de_h.Reservation.Create.{
  Job, refuse_call, publish_failed, save_reservation, lock_failed, no_stock, locked, lock_stock,
  user_refused, validated, started_saga, new_job, run_saga, find_existing, existing_or_new,
  create_reservation, event_data, replay,
}
use proyecto_sd_reserva_de_h.Reservation.Accounts.{Takes, Settles, replayed, not_booked, is_reply}
use proyecto_sd_reserva_de_h.Reservation.Accounts.Saving.{save_reservation-Settles}

pub refuse_call-refuses :
    (e : CallError Status) (message : String) (st : Status)
    → is_reply (refuse_call e message st) ≡ false
refuse_call-refuses (circuit_open e) message st = refl
refuse_call-refuses (from_call e) message st = refl

-- The end that the failing stages share.
abbrev pub count_and_fail :
    {I : Type 0} → World → Job → String → SagaState → String → String → Act I (Unit {0})
count_and_fail w job stage state detail reason s =
    publish_failed w job reason
      (fail_saga w job.saga_id state detail (inc (Metric.failures stage) s).1).1

pub count_and_fail-IsQuiet :
    {I : Type 0} (w : World) (job : Job) (stage : String) (state : SagaState)
    (detail reason : String)
    → IsQuiet (count_and_fail {I = I} w job stage state detail reason)
count_and_fail-IsQuiet w job stage state detail reason s =
    let counted = (inc (Metric.failures stage) s).1 in
    publish_failed-IsQuiet w job reason (fail_saga w job.saga_id state detail counted).1
    ∙ fail_saga-IsQuiet w job.saga_id state detail counted

pub find_existing_lem :
    {I : Type 0} (w : World) (key : String) (row : ReservationRow) (s : ReservationServer I)
    → (find_existing w key s).0 ≡ ok (some row)
    → find_row (has_key key) s.db.reservations ≡ some row
unfolding find_existing ask
find_existing_lem w key row s e = ground arith

module _ (inv : InventoryService) where
  open inv use {State, stock, IsSound}

  refuses_quietly :
      (req : CreateReservationRequest) (l l' l'' : Ledger State)
      (a : Answer CreateReservationResponse)
      → is_reply a ≡ false
      → Takes inv req.room_type_id false l l'
      → l'.reservations ≡ l.reservations
      → l'.given_up ≡ l.given_up
      → l'' ≡ l'
      → Settles inv req l a l''
  refuses_quietly req l l' l'' a r t rs g q =
      subst (Settles inv req l a) (sym q) (not_booked r t rs g)

  unmoved : (key : String) (l : Ledger State) → IsSound l.inventory → Takes inv key false l l
  unmoved key l h = (h, λ j. sym (take_one-false _))

  module _ (w : World) (k : IsAcknowledged w) where
    by_status-Settles :
        (job : Job) (email : String) (b : Bool) (l : Ledger State) (s : ReservationServer State)
        → Takes inv job.req.room_type_id b l (ledger s)
        → s.db.reservations ≡ l.reservations
        → (ledger s).given_up ≡ l.given_up
        → let (a, s') = (if b then save_reservation inv w job email else no_stock inv w job) s in
          Settles inv job.req l a (ledger s')
    unfolding no_stock
    by_status-Settles job email true l s t rs g =
        save_reservation-Settles inv w k job email l s (t, rs, g)
    by_status-Settles job email false l s t rs g =
        refuses_quietly job.req l (ledger s) _ _ refl t rs g (
          count_and_fail-IsQuiet w job "inventory_no_stock" stock_unavailable
            "Inventario respondio status=false" "inventory_no_stock" s)

    locked-Settles :
        (job : Job) (email : String) (r : Result (CallError Status) UpdateStockResponse)
        (l : Ledger State) (s : ReservationServer State)
        → Takes inv job.req.room_type_id (is_success r) l (ledger s)
        → s.db.reservations ≡ l.reservations
        → (ledger s).given_up ≡ l.given_up
        → let (a, s') = locked inv w job email r s in Settles inv job.req l a (ledger s')
    unfolding locked lock_failed
    locked-Settles job email (err e) l s t rs g =
        refuses_quietly job.req l (ledger s) _ _ (refuse_call-refuses e _ _) t rs g
          (count_and_fail-IsQuiet w job "inventory_lock" _ _ _ s)
    locked-Settles job email (ok res) l s t rs g = by_status-Settles job email res.status l s t rs g

    from_quiet :
        (req : CreateReservationRequest) (a : Answer CreateReservationResponse)
        (l l' l'' : Ledger State)
        → l' ≡ l
        → Settles inv req l' a l''
        → Settles inv req l a l''
    from_quiet req a l l' l'' q = subst (λ x. Settles inv req x a l'') q

    still_sound : (l l' : Ledger State) → l' ≡ l → IsSound l.inventory → IsSound l'.inventory
    still_sound l l' q = subst (λ (x : Ledger State). IsSound x.inventory) (sym q)

    lock_stock-Settles :
        (job : Job) (user : User) (s : ReservationServer State)
        → IsSound s.inventory
        → let (a, s') = lock_stock inv w job user s in Settles inv job.req (ledger s) a (ledger s')
    unfolding lock_stock call_inventory
    lock_stock-Settles job user s h =
        let detail = concat "Usuario validado: " user.nombre in
        let t = (record_saga_transition w job.saga_id user_validated success detail s).1 in
        let q = record_saga_transition-IsQuiet w job.saga_id user_validated success detail s in
        let (r, u) = call_inventory inv w (block_one job.req.room_type_id) t in
        from_quiet job.req _ (ledger s) (ledger t) _ q (
          locked-Settles job user.email r (ledger t) u
            (call_inventory-blocks inv w job.req.room_type_id t k (still_sound (ledger s) _ q h))
            refl refl)

    validated-Settles :
        (job : Job) (r : Result (CallError Status) (Option User)) (s : ReservationServer State)
        → IsSound s.inventory
        → let (a, s') = validated inv w job r s in Settles inv job.req (ledger s) a (ledger s')
    unfolding validated user_refused
    validated-Settles job (err e) s h =
        refuses_quietly job.req (ledger s) (ledger s) _ _ (refuse_call-refuses e _ _)
          (unmoved job.req.room_type_id (ledger s) h) refl refl
          (count_and_fail-IsQuiet w job "user_validation" _ _ _ s)
    validated-Settles job (ok none) s h =
        not_booked refl (unmoved job.req.room_type_id (ledger s) h) refl refl
    validated-Settles job (ok (some user)) s h = lock_stock-Settles job user s h

    started_saga-Settles :
        (job : Job) (r : Result String (Unit {0})) (s : ReservationServer State)
        → IsSound s.inventory
        → let (a, s') = started_saga inv w job r s in Settles inv job.req (ledger s) a (ledger s')
    unfolding started_saga call_user
    started_saga-Settles job (err e) s h =
        not_booked refl (unmoved job.req.room_type_id (ledger s) h) refl refl
    started_saga-Settles job (ok _) s h =
        let (n, t) = next_tick s in
        let event = new_reservation_created w.env n (event_data job) in
        let told = (publish_reservation_event job.req.user_id event t).1 in
        let q = publish_reservation_event-IsQuiet job.req.user_id event t in
        let (r, u) = call_user inv w job.req.user_id told in
        from_quiet job.req _ (ledger s) (ledger told) _ q
          (validated-Settles job r u (still_sound (ledger s) _ q h))

    run_saga-Settles :
        (req : CreateReservationRequest) (s : ReservationServer State)
        → IsSound s.inventory
        → let (a, s') = run_saga inv w req s in Settles inv req (ledger s) a (ledger s')
    unfolding run_saga new_job
    run_saga-Settles req s h =
        let (n, t) = next_tick s in
        let (m, u) = next_tick t in
        let job = new_job w n m req in
        let (r, v) = start_saga w job.saga_id job.reservation_id req u in
        let q = start_saga-IsQuiet w job.saga_id job.reservation_id req u in
        from_quiet req _ (ledger s) (ledger v) _ q
          (started_saga-Settles job r v (still_sound (ledger s) _ q h))

    existing_or_new-Settles :
        (req : CreateReservationRequest) (r : Result String (Option ReservationRow))
        (s : ReservationServer State)
        → IsSound s.inventory
        → ((row : ReservationRow)
            → r ≡ ok (some row)
            → find_row (has_key req.idempotency_key) s.db.reservations ≡ some row)
        → let (a, s') = existing_or_new inv w req r s in Settles inv req (ledger s) a (ledger s')
    unfolding existing_or_new replay
    existing_or_new-Settles req (err e) s h f = run_saga-Settles req s h
    existing_or_new-Settles req (ok none) s h f = run_saga-Settles req s h
    existing_or_new-Settles req (ok (some row)) s h f = replayed row (f row refl) refl refl

    -- When no reply of a call that took effect is lost and the inventory service is sound, a run of
    -- `CreateReservation` ends in one of four ways. It returns the stored reservation of its
    -- idempotency key, and the ledger stays. It books nothing: no reply, and every stock and
    -- reservation stays. It replies with the ids of the reservation that it adds, which has the
    -- request's data, and one unit of the room type is taken. Or it reports an internal error with
    -- one unit taken, no reservation added, and one more failed compensation counted.
    pub create_reservation_accounts :
        (req : CreateReservationRequest) (s : ReservationServer State)
        → IsSound s.inventory
        → let (a, s') = create_reservation inv w req s in Settles inv req (ledger s) a (ledger s')
    unfolding create_reservation find_existing
    create_reservation_accounts req s h =
        let (r, t) = find_existing w req.idempotency_key s in
        let q = find_existing-IsQuiet w req.idempotency_key s in
        from_quiet req _ (ledger s) (ledger t) _ q (
          existing_or_new-Settles req r t (still_sound (ledger s) _ q h) (λ row e.
            ap (λ (x : Ledger State). find_row (has_key req.idempotency_key) x.reservations) q
            ∙ find_existing_lem w req.idempotency_key row s e))
