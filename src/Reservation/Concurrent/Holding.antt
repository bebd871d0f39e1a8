-- ===== src/Reservation/Concurrent/Holding.antt =====
-- The units of stock that the requests of mi-servicio/main.go hold on their way, and the stages that
-- leave the ledger as it is.
use mathlib.Core.Path.{◌∙◌}
use proyecto_sd_reserva_de_h.Base.{
  ℕ, ◌+◌, ◌≡◌, refl, inl, inr, arith, String, not, ◌&&◌, List, [], ◌∷◌, ◌++◌, Option, none, some,
  str_eq, concat, print_ℕ, Result, ok, err, Status, Bool-cases,
}
use proyecto_sd_reserva_de_h.Breaker.{CallError}
use proyecto_sd_reserva_de_h.Inventory.Tables.{UpdateStockResponse}
use proyecto_sd_reserva_de_h.Reservation.Events.{new_reservation_created}
use proyecto_sd_reserva_de_h.Reservation.Tables.{
  success, failure, user_validated, stock_unavailable, compensated, saga_failed, compensating,
  reservation_insert_failed, ReservationRow,
}
use proyecto_sd_reserva_de_h.Reservation.Remote.{InventoryService, User, World}
use proyecto_sd_reserva_de_h.Reservation.Server.{
  Metric, Task, publish_event, send_confirmation, CreateReservationRequest, ReservationServer, Act,
  ◌>>=◌, next_tick, inc, record_saga_transition,
}
use proyecto_sd_reserva_de_h.Reservation.Ledger.{
  ledger, IsQuiet, record_saga_transition-IsQuiet, replay-IsQuiet, confirm-IsQuiet,
  publish_failed-IsQuiet, publish_reservation_event-IsQuiet,
}
use proyecto_sd_reserva_de_h.Reservation.Calls.{is_success}
use proyecto_sd_reserva_de_h.Reservation.Compensation.{released_at}
use proyecto_sd_reserva_de_h.Reservation.Create.{
  Job, publish_failed, event_data, user_refused, lock_failed, no_stock,
}
use proyecto_sd_reserva_de_h.Reservation.Accounts.Run.{count_and_fail-IsQuiet}
use proyecto_sd_reserva_de_h.Reservation.Accounts.Conserved.{one_if}
use proyecto_sd_reserva_de_h.Reservation.Background.Ending.{run_confirmation-IsQuiet}
use proyecto_sd_reserva_de_h.Reservation.Concurrent.{
  Stage, arrived, starting, user_asking, user_calling, user_told, lock_asking, lock_calling,
  lock_told, saving, releasing, release_calling, release_told, finished, Dependency, users,
  inventory, report_call, ask_breaker, looked_up, saga_begun, user_checked, lock_checked,
  release_checked, end_not_saved, once_allowed, run_task, insert_tried,
}

-- The units of a room type that a request holds: from a granted lock to its reservation, or to a
-- granted release, or to the end of its attempts.
abbrev pub holding : String → Stage → ℕ
holding key (arrived req) = 0
holding key (starting req) = 0
holding key (user_asking job) = 0
holding key (user_calling job) = 0
holding key (user_told job r) = 0
holding key (lock_asking job email) = 0
holding key (lock_calling job email) = 0
holding key (lock_told job email r) = one_if (is_success r && str_eq job.req.room_type_id key)
holding key (saving job email) = one_if (str_eq job.req.room_type_id key)
holding key (releasing job left attempt) = one_if (str_eq job.req.room_type_id key)
holding key (release_calling job left attempt) = one_if (str_eq job.req.room_type_id key)
holding key (release_told job left attempt r) =
    one_if (not (is_success r) && str_eq job.req.room_type_id key)
holding key (finished req a) = 0

abbrev pub held : String → List Stage → ℕ
held key [] = 0
held key (st ∷ sts) = holding key st + held key sts

pub held-append :
    (key : String) (front back : List Stage)
    → held key (front ++ back) ≡ held key front + held key back
held-append key [] back = omega arith
held-append key (st ∷ front) back = omega (arith, held-append key front back)

module _ (inv : InventoryService) (w : World) (key : String) where
  open inv use {State}

  -- The ledger stays, and the stage that is reached holds `n` units.
  abbrev pub Stays : ℕ → Act State Stage → Type 0
  Stays n m =
      (s : ReservationServer State) → (ledger (m s).1 ≡ ledger s) × (holding key (m s).0 ≡ n)

  pub looked_up-Stays :
      (req : CreateReservationRequest) (r : Result String (Option ReservationRow))
      → Stays 0 (looked_up inv w req r)
  unfolding looked_up
  looked_up-Stays req (ok (some row)) s = (replay-IsQuiet w row s, refl)
  looked_up-Stays req (ok none) s = (refl, refl)
  looked_up-Stays req (err e) s = (refl, refl)

  pub saga_begun-Stays :
      (job : Job) (r : Result String (Unit {0})) → Stays 0 (saga_begun inv w job r)
  unfolding saga_begun
  saga_begun-Stays job (err e) s = (refl, refl)
  saga_begun-Stays job (ok _) s =
      let event = new_reservation_created w.env s.tick (event_data job) in
      (publish_reservation_event-IsQuiet job.req.user_id event (next_tick s).1, refl)

  pub user_checked-Stays :
      (job : Job) (r : Result (CallError Status) (Option User)) → Stays 0 (user_checked inv w job r)
  unfolding user_checked user_refused
  user_checked-Stays job (err e) s = (count_and_fail-IsQuiet w job "user_validation" _ _ _ s, refl)
  user_checked-Stays job (ok none) s = (refl, refl)
  user_checked-Stays job (ok (some user)) s =
      (record_saga_transition-IsQuiet w job.saga_id user_validated success _ s, refl)

  pub lock_checked-Stays :
      (job : Job) (email : String) (r : Result (CallError Status) UpdateStockResponse)
      → Stays
          (one_if (is_success r && str_eq job.req.room_type_id key))
          (lock_checked inv w job email r)
  unfolding lock_checked lock_failed no_stock
  lock_checked-Stays job email (err e) s =
      (count_and_fail-IsQuiet w job "inventory_lock" _ _ _ s, refl)
  lock_checked-Stays job email (ok res) s = elim (Bool-cases res.status) [
    | inl e ↦ rw e (refl, refl)
    | inr e ↦ rw e (
      count_and_fail-IsQuiet w job "inventory_no_stock" stock_unavailable
          "Inventario respondio status=false" "inventory_no_stock" s,
      refl,
    )
  ]

  pub insert_tried-IsQuiet :
      (job : Job) (email : String) (r : Result String (Unit {0}))
      → IsQuiet (insert_tried inv w job email r)
  unfolding insert_tried
  insert_tried-IsQuiet job email (ok _) s = confirm-IsQuiet w job email s
  insert_tried-IsQuiet job email (err e) s =
      let counted = (inc (Metric.failures "database_insert") s).1 in
      let noted =
        (record_saga_transition w job.saga_id reservation_insert_failed failure e counted).1 in
      let told = (publish_failed w job "database_insert_failed" noted).1 in
      record_saga_transition-IsQuiet w job.saga_id compensating success
        "Liberando stock por fallo posterior al bloqueo" told
      ∙ publish_failed-IsQuiet w job "database_insert_failed" noted
      ∙ record_saga_transition-IsQuiet w job.saga_id reservation_insert_failed failure e counted

  pub end_not_saved-Stays : (job : Job) → Stays 0 (end_not_saved inv w job)
  unfolding end_not_saved
  end_not_saved-Stays job s =
      (record_saga_transition-IsQuiet w job.saga_id saga_failed failure _ s, refl)

  released_at-IsQuiet :
      (saga_id room_type_id : String) (attempt : ℕ)
      → IsQuiet (released_at inv w saga_id room_type_id attempt)
  unfolding released_at
  released_at-IsQuiet saga_id room_type_id attempt s =
      record_saga_transition-IsQuiet w saga_id compensated success
        (concat "Stock liberado en intento " (print_ℕ attempt))
        (inc (Metric.compensations "success") s).1

  pub release_checked-Stays :
      (job : Job) (left attempt : ℕ) (r : Result (CallError Status) UpdateStockResponse)
      → Stays
          (one_if (not (is_success r) && str_eq job.req.room_type_id key))
          (release_checked inv w job left attempt r)
  unfolding release_checked
  release_checked-Stays job left attempt (err e) s = (refl, refl)
  release_checked-Stays job left attempt (ok res) s =
      let t = (released_at inv w job.saga_id job.req.room_type_id attempt s).1 in
      elim (Bool-cases res.status) [
        | inl e ↦
            let (q, h) = end_not_saved-Stays job t in
            rw e (q ∙ released_at-IsQuiet job.saga_id job.req.room_type_id attempt s, h)
        | inr e ↦ rw e (refl, refl)
      ]

  ask_breaker-IsQuiet : (d : Dependency) → IsQuiet (ask_breaker {I = State} w d)
  unfolding ask_breaker
  ask_breaker-IsQuiet users s = ground arith
  ask_breaker-IsQuiet inventory s = ground arith

  pub quietly-Stays :
      {A : Type 0} (n : ℕ) (m : Act State A) (f : A → Act State Stage)
      → IsQuiet m
      → ((a : A) → Stays n (f a))
      → Stays n (m >>= f)
  quietly-Stays n m f q k s = let (q', h) = k (m s).0 (m s).1 in (q' ∙ q s, h)

  once_allowed-Stays :
      (n : ℕ) (calling : Stage) (refused : CallError Status → Act State Stage)
      (refusal : Option (CallError Status))
      → holding key calling ≡ n
      → ((e : CallError Status) → Stays n (refused e))
      → Stays n (once_allowed inv w calling refused refusal)
  unfolding once_allowed
  once_allowed-Stays n calling refused none h k s = (refl, h)
  once_allowed-Stays n calling refused (some e) h k s = k e s

  pub asks-Stays :
      (n : ℕ) (d : Dependency) (calling : Stage) (refused : CallError Status → Act State Stage)
      → holding key calling ≡ n
      → ((e : CallError Status) → Stays n (refused e))
      → Stays n (ask_breaker w d >>= once_allowed inv w calling refused)
  asks-Stays n d calling refused h k =
      quietly-Stays n (ask_breaker w d) (once_allowed inv w calling refused) (ask_breaker-IsQuiet d)
        (λ refusal. once_allowed-Stays n calling refused refusal h k)

  pub report_call-IsQuiet :
      {A : Type 0} (d : Dependency) (r : Result Status A) → IsQuiet (report_call {I = State} w d r)
  unfolding report_call
  report_call-IsQuiet users (ok a) s = refl
  report_call-IsQuiet users (err e) s = refl
  report_call-IsQuiet inventory (ok a) s = refl
  report_call-IsQuiet inventory (err e) s = refl

  pub is_success-report_call :
      (d : Dependency) (r : Result Status UpdateStockResponse) (s : ReservationServer State)
      → is_success (report_call w d r s).0 ≡ is_success r
  unfolding report_call
  is_success-report_call d (ok a) s = refl
  is_success-report_call d (err e) s = refl

  pub run_task-IsQuiet : (task : Task) → IsQuiet (run_task inv w task)
  unfolding run_task
  run_task-IsQuiet (publish_event key' event) s = refl
  run_task-IsQuiet (send_confirmation saga_id user_id reservation_id email) s =
      run_confirmation-IsQuiet w saga_id user_id reservation_id email s
