-- ===== src/Reservation/Concurrent/Leading.antt =====
-- What is left of `CreateReservation` (mi-servicio/main.go) at each stage of a request, and that a
-- stage does its part of it.
use mathlib.Core.Path.{◌∙◌, ap}
use proyecto_sd_reserva_de_h.Base.{
  ℕ, zero, suc, ◌+◌, ◌≤◌, ◌≡◌, refl, sym, arith, String, Bool, Option, none, some, Result, ok, err,
  Answer, fail, Code, Status, status_error, Bool-cases, inl, inr,
}
use proyecto_sd_reserva_de_h.Breaker.{CallError}
use proyecto_sd_reserva_de_h.Inventory.Tables.{UpdateStockResponse}
use proyecto_sd_reserva_de_h.Reservation.Tables.{failure, saga_failed, ReservationRow}
use proyecto_sd_reserva_de_h.Reservation.Remote.{
  InventoryService, User, World, block_one, release_one,
}
use proyecto_sd_reserva_de_h.Reservation.Server.{
  CreateReservationRequest, CreateReservationResponse, ReservationServer, Act, pure, ◌>>=◌, ◌>>◌,
  record_saga_transition, call_inventory, call_user,
}
use proyecto_sd_reserva_de_h.Reservation.Compensation.{
  compensate_inventory, release_attempts, after_attempt,
}
use proyecto_sd_reserva_de_h.Reservation.Create.{
  Job, new_job, create_reservation, run_saga, existing_or_new, started_saga, validated, lock_stock,
  locked, save_reservation, saved, not_saved,
}
use proyecto_sd_reserva_de_h.Reservation.Concurrent.{
  Stage, arrived, starting, user_asking, user_calling, user_told, lock_asking, lock_calling,
  lock_told, saving, releasing, release_calling, release_told, finished, users, inventory,
  report_call, ask_breaker, get_user, update_stock_call, looked_up, saga_begun, user_checked,
  lock_checked, insert_tried, release_checked, end_not_saved, once_allowed, step, Dependency,
  request_of,
}
use proyecto_sd_reserva_de_h.Reservation.Concurrent.Calling.{
  IsStaged, call_user-IsStaged, call_inventory-IsStaged,
}

module _ (inv : InventoryService) (w : World) where
  open inv use {State}

  abbrev pub Run : Type 0
  Run = Act State (Answer CreateReservationResponse)

  abbrev pub once_released : Job → Bool → Run
  once_released job b = do
    record_saga_transition w job.saga_id saga_failed failure
        "Reserva no persistida; se ejecuto compensacion de inventario"
    pure (fail (status_error Code.internal "error interno al guardar la reserva"))

  -- What is left of `CreateReservation` at a stage.
  abbrev pub rest : Stage → Run
  rest (arrived req) = create_reservation inv w req
  rest (starting req) = run_saga inv w req
  rest (user_asking job) = do res ← call_user inv w job.req.user_id; validated inv w job res
  rest (user_calling job) = do
    r ← get_user w job.req.user_id
    res ← report_call w users r
    validated inv w job res
  rest (user_told job r) = do res ← report_call w users r; validated inv w job res
  rest (lock_asking job email) = do
    res ← call_inventory inv w (block_one job.req.room_type_id)
    locked inv w job email res
  rest (lock_calling job email) = do
    r ← update_stock_call inv w (block_one job.req.room_type_id)
    res ← report_call w inventory r
    locked inv w job email res
  rest (lock_told job email r) = do res ← report_call w inventory r; locked inv w job email res
  rest (saving job email) = save_reservation inv w job email
  rest (releasing job left attempt) = do
    b ← release_attempts inv w job.saga_id job.req.room_type_id left attempt
    once_released job b
  rest (release_calling job left attempt) = do
    r ← update_stock_call inv w (release_one job.req.room_type_id)
    res ← report_call w inventory r
    b ←
        after_attempt inv w job.saga_id job.req.room_type_id attempt
          (release_attempts inv w job.saga_id job.req.room_type_id left (attempt + 1)) res
    once_released job b
  rest (release_told job left attempt r) = do
    res ← report_call w inventory r
    b ←
        after_attempt inv w job.saga_id job.req.room_type_id attempt
          (release_attempts inv w job.saga_id job.req.room_type_id left (attempt + 1)) res
    once_released job b
  rest (finished req a) = pure a

  -- The stages still to come, at most.
  abbrev pub to_go : Stage → ℕ
  to_go (arrived req) = 20
  to_go (starting req) = 19
  to_go (user_asking job) = 18
  to_go (user_calling job) = 17
  to_go (user_told job r) = 16
  to_go (lock_asking job email) = 15
  to_go (lock_calling job email) = 14
  to_go (lock_told job email r) = 13
  to_go (saving job email) = 12
  to_go (releasing job left attempt) = left + left + left + 1
  to_go (release_calling job left attempt) = left + left + left + 3
  to_go (release_told job left attempt r) = left + left + left + 2
  to_go (finished req a) = 0

  -- The stage that `m` comes to is one of `req`, has at most `n` more to go, and what is left of it
  -- is `k`.
  abbrev Arrives :
      CreateReservationRequest
      → ℕ
      → Answer CreateReservationResponse × ReservationServer State
      → Stage × ReservationServer State
      → Type 0
  Arrives req n end (st, t) = (rest st t ≡ end) × (to_go st ≤ n) × (request_of st ≡ req)

  abbrev Leads : CreateReservationRequest → ℕ → Run → Act State Stage → Type 0
  Leads req n k m = (s : ReservationServer State) → Arrives req n (k s) (m s)

  looked_up-Leads :
      (req : CreateReservationRequest) (r : Result String (Option ReservationRow)) (n : ℕ)
      → 19 ≤ n
      → Leads req n (existing_or_new inv w req r) (looked_up inv w req r)
  unfolding looked_up existing_or_new
  looked_up-Leads req (ok (some row)) n h s = (refl, omega arith, refl)
  looked_up-Leads req (ok none) n h s = (refl, h, refl)
  looked_up-Leads req (err e) n h s = (refl, h, refl)

  saga_begun-Leads :
      (job : Job) (r : Result String (Unit {0})) (n : ℕ)
      → 18 ≤ n
      → Leads job.req n (started_saga inv w job r) (saga_begun inv w job r)
  unfolding saga_begun started_saga
  saga_begun-Leads job (ok _) n h s = (refl, h, refl)
  saga_begun-Leads job (err e) n h s = (refl, omega arith, refl)

  user_checked-Leads :
      (job : Job) (r : Result (CallError Status) (Option User)) (n : ℕ)
      → 15 ≤ n
      → Leads job.req n (validated inv w job r) (user_checked inv w job r)
  unfolding user_checked validated lock_stock
  user_checked-Leads job (err e) n h s = (refl, omega arith, refl)
  user_checked-Leads job (ok none) n h s = (refl, omega arith, refl)
  user_checked-Leads job (ok (some user)) n h s = (refl, h, refl)

  lock_checked-Leads :
      (job : Job) (email : String) (r : Result (CallError Status) UpdateStockResponse) (n : ℕ)
      → 12 ≤ n
      → Leads job.req n (locked inv w job email r) (lock_checked inv w job email r)
  unfolding lock_checked locked
  lock_checked-Leads job email (err e) n h s = (refl, omega arith, refl)
  lock_checked-Leads job email (ok res) n h s = elim (Bool-cases res.status) [
    | inl e ↦ rw e (refl, h, refl)
    | inr e ↦ rw e (refl, omega arith, refl)
  ]

  insert_tried-Leads :
      (job : Job) (email : String) (r : Result String (Unit {0})) (n : ℕ)
      → 11 ≤ n
      → Leads job.req n (saved inv w job email r) (insert_tried inv w job email r)
  unfolding insert_tried saved not_saved compensate_inventory
  insert_tried-Leads job email (ok _) n h s = (refl, omega arith, refl)
  insert_tried-Leads job email (err e) n h s = (refl, omega arith, refl)

  abbrev after_call : Job → ℕ → ℕ → Result (CallError Status) UpdateStockResponse → Run
  after_call job left attempt res = do
    b ←
        after_attempt inv w job.saga_id job.req.room_type_id attempt
          (release_attempts inv w job.saga_id job.req.room_type_id left (attempt + 1)) res
    once_released job b

  release_checked-Leads :
      (job : Job) (left attempt : ℕ) (r : Result (CallError Status) UpdateStockResponse) (n : ℕ)
      → left + left + left + 1 ≤ n
      → Leads job.req n (after_call job left attempt r) (release_checked inv w job left attempt r)
  unfolding release_checked after_attempt end_not_saved
  release_checked-Leads job left attempt (err e) n h s = (refl, h, refl)
  release_checked-Leads job left attempt (ok res) n h s = elim (Bool-cases res.status) [
    | inl e ↦ rw e (refl, omega arith, refl)
    | inr e ↦ rw e (refl, h, refl)
  ]

  -- The first stage of a call.
  asks-Leads :
      {A : Type 0} (req : CreateReservationRequest) (n : ℕ) (d : Dependency)
      (whole : Act State (Result (CallError Status) A)) (call : Act State (Result Status A))
      (k : Result (CallError Status) A → Run) (calling : Stage)
      (refused : CallError Status → Act State Stage) (s : ReservationServer State)
      → IsStaged w d whole call s
      → ((t : ReservationServer State) → rest calling t ≡ (call >>= report_call w d >>= k) t)
      → to_go calling ≤ n
      → request_of calling ≡ req
      → ((e : CallError Status) → Leads req n (k (err e)) (refused e))
      → Arrives req n ((whole >>= k) s) ((ask_breaker w d >>= once_allowed inv w calling refused) s)
  unfolding once_allowed
  asks-Leads {A} req n d whole call k calling refused s (inl (e, p)) goes bound same refuses =
      let then_ = ap (λ (x : Result (CallError Status) A × ReservationServer State). k x.0 x.1) p in
      rw e (goes (ask_breaker w d s).1 ∙ sym then_, bound, same)
  asks-Leads {A} req n d whole call k calling refused s (inr (e, r, p)) goes bound same refuses =
      let then_ = ap (λ (x : Result (CallError Status) A × ReservationServer State). k x.0 x.1) p in
      let (q, b, c) = refuses e (ask_breaker w d s).1 in rw r (q ∙ sym then_, b, c)

  pub step-Leads :
      (st : Stage) (n : ℕ) → to_go st ≤ suc n → Leads (request_of st) n (rest st) (step inv w st)
  unfolding step create_reservation run_saga save_reservation release_attempts end_not_saved new_job
  step-Leads (arrived req) n h s = looked_up-Leads req _ n (omega arith) _
  step-Leads (starting req) n h s = saga_begun-Leads _ _ n (omega arith) _
  step-Leads (user_asking job) n h s =
      asks-Leads job.req n users (call_user inv w job.req.user_id) (get_user w job.req.user_id)
        (validated inv w job) (user_calling job) (λ e. user_checked inv w job (err e)) s
        (call_user-IsStaged inv w job.req.user_id s) (λ t. refl) (omega arith) refl
        (λ e. user_checked-Leads job (err e) n (omega arith))
  step-Leads (user_calling job) n h s = (refl, omega arith, refl)
  step-Leads (user_told job r) n h s = user_checked-Leads job _ n (omega arith) _
  step-Leads (lock_asking job email) n h s =
      let req = block_one job.req.room_type_id in
      asks-Leads job.req n inventory (call_inventory inv w req) (update_stock_call inv w req)
        (locked inv w job email) (lock_calling job email)
        (λ e. lock_checked inv w job email (err e)) s (call_inventory-IsStaged inv w req s)
        (λ t. refl) (omega arith) refl (λ e. lock_checked-Leads job email (err e) n (omega arith))
  step-Leads (lock_calling job email) n h s = (refl, omega arith, refl)
  step-Leads (lock_told job email r) n h s = lock_checked-Leads job email _ n (omega arith) _
  step-Leads (saving job email) n h s = insert_tried-Leads job email _ n (omega arith) _
  step-Leads (releasing job zero attempt) n h s = (refl, omega arith, refl)
  step-Leads (releasing job (suc left) attempt) n h s =
      let req = release_one job.req.room_type_id in
      asks-Leads job.req n inventory (call_inventory inv w req) (update_stock_call inv w req)
        (after_call job left attempt) (release_calling job left attempt)
        (λ e. release_checked inv w job left attempt (err e)) s
        (call_inventory-IsStaged inv w req s) (λ t. refl) (omega arith) refl
        (λ e. release_checked-Leads job left attempt (err e) n (omega arith))
  step-Leads (release_calling job left attempt) n h s = (refl, omega arith, refl)
  step-Leads (release_told job left attempt r) n h s =
      release_checked-Leads job left attempt _ n (omega arith) _
  step-Leads (finished req a) n h s = (refl, omega arith, refl)
