-- ===== src/Reservation/Concurrent/Telling.antt =====
-- What a stage of a request to mi-servicio/main.go does to what the requests were told.
use mathlib.Core.Path.{subst, ◌∙◌, ap}
use proyecto_sd_reserva_de_h.Base.{
  ℕ, zero, suc, ◌+◌, ◌≡◌, refl, sym, String, false, not, ◌&&◌, List, ◌∷◌, Option, none, some,
  str_eq, concat, find_row, Result, ok, err, Status,
}
use proyecto_sd_reserva_de_h.Breaker.{CallError}
use proyecto_sd_reserva_de_h.Reservation.Tables.{
  success, failure, compensation_failed, stock_locked, has_key, insert_reservation, ReservationRow,
}
use proyecto_sd_reserva_de_h.Reservation.Remote.{InventoryService, World}
use proyecto_sd_reserva_de_h.Reservation.Server.{
  Metric, CreateReservationRequest, ReservationServer, Act, ◌>>=◌, inc, exec,
  record_saga_transition, start_saga,
}
use proyecto_sd_reserva_de_h.Reservation.Ledger.{
  Ledger, find_existing-IsQuiet, start_saga-IsQuiet, record_saga_transition-IsQuiet,
}
use proyecto_sd_reserva_de_h.Reservation.Create.{
  Job, reservation_row, new_job, find_existing, replay, confirm,
}
use proyecto_sd_reserva_de_h.Reservation.Compensation.{give_up}
use proyecto_sd_reserva_de_h.Reservation.Calls.{is_success}
use proyecto_sd_reserva_de_h.Reservation.Accounts.Conserved.{one_if}
use proyecto_sd_reserva_de_h.Reservation.Accounts.Run.{find_existing_lem}
use proyecto_sd_reserva_de_h.Reservation.Replay.{find_row-head, row_has_key}
use proyecto_sd_reserva_de_h.Reservation.Concurrent.{
  Stage, arrived, starting, user_asking, user_calling, user_told, lock_asking, lock_calling,
  lock_told, saving, releasing, release_calling, release_told, finished, Dependency, users,
  inventory, report_call, ask_breaker, get_user, update_stock_call, looked_up, saga_begun,
  user_checked, lock_checked, insert_tried, release_checked, end_not_saved, once_allowed, step,
}
use proyecto_sd_reserva_de_h.Reservation.Concurrent.Holding.{
  holding, Stays, looked_up-Stays, saga_begun-Stays, user_checked-Stays, lock_checked-Stays,
  insert_tried-IsQuiet, end_not_saved-Stays, release_checked-Stays, quietly-Stays, asks-Stays,
  report_call-IsQuiet,
}
use proyecto_sd_reserva_de_h.Reservation.Concurrent.Keys.{
  replies, IsRecorded, Extends, silent, inserts-Extends,
}
use proyecto_sd_reserva_de_h.Reservation.Concurrent.Silent.{
  IsSilent, saga_begun-IsSilent, user_checked-IsSilent, lock_checked-IsSilent,
  release_checked-IsSilent, once_allowed-IsSilent,
}

module _ (inv : InventoryService) (w : World) where
  open inv use {State}

  -- What a stage does to the answers: no lookup of a key loses what it finds, and if the stage ends
  -- in a reply, a lookup finds it.
  abbrev pub Tells : Act State Stage → ReservationServer State → Type 0
  Tells m s =
      let (st, t) = m s in
      Extends s.db.reservations t.db.reservations × IsRecorded t.db.reservations st

  same_rows : (rows rows' : List ReservationRow) → rows' ≡ rows → Extends rows rows'
  same_rows rows rows' q key row n f = ap (find_row (has_key key)) q ∙ f

  silently :
      (key : String) (n : ℕ) (m : Act State Stage) (s : ReservationServer State)
      → Stays inv w key n m
      → IsSilent inv w m
      → Tells m s
  silently key n m s stays quiet = (
    same_rows s.db.reservations (m s).1.db.reservations
        (ap (λ (l : Ledger State). l.reservations) (stays s).0),
    silent (m s).1.db.reservations (m s).0 (quiet s),
  )

  abbrev rows : Ledger State → List ReservationRow
  rows l = l.reservations

  looked_up-IsRecorded :
      (req : CreateReservationRequest) (r : Result String (Option ReservationRow))
      (s : ReservationServer State)
      → ((row : ReservationRow)
          → r ≡ ok (some row)
          → find_row (has_key req.idempotency_key) s.db.reservations ≡ some row)
      → IsRecorded s.db.reservations (looked_up inv w req r s).0
  unfolding looked_up replay
  looked_up-IsRecorded req (ok (some row)) s f n r = (row, f row refl, refl)
  looked_up-IsRecorded req (ok none) s f n r = absurd (cc r)
  looked_up-IsRecorded req (err e) s f n r = absurd (cc r)

  arrived-Tells :
      (req : CreateReservationRequest) (s : ReservationServer State)
      → Tells (step inv w (arrived req)) s
  unfolding step
  arrived-Tells req s =
      let (r, t) = find_existing w req.idempotency_key s in
      let q = find_existing-IsQuiet w req.idempotency_key s in
      let q' = (looked_up-Stays inv w "" req r t).0 in
      let same = ap rows (q' ∙ q) in
      (
        same_rows s.db.reservations _ same,
        subst (λ rs. IsRecorded rs (looked_up inv w req r t).0) (sym (ap rows q'))
            (looked_up-IsRecorded req r t (λ row e.
              ap (λ (l : Ledger State). find_row (has_key req.idempotency_key) l.reservations) q
              ∙ find_existing_lem w req.idempotency_key row s e)),
      )

  asks-Tells :
      (n : ℕ) (d : Dependency) (calling : Stage) (on_refusal : CallError Status → Act State Stage)
      (s : ReservationServer State)
      → holding "" calling ≡ n
      → replies calling ≡ false
      → ((e : CallError Status) → Stays inv w "" n (on_refusal e))
      → ((e : CallError Status) → IsSilent inv w (on_refusal e))
      → Tells (ask_breaker w d >>= once_allowed inv w calling on_refusal) s
  asks-Tells n d calling on_refusal s h h' k k' =
      silently "" n (ask_breaker w d >>= once_allowed inv w calling on_refusal) s
        (asks-Stays inv w "" n d calling on_refusal h k)
        (λ t. once_allowed-IsSilent inv w calling on_refusal _ h' k' _)

  reports-Tells :
      {A : Type 0} (d : Dependency) (r : Result Status A)
      (f : Result (CallError Status) A → Act State Stage) (n : Result (CallError Status) A → ℕ)
      (s : ReservationServer State)
      → ((x : Result (CallError Status) A) → Stays inv w "" (n x) (f x))
      → ((x : Result (CallError Status) A) → IsSilent inv w (f x))
      → Tells (report_call w d r >>= f) s
  reports-Tells d r f n s k quiet =
      let (x, t) = report_call w d r s in
      let q = report_call-IsQuiet inv w "" d r s in
      (
        same_rows s.db.reservations (f x t).1.db.reservations (ap rows ((k x t).0 ∙ q)),
        silent (f x t).1.db.reservations (f x t).0 (quiet x t),
      )

  out_of_attempts-Tells :
      (job : Job) (attempt : ℕ) (s : ReservationServer State)
      → Tells (step inv w (releasing job zero attempt)) s
  unfolding step give_up end_not_saved
  out_of_attempts-Tells job attempt s =
      let counted = (inc (Metric.compensations "failed") s).1 in
      let detail : String = "No se pudo liberar stock despues de 3 intentos" in
      let t = (record_saga_transition w job.saga_id compensation_failed failure detail counted).1 in
      let q =
        record_saga_transition-IsQuiet w job.saga_id compensation_failed failure detail counted in
      let q' = (end_not_saved-Stays inv w "" job t).0 in
      (
        same_rows s.db.reservations (end_not_saved inv w job t).1.db.reservations
            (ap rows q' ∙ ap rows q),
        silent _ (end_not_saved inv w job t).0 refl,
      )

  untold :
      (st : Stage) (rs : List ReservationRow)
      → replies st ≡ false
      → Extends rs rs × IsRecorded rs st
  untold st rs q = ((λ key found n f. f), silent rs st q)

  insert_tried-IsRecorded :
      (job : Job) (email : String) (r : Result String (Unit {0})) (before : List ReservationRow)
      (s : ReservationServer State)
      → (r ≡ ok tt → s.db.reservations ≡ reservation_row w job ∷ before)
      → IsRecorded s.db.reservations (insert_tried inv w job email r s).0
  unfolding insert_tried confirm reservation_row
  insert_tried-IsRecorded job email (err e) before s h n r = absurd (cc r)
  insert_tried-IsRecorded job email (ok _) before s h n r =
      let row = reservation_row w job in
      (
        row,
        ap (find_row (has_key job.req.idempotency_key)) (h refl)
            ∙ find_row-head (has_key job.req.idempotency_key) row before
                (row_has_key job.req row n (refl, refl, refl, refl, refl, refl, refl, refl)),
        refl,
      )

  saving-Tells :
      (job : Job) (email : String) (s : ReservationServer State)
      → Tells (step inv w (saving job email)) s
  unfolding step exec
  saving-Tells job email s =
      let detail = concat "Stock bloqueado para room_type_id=" job.req.room_type_id in
      let noted = (record_saga_transition w job.saga_id stock_locked success detail s).1 in
      let q =
        ap rows (record_saga_transition-IsQuiet w job.saga_id stock_locked success detail s) in
      let row = reservation_row w job in
      let (r, after) = exec w (insert_reservation row) noted in
      let (first, kept) = inserts-Extends (w.outcome noted.tick) row noted.db in
      let q' = ap rows (insert_tried-IsQuiet inv w "" job email r after) in
      (
        λ key found n f.
            ap (find_row (has_key key)) q' ∙ kept key found n (ap (find_row (has_key key)) q ∙ f),
        subst (λ rs. IsRecorded rs (insert_tried inv w job email r after).0) (sym q')
            (insert_tried-IsRecorded job email r noted.db.reservations after first),
      )

  pub step-Tells :
      (st : Stage) (s : ReservationServer State)
      → IsRecorded s.db.reservations st
      → Tells (step inv w st) s
  unfolding step get_user update_stock_call
  step-Tells (arrived req) s h = arrived-Tells req s
  step-Tells (starting req) s h =
      let drawn = record s { tick = s.tick + 1 + 1 } in
      let job = new_job w s.tick (s.tick + 1) req in
      silently "" 0 (start_saga w job.saga_id job.reservation_id req >>= saga_begun inv w job) drawn
        (quietly-Stays inv w "" 0 (start_saga w job.saga_id job.reservation_id req)
          (saga_begun inv w job) (start_saga-IsQuiet w job.saga_id job.reservation_id req)
          (saga_begun-Stays inv w "" job))
        (λ t. saga_begun-IsSilent inv w job _ _)
  step-Tells (user_asking job) s h =
      asks-Tells 0 users (user_calling job) (λ e. user_checked inv w job (err e)) s refl refl
        (λ e. user_checked-Stays inv w "" job (err e))
        (λ e. user_checked-IsSilent inv w job (err e))
  step-Tells (user_calling job) s h = untold (user_told job _) s.db.reservations refl
  step-Tells (user_told job r) s h =
      reports-Tells users r (user_checked inv w job) (λ x. 0) s (user_checked-Stays inv w "" job)
        (user_checked-IsSilent inv w job)
  step-Tells (lock_asking job email) s h =
      asks-Tells 0 inventory (lock_calling job email) (λ e. lock_checked inv w job email (err e)) s
        refl refl (λ e. lock_checked-Stays inv w "" job email (err e))
        (λ e. lock_checked-IsSilent inv w job email (err e))
  step-Tells (lock_calling job email) s h = untold (lock_told job email _) s.db.reservations refl
  step-Tells (lock_told job email r) s h =
      reports-Tells inventory r (lock_checked inv w job email)
        (λ x. one_if (is_success x && str_eq job.req.room_type_id "")) s
        (lock_checked-Stays inv w "" job email) (lock_checked-IsSilent inv w job email)
  step-Tells (saving job email) s h = saving-Tells job email s
  step-Tells (releasing job zero attempt) s h = out_of_attempts-Tells job attempt s
  step-Tells (releasing job (suc left) attempt) s h =
      asks-Tells _ inventory (release_calling job left attempt)
        (λ e. release_checked inv w job left attempt (err e)) s refl refl
        (λ e. release_checked-Stays inv w "" job left attempt (err e))
        (λ e. release_checked-IsSilent inv w job left attempt (err e))
  step-Tells (release_calling job left attempt) s h =
      untold (release_told job left attempt _) s.db.reservations refl
  step-Tells (release_told job left attempt r) s h =
      reports-Tells inventory r (release_checked inv w job left attempt)
        (λ x. one_if (not (is_success x) && str_eq job.req.room_type_id "")) s
        (release_checked-Stays inv w "" job left attempt)
        (release_checked-IsSilent inv w job left attempt)
  step-Tells (finished req a) s h = (λ key found n f. f, h)
