-- ===== src/Reservation/Concurrent/Sequential.antt =====
-- A request of mi-servicio/main.go that runs with no other in between: its stages, one after the other,
-- are `CreateReservation`.
use mathlib.Core.Path.{◌∙◌, ap}
use proyecto_sd_reserva_de_h.Base.{ℕ, zero, suc, ◌≤◌, ◌≡◌, refl, arith, Answer}
use proyecto_sd_reserva_de_h.Reservation.Remote.{InventoryService, World}
use proyecto_sd_reserva_de_h.Reservation.Server.{
  CreateReservationRequest, CreateReservationResponse, ReservationServer, Act, pure, ◌>>=◌,
}
use proyecto_sd_reserva_de_h.Reservation.Create.{create_reservation}
use proyecto_sd_reserva_de_h.Reservation.Concurrent.{
  Stage, arrived, starting, user_asking, user_calling, user_told, lock_asking, lock_calling,
  lock_told, saving, releasing, release_calling, release_told, finished, step, request_of,
}
use proyecto_sd_reserva_de_h.Reservation.Concurrent.Leading.{rest, to_go, step-Leads}

module _ (inv : InventoryService) (w : World) where
  open inv use {State}

  -- A request that is taken `n` stages further, with no other in between.
  unfoldable pub run_alone : ℕ → Stage → Act State Stage
  run_alone zero st = pure st
  run_alone (suc n) st = do st' ← step inv w st; run_alone n st'

  abbrev pub end_of :
      CreateReservationRequest
      → Answer CreateReservationResponse × ReservationServer State
      → Stage × ReservationServer State
  end_of req (a, t) = (finished req a, t)

  none_to_go :
      (st : Stage) (s : ReservationServer State)
      → to_go inv w st ≤ 0
      → (st, s) ≡ end_of (request_of st) (rest inv w st s)
  none_to_go (arrived req) s h = absurd (omega arith)
  none_to_go (starting req) s h = absurd (omega arith)
  none_to_go (user_asking job) s h = absurd (omega arith)
  none_to_go (user_calling job) s h = absurd (omega arith)
  none_to_go (user_told job r) s h = absurd (omega arith)
  none_to_go (lock_asking job email) s h = absurd (omega arith)
  none_to_go (lock_calling job email) s h = absurd (omega arith)
  none_to_go (lock_told job email r) s h = absurd (omega arith)
  none_to_go (saving job email) s h = absurd (omega arith)
  none_to_go (releasing job left attempt) s h = absurd (omega arith)
  none_to_go (release_calling job left attempt) s h = absurd (omega arith)
  none_to_go (release_told job left attempt r) s h = absurd (omega arith)
  none_to_go (finished req a) s h = refl

  pub run_alone_ends :
      (n : ℕ) (st : Stage) (s : ReservationServer State)
      → to_go inv w st ≤ n
      → run_alone n st s ≡ end_of (request_of st) (rest inv w st s)
  unfolding run_alone
  run_alone_ends zero st s h = none_to_go st s h
  run_alone_ends (suc n) st s h =
      let (st', t) = step inv w st s in
      let (q, b, r) = step-Leads inv w st n h s in
      run_alone_ends n st' t b
      ∙ ap (λ x. end_of x (rest inv w st' t)) r
      ∙ ap (end_of (request_of st)) q

  -- The stages of a request, taken one after the other with no other request in between, are
  -- `CreateReservation`: twenty of them are enough for its end, with the same answer and the same
  -- server.
  pub run_alone-create_reservation :
      (n : ℕ) (req : CreateReservationRequest) (s : ReservationServer State)
      → 20 ≤ n
      → let (a, t) = create_reservation inv w req s in
        run_alone n (arrived req) s ≡ (finished req a, t)
  run_alone-create_reservation n req s h = run_alone_ends n (arrived req) s h
