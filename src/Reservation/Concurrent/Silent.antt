-- ===== src/Reservation/Concurrent/Silent.antt =====
-- The stages of a request to mi-servicio/main.go that end in no reply.
use proyecto_sd_reserva_de_h.Base.{
  ℕ, ◌≡◌, refl, inl, inr, String, false, Option, none, some, Result, ok, err, Status, Bool-cases,
}
use proyecto_sd_reserva_de_h.Breaker.{CallError}
use proyecto_sd_reserva_de_h.Inventory.Tables.{UpdateStockResponse}
use proyecto_sd_reserva_de_h.Reservation.Remote.{InventoryService, User, World}
use proyecto_sd_reserva_de_h.Reservation.Server.{ReservationServer, Act}
use proyecto_sd_reserva_de_h.Reservation.Create.{Job, user_refused, lock_failed, no_stock}
use proyecto_sd_reserva_de_h.Reservation.Accounts.Run.{refuse_call-refuses}
use proyecto_sd_reserva_de_h.Reservation.Concurrent.{
  Stage, saga_begun, user_checked, lock_checked, release_checked, end_not_saved, once_allowed,
}
use proyecto_sd_reserva_de_h.Reservation.Concurrent.Keys.{replies}

module _ (inv : InventoryService) (w : World) where
  open inv use {State}

  abbrev pub IsSilent : Act State Stage → Type 0
  IsSilent m = (s : ReservationServer State) → replies (m s).0 ≡ false

  pub saga_begun-IsSilent :
      (job : Job) (r : Result String (Unit {0})) → IsSilent (saga_begun inv w job r)
  unfolding saga_begun
  saga_begun-IsSilent job (ok _) s = refl
  saga_begun-IsSilent job (err e) s = refl

  pub user_checked-IsSilent :
      (job : Job) (r : Result (CallError Status) (Option User))
      → IsSilent (user_checked inv w job r)
  unfolding user_checked user_refused
  user_checked-IsSilent job (err e) s = refuse_call-refuses e _ _
  user_checked-IsSilent job (ok none) s = refl
  user_checked-IsSilent job (ok (some user)) s = refl

  pub lock_checked-IsSilent :
      (job : Job) (email : String) (r : Result (CallError Status) UpdateStockResponse)
      → IsSilent (lock_checked inv w job email r)
  unfolding lock_checked lock_failed no_stock
  lock_checked-IsSilent job email (err e) s = refuse_call-refuses e _ _
  lock_checked-IsSilent job email (ok res) s = elim (Bool-cases res.status) [
    | inl e ↦ rw e refl
    | inr e ↦ rw e refl
  ]

  pub release_checked-IsSilent :
      (job : Job) (left attempt : ℕ) (r : Result (CallError Status) UpdateStockResponse)
      → IsSilent (release_checked inv w job left attempt r)
  unfolding release_checked end_not_saved
  release_checked-IsSilent job left attempt (err e) s = refl
  release_checked-IsSilent job left attempt (ok res) s = elim (Bool-cases res.status) [
    | inl e ↦ rw e refl
    | inr e ↦ rw e refl
  ]

  pub once_allowed-IsSilent :
      (calling : Stage) (on_refusal : CallError Status → Act State Stage)
      (refusal : Option (CallError Status))
      → replies calling ≡ false
      → ((e : CallError Status) → IsSilent (on_refusal e))
      → IsSilent (once_allowed inv w calling on_refusal refusal)
  unfolding once_allowed
  once_allowed-IsSilent calling on_refusal none h k s = h
  once_allowed-IsSilent calling on_refusal (some e) h k s = k e s
