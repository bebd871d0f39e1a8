-- ===== src/Reservation/Concurrent/Balance.antt =====
-- Requests of mi-servicio/main.go that overlap in any order: what the stocks lose is reserved, or held
-- by a request on its way.
use mathlib.Core.Path.{subst, ap}
use proyecto_sd_reserva_de_h.Base.{
  ℕ, zero, suc, ◌+◌, ◌≡◌, refl, sym, arith, String, not, ◌&&◌, List, ◌∷◌, ◌++◌, str_eq, err,
}
use proyecto_sd_reserva_de_h.Base.Int.{ℤ, pos, ◌+ℤ◌, +ℤ_parts, eq_of_parts, pos_part, neg_part}
use proyecto_sd_reserva_de_h.Reservation.Remote.{InventoryService, World}
use proyecto_sd_reserva_de_h.Reservation.Server.{ReservationServer, ◌>>=◌, start_saga}
use proyecto_sd_reserva_de_h.Reservation.Ledger.{
  Ledger, ledger, start_saga-IsQuiet, find_existing-IsQuiet,
}
use proyecto_sd_reserva_de_h.Reservation.Calls.{IsAcknowledged}
use proyecto_sd_reserva_de_h.Reservation.Create.{new_job, find_existing}
use proyecto_sd_reserva_de_h.Reservation.Accounts.Conserved.{reserved, one_if, chain}
use proyecto_sd_reserva_de_h.Reservation.Concurrent.{
  Stage, arrived, starting, user_asking, user_calling, user_told, lock_asking, lock_calling,
  lock_told, saving, releasing, release_calling, release_told, finished, users, inventory,
  report_call, get_user, looked_up, saga_begun, user_checked, lock_checked, release_checked, step,
  System, Step, arrives, picks, works, Reach, here, next,
}
use proyecto_sd_reserva_de_h.Reservation.Concurrent.Holding.{
  run_task-IsQuiet, holding, held, held-append, looked_up-Stays, saga_begun-Stays,
  user_checked-Stays, lock_checked-Stays, release_checked-Stays, quietly-Stays, asks-Stays,
  report_call-IsQuiet,
}
use proyecto_sd_reserva_de_h.Reservation.Concurrent.Moves.{
  Moves, unmoved, Stays-Moves, lock_calling-Moves, release_calling-Moves, out_of_attempts-Moves,
  saving-Moves, reported,
}

-- The same sum with `c` more on both sides.
widen :
    (v v' : ℤ) (n n' m m' c : ℕ)
    → v' +ℤ pos n' ≡ v +ℤ pos n
    → m' ≡ n' + c
    → m ≡ n + c
    → v' +ℤ pos m' ≡ v +ℤ pos m
widen v v' n n' m m' c sum e e' =
    let p = ap pos_part sum in
    let q = ap neg_part sum in
    let a = +ℤ_parts v' (pos n') in
    let b = +ℤ_parts v (pos n) in
    let f = +ℤ_parts v' (pos m') in let g = +ℤ_parts v (pos m) in eq_of_parts _ _ (omega arith)

module _ (inv : InventoryService) (key : String) where
  open inv use {State, stock, IsSound}

  module _ (w : World) (k : IsAcknowledged w) where
    step-Moves :
        (st : Stage) (s : ReservationServer State)
        → let (st', t) = step inv w st s in
          Moves inv key (ledger s) (holding key st) (ledger t) (holding key st')
    unfolding step get_user
    step-Moves (arrived req) s = Stays-Moves inv key w 0 (step inv w (arrived req)) s (
        quietly-Stays inv w key 0 (find_existing w req.idempotency_key) (looked_up inv w req)
          (find_existing-IsQuiet w req.idempotency_key) (looked_up-Stays inv w key req))
    step-Moves (starting req) s =
        let drawn = record s { tick = s.tick + 1 + 1 } in
        let job = new_job w s.tick (s.tick + 1) req in
        Stays-Moves inv key w 0
          (start_saga w job.saga_id job.reservation_id req >>= saga_begun inv w job) drawn
          (quietly-Stays inv w key 0 (start_saga w job.saga_id job.reservation_id req)
            (saga_begun inv w job) (start_saga-IsQuiet w job.saga_id job.reservation_id req)
            (saga_begun-Stays inv w key job))
    step-Moves (user_asking job) s = Stays-Moves inv key w 0 (step inv w (user_asking job)) s (
        asks-Stays inv w key 0 users (user_calling job) (λ e. user_checked inv w job (err e)) refl
          (λ e. user_checked-Stays inv w key job (err e)))
    step-Moves (user_calling job) s = unmoved inv key (ledger s) _ 0 0 refl refl
    step-Moves (user_told job r) s = Stays-Moves inv key w 0 (step inv w (user_told job r)) s (
        quietly-Stays inv w key 0 (report_call w users r) (user_checked inv w job)
          (report_call-IsQuiet inv w key users r) (user_checked-Stays inv w key job))
    step-Moves (lock_asking job email) s =
        Stays-Moves inv key w 0 (step inv w (lock_asking job email)) s (
          asks-Stays inv w key 0 inventory (lock_calling job email)
            (λ e. lock_checked inv w job email (err e)) refl
            (λ e. lock_checked-Stays inv w key job email (err e)))
    step-Moves (lock_calling job email) s = lock_calling-Moves inv key w k job email s
    step-Moves (lock_told job email r) s =
        reported inv key w k _ r (lock_checked inv w job email)
          (λ b. one_if (b && str_eq job.req.room_type_id key)) s refl
          (lock_checked-Stays inv w key job email)
    step-Moves (saving job email) s = saving-Moves inv key w k job email s
    step-Moves (releasing job zero attempt) s = out_of_attempts-Moves inv key w k job attempt s
    step-Moves (releasing job (suc left) attempt) s =
        Stays-Moves inv key w _ (step inv w (releasing job (suc left) attempt)) s (
          asks-Stays inv w key _ inventory (release_calling job left attempt)
            (λ e. release_checked inv w job left attempt (err e)) refl
            (λ e. release_checked-Stays inv w key job left attempt (err e)))
    step-Moves (release_calling job left attempt) s =
        release_calling-Moves inv key w k job left attempt s
    step-Moves (release_told job left attempt r) s =
        reported inv key w k _ r (release_checked inv w job left attempt)
          (λ b. one_if (not b && str_eq job.req.room_type_id key)) s refl
          (release_checked-Stays inv w key job left attempt)
    step-Moves (finished req a) s = unmoved inv key (ledger s) _ 0 0 refl refl

    -- The units that all requests hold.
    abbrev pub Accounted : System State → System State → Type 0
    Accounted s t =
        Moves inv key (ledger s.server) (held key s.requests) (ledger t.server)
          (held key t.requests)

    among :
        (l l' : Ledger State) (front back : List Stage) (st st' : Stage)
        → Moves inv key l (holding key st) l' (holding key st')
        → Moves inv key l (held key (front ++ (st ∷ back))) l' (held key (front ++ (st' ∷ back)))
    among l l' front back st st' m h =
        let (sound, f) = m h in
        let a = held-append key front (st ∷ back) in
        let b = held-append key front (st' ∷ back) in
        (
          sound,
          λ v e.
              let (v', d, e', sum, g) = f v e in
              (
                v',
                d,
                e',
                widen v v' (reserved key l.reservations + holding key st)
                    (reserved key l'.reservations + holding key st' + d) _ _
                    (held key front + held key back) sum (omega arith) (omega arith),
                g,
              ),
        )

    Step-Accounted : (s t : System State) → Step inv w s t → Accounted s t
    Step-Accounted s t (arrives req) = unmoved inv key (ledger s.server) _ _ _ refl (omega arith)
    Step-Accounted s t (picks front back st e) =
        let (st', u) = step inv w st s.server in
        subst
          (λ rs.
            Moves inv key (ledger s.server) (held key rs) (ledger u)
              (held key (front ++ (st' ∷ back))))
          (sym e) (among (ledger s.server) (ledger u) front back st st' (step-Moves st s.server))
    Step-Accounted s t (works front back task e) =
        unmoved inv key (ledger s.server) _ _ _
          (run_task-IsQuiet inv w key task (record s.server { tasks = front ++ back })) refl

    then_Moves :
        (l l' l'' : Ledger State) (n n' n'' : ℕ)
        → Moves inv key l n l' n'
        → Moves inv key l' n' l'' n''
        → Moves inv key l n l'' n''
    then_Moves l l' l'' n n' n'' m m' h =
        let (sound, f) = m h in
        let (sound', f') = m' sound in
        (
          sound',
          λ v e.
              let (v', d, e', sum, g) = f v e in
              let (v'', d', e'', sum', g') = f' v' e' in
              (v'', d + d', e'', chain v v' v'' _ _ _ d d' sum sum', omega arith),
        )

    -- Requests that overlap in any order lose no unit of a room type and book none twice: at every
    -- moment its stock, its reservations and the units that requests on their way hold have the same
    -- sum, but for at most one unit for each compensation that was given up and counted. The inventory
    -- service is sound at the start and stays so, and no reply of a call that took effect is lost.
    pub Reach-Accounted : (s t : System State) → Reach inv w s t → Accounted s t
    Reach-Accounted s t here = unmoved inv key (ledger s.server) _ _ _ refl refl
    Reach-Accounted s t (next {t = u} r st) =
        then_Moves (ledger s.server) (ledger u.server) (ledger t.server) _ _ _
          (Reach-Accounted s u r) (Step-Accounted u t st)
