-- ===== src/Reservation/Concurrent/Ending.antt =====
-- How often requests to mi-servicio/main.go that overlap can be taken further before they have ended.
use mathlib.Core.Path.{◌∙◌, ap}
use proyecto_sd_reserva_de_h.Base.{ℕ, ◌+◌, ◌*◌, ◌-◌, ◌≤◌, ◌≡◌, arith, List, [], ◌∷◌, ◌++◌}
use proyecto_sd_reserva_de_h.Reservation.Remote.{InventoryService, World}
use proyecto_sd_reserva_de_h.Reservation.Server.{ReservationServer}
use proyecto_sd_reserva_de_h.Reservation.Concurrent.{
  Stage, arrived, starting, user_asking, user_calling, user_told, lock_asking, lock_calling,
  lock_told, saving, releasing, release_calling, release_told, finished, step, System, arrives,
  picks, works, Reach, here, next,
}
use proyecto_sd_reserva_de_h.Reservation.Concurrent.Leading.{to_go, step-Leads}

-- 1 for a request that has not ended.
abbrev pub unfinished : Stage → ℕ
unfinished (finished req a) = 0
unfinished _ = 1

abbrev pub unfinished_requests : List Stage → ℕ
unfinished_requests [] = 0
unfinished_requests (st ∷ sts) = unfinished st + unfinished_requests sts

module _ (inv : InventoryService) (w : World) where
  open inv use {State}

  -- The arrivals of a run, and the times that it takes a request further that has not ended.
  abbrev pub arrivals : {s t : System State} → Reach inv w s t → ℕ
  arrivals here = 0
  arrivals (next r (arrives req)) = arrivals r + 1
  arrivals (next r (picks front back st e)) = arrivals r
  arrivals (next r (works front back task e)) = arrivals r

  abbrev pub stages_taken : {s t : System State} → Reach inv w s t → ℕ
  stages_taken here = 0
  stages_taken (next r (arrives req)) = stages_taken r
  stages_taken (next r (picks front back st e)) = stages_taken r + unfinished st
  stages_taken (next r (works front back task e)) = stages_taken r

  abbrev all_to_go : List Stage → ℕ
  all_to_go [] = 0
  all_to_go (st ∷ sts) = to_go inv w st + all_to_go sts

  all_to_go-append : (xs ys : List Stage) → all_to_go (xs ++ ys) ≡ all_to_go xs + all_to_go ys
  all_to_go-append [] ys = omega arith
  all_to_go-append (x ∷ xs) ys = let ih = all_to_go-append xs ys in omega arith

  unfinished_lem : (st : Stage) → (unfinished st ≤ to_go inv w st) × (unfinished st ≤ 1)
  unfinished_lem (arrived req) = omega arith
  unfinished_lem (starting req) = omega arith
  unfinished_lem (user_asking job) = omega arith
  unfinished_lem (user_calling job) = omega arith
  unfinished_lem (user_told job r) = omega arith
  unfinished_lem (lock_asking job email) = omega arith
  unfinished_lem (lock_calling job email) = omega arith
  unfinished_lem (lock_told job email r) = omega arith
  unfinished_lem (saving job email) = omega arith
  unfinished_lem (releasing job left attempt) = omega arith
  unfinished_lem (release_calling job left attempt) = omega arith
  unfinished_lem (release_told job left attempt r) = omega arith
  unfinished_lem (finished req a) = omega arith

  step-to_go :
      (st : Stage) (s : ReservationServer State)
      → to_go inv w (step inv w st s).0 + unfinished st ≤ to_go inv w st
  step-to_go st s =
      let (_, b, _) = step-Leads inv w st (to_go inv w st - 1) (omega arith) s in
      let (h, h') = unfinished_lem st in omega arith

  unfinished_requests-all_to_go : (sts : List Stage) → unfinished_requests sts ≤ all_to_go sts
  unfinished_requests-all_to_go [] = omega arith
  unfinished_requests-all_to_go (st ∷ sts) =
      let (h, _) = unfinished_lem st in let ih = unfinished_requests-all_to_go sts in omega arith

  Reach-all_to_go :
      (s t : System State) (r : Reach inv w s t)
      → stages_taken r + all_to_go t.requests ≤ all_to_go s.requests + 20 * arrivals r
  Reach-all_to_go s t here = omega arith
  Reach-all_to_go s t (next {t = u} r (arrives req)) = let ih = Reach-all_to_go s u r in omega arith
  Reach-all_to_go s t (next {t = u} r (works front back task e)) = Reach-all_to_go s u r
  Reach-all_to_go s t (next {t = u} r (picks front back st e)) =
      let ih = Reach-all_to_go s u r in
      let h = step-to_go st u.server in
      let st' = (step inv w st u.server).0 in
      let before = ap all_to_go e ∙ all_to_go-append front (st ∷ back) in
      let after = all_to_go-append front (st' ∷ back) in omega arith

  -- However requests overlap, from a time with none: the number of times that a request which has
  -- not ended is taken a stage further, with the number of requests that have still not ended, is at
  -- most twenty for each request that arrived.
  pub overlapping_requests_end :
      (s t : System State) (r : Reach inv w s t)
      → s.requests ≡ []
      → stages_taken r + unfinished_requests t.requests ≤ 20 * arrivals r
  overlapping_requests_end s t r e =
      let h = Reach-all_to_go s t r in
      let h' = unfinished_requests-all_to_go t.requests in
      let none_yet = ap all_to_go e in omega arith
