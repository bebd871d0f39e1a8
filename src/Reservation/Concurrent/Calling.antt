-- ===== src/Reservation/Concurrent/Calling.antt =====
-- The calls of mi-servicio/main.go through a circuit breaker, as the stages that a request goes through.
use mathlib.Core.Path.{◌∙◌, ap}
use proyecto_sd_reserva_de_h.Base.{
  ℕ, ◌+◌, ◌≡◌, refl, ◌⊎◌, inl, inr, String, arith, true, false, Option, none, some, Result, ok, err,
  Status, Bool-cases,
}
use proyecto_sd_reserva_de_h.Breaker.{
  CallError, CircuitBreaker, circuit_open, allow, execute, conclude, short_circuit,
}
use proyecto_sd_reserva_de_h.Inventory.Tables.{UpdateStockRequest, UpdateStockResponse}
use proyecto_sd_reserva_de_h.Reservation.Remote.{InventoryService, User, World, remote}
use proyecto_sd_reserva_de_h.Reservation.Server.{
  ReservationServer, Act, ◌>>=◌, call_inventory, call_user,
}
use proyecto_sd_reserva_de_h.Reservation.Concurrent.{
  Dependency, users, inventory, report_call, ask_breaker, get_user, update_stock_call,
}

-- `Execute`, by what the breaker says first.
execute_stages :
    {E A S : Type 0} (start finish : ℕ) (cb : CircuitBreaker) (fn : S → Result E A × S) (s : S)
    → let (allowed, asked) = allow start cb in
      ((allowed ≡ true) × (execute start finish cb fn s ≡ conclude finish asked (fn s)))
      ⊎ ((allowed ≡ false)
          × (execute start finish cb fn s
              ≡ (err (circuit_open (record { dependency = cb.name })), short_circuit asked, s)))
unfolding execute
execute_stages start finish cb fn s = elim (Bool-cases (allow start cb).0) [
  | inl e ↦ inl (e, rw e refl)
  | inr e ↦ inr (e, rw e refl)
]

module _ {I : Type 0} where
  abbrev with_inventory :
      ReservationServer I
      → Result (CallError Status) UpdateStockResponse × CircuitBreaker × I
      → Result (CallError Status) UpdateStockResponse × ReservationServer I
  with_inventory s (r, cb, i) =
      (r, record s { inventory_breaker = cb; inventory = i; tick = s.tick + 3 })

  abbrev with_user :
      ReservationServer I
      → Result (CallError Status) (Option User) × CircuitBreaker × Unit {0}
      → Result (CallError Status) (Option User) × ReservationServer I
  with_user s (r, cb, t) = (r, record s { user_breaker = cb; tick = s.tick + 3 })

module _ {I : Type 0} (w : World) where
  -- `call` is the middle of `whole`: the breaker lets it through and hears of its result, or refuses.
  abbrev pub IsStaged :
      {A : Type 0}
      → Dependency
      → Act I (Result (CallError Status) A)
      → Act I (Result Status A)
      → ReservationServer I
      → Type 0
  IsStaged d whole call s =
      let (refusal, t) = ask_breaker w d s in
      ((refusal ≡ none) × (whole s ≡ (call >>= report_call w d) t))
      ⊎ ((e : CallError Status) × (refusal ≡ some e) × (whole s ≡ (err e, t)))

  inventory_reports :
      (asked : CircuitBreaker) (p : Result Status UpdateStockResponse × I) (s : ReservationServer I)
      → let (r, cb, i) = conclude (w.clock (s.tick + 2)) asked p in
        with_inventory s (r, cb, i)
        ≡ report_call w inventory p.0
            (record s { inventory_breaker = asked; inventory = p.1; tick = s.tick + 1 + 1 })
  unfolding conclude report_call
  inventory_reports asked (ok a, i) s = ground arith
  inventory_reports asked (err e, i) s = ground arith

  user_reports :
      (asked : CircuitBreaker) (r : Result Status (Option User)) (s : ReservationServer I)
      → let (r', cb, t) = conclude {S = Unit {0}} (w.clock (s.tick + 2)) asked (r, tt) in
        (r', record s { user_breaker = cb; tick = s.tick + 3 })
        ≡ report_call w users r (record s { user_breaker = asked; tick = s.tick + 1 + 1 })
  unfolding conclude report_call
  user_reports asked (ok a) s = ground arith
  user_reports asked (err e) s = ground arith

module _ (inv : InventoryService) (w : World) where
  open inv use {State, handle}

  pub call_inventory-IsStaged :
      (req : UpdateStockRequest) (s : ReservationServer State)
      → IsStaged w inventory (call_inventory inv w req) (update_stock_call inv w req) s
  unfolding call_inventory ask_breaker update_stock_call
  call_inventory-IsStaged req s =
      let cb = s.inventory_breaker in
      let fn = remote (w.outcome (s.tick + 1)) (handle req) in
      elim (execute_stages (w.clock s.tick) (w.clock (s.tick + 2)) cb fn s.inventory) [
        | inl (e, p) ↦ inl (
          rw e refl,
          ap (with_inventory s) p
              ∙ rw e (inventory_reports w (allow (w.clock s.tick) cb).1 (fn s.inventory) s),
        )
        | inr (e, p) ↦ inr (
          circuit_open (record { dependency = cb.name }),
          rw e refl,
          ap (with_inventory s) p ∙ rw e refl,
        )
      ]

  pub call_user-IsStaged :
      (id : String) (s : ReservationServer State)
      → IsStaged w users (call_user inv w id) (get_user w id) s
  unfolding call_user ask_breaker get_user
  call_user-IsStaged id s =
      let cb = s.user_breaker in
      let fn : Unit {0} → Result Status (Option User) × Unit {0} =
        λ u. (w.user_reply (s.tick + 1) id, u) in
      elim (execute_stages (w.clock s.tick) (w.clock (s.tick + 2)) cb fn tt) [
        | inl (e, p) ↦ inl (
          rw e refl,
          ap (with_user s) p ∙ rw e (user_reports w (allow (w.clock s.tick) cb).1 (fn tt).0 s),
        )
        | inr (e, p) ↦ inr (
          circuit_open (record { dependency = cb.name }),
          rw e refl,
          ap (with_user s) p ∙ rw e refl,
        )
      ]
