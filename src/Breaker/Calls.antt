-- ===== src/Breaker/Calls.antt =====
-- What a caller of `Execute` sees (mi-servicio/circuitbreaker.go), and how the state may change.
use proyecto_sd_reserva_de_h.Base.{
  ℕ, ◌+◌, ◌≤◌, ◌<◌, leb, List, if◌then◌else◌, ◌≡◌, ◌↔◌, ◌⊎◌, inl, inr, Bool, true, false, ◌∷◌,
  arith, Result, ok, Result-cases, err,
}
use proyecto_sd_reserva_de_h.Breaker.{
  CircuitState, closed, open_, half_open, CircuitBreaker, allow, record_success, record_failure,
  CallError, circuit_open, from_call, execute,
}
use proyecto_sd_reserva_de_h.Breaker.Invariant.{IsValid}

-- The three atomic steps on a breaker.
pub data Operation : Type 0 where
  allows reports_success reports_failure : Operation

abbrev pub operate : Operation → ℕ → CircuitBreaker → CircuitBreaker
operate allows now cb = (allow now cb).1
operate reports_success now cb = record_success now cb
operate reports_failure now cb = record_failure now cb

-- Whether a step is due to change the state: the wait of an open breaker is over, or one more failure
-- reaches the threshold.
abbrev pub is_due : Operation → ℕ → CircuitBreaker → Bool
is_due allows now cb = leb (cb.opened_at + cb.open_duration) now
is_due reports_success now cb = true
is_due reports_failure now cb = leb cb.failure_threshold (cb.consecutive_failures + 1)

-- The transition table.
abbrev pub next_state : Operation → Bool → CircuitState → CircuitState
next_state allows true open_ = half_open
next_state reports_success due state = closed
next_state reports_failure true closed = open_
next_state reports_failure due half_open = open_
next_state op due state = state

-- The transitions that are counted after a step, newest first: a state that stays is none.
abbrev pub with_transition : CircuitState → CircuitState → List CircuitState → List CircuitState
with_transition closed closed counted = counted
with_transition open_ open_ counted = counted
with_transition half_open half_open counted = counted
with_transition old new_ counted = new_ ∷ counted

abbrev pub is_opening : CircuitState → CircuitState → Bool
is_opening closed open_ = true
is_opening half_open open_ = true
is_opening _ _ = false

-- What a step leaves, by the table: the state, the transition that is counted, and the time of the
-- opening where it opened the breaker.
abbrev pub Moves : Operation → ℕ → CircuitBreaker → CircuitBreaker → Type 0
Moves op now cb cb' =
    let next = next_state op (is_due op now cb) cb.state in
    (cb'.state ≡ next)
    × (cb'.metrics.transitions ≡ with_transition cb.state next cb.metrics.transitions)
    × (cb'.opened_at ≡ (if is_opening cb.state next then now else cb.opened_at))

-- Each step of a valid breaker does what the table says of its operation, at its time: only a wait
-- that is over leads to a probe, a success closes from every state, and a failure opens from the
-- closed state at the threshold and always from the half-open one.
pub operate-Moves :
    (op : Operation) (now : ℕ) (cb : CircuitBreaker)
    → IsValid cb
    → Moves op now cb (operate op now cb)
unfolding allow record_success record_failure
operate-Moves allows now cb v = ground arith
operate-Moves reports_success now cb v = ground arith
operate-Moves reports_failure now cb v = ground arith

-- When a breaker refuses a call.
abbrev pub IsRefusing : ℕ → CircuitBreaker → Type 0
IsRefusing now cb =
    ((cb.state ≡ open_) × (now < cb.opened_at + cb.open_duration)) ⊎ (cb.state ≡ half_open)

abbrev pub is_refusal {ℓ} : {E : Type 0} {A : Type ℓ} → Result (CallError E) A → Bool
is_refusal (err (circuit_open e)) = true
is_refusal _ = false

module _ {E A S : Type 0} (fn : S → Result E A × S) (start finish : ℕ) (cb : CircuitBreaker)
    (s : S) where
  -- A valid breaker answers with its own error exactly while it is open and the wait is not over,
  -- or a probe is out.
  pub execute_refuses_iff :
      IsValid cb → (is_refusal (execute start finish cb fn s).0 ≡ true) ↔ IsRefusing start cb
  unfolding execute
  execute_refuses_iff v = ground arith

  -- Then the function is not run and the state of the breaker stays; only the short circuit is
  -- counted.
  pub execute_refused :
      IsValid cb
      → IsRefusing start cb
      → ((execute start finish cb fn s).2 ≡ s)
        × ((execute start finish cb fn s).1.state ≡ cb.state)
        × ((execute start finish cb fn s).1.opened_at ≡ cb.opened_at)
        × ((execute start finish cb fn s).1.metrics.short_circuits ≡ cb.metrics.short_circuits + 1)
  unfolding execute
  execute_refused v r = ground arith

  pub execute-IsValid : IsValid cb → IsValid (execute start finish cb fn s).1
  unfolding execute
  execute-IsValid v = ground arith

  -- A call that is let through runs the function once: the caller gets its result, and its state.
  pub execute_runs :
      IsValid cb
      → ¬ IsRefusing start cb
      → ((execute start finish cb fn s).2 ≡ (fn s).1)
        × ((execute start finish cb fn s).0
            ≡ elim (fn s).0 [ ok a ↦ ok a | err e ↦ err (from_call e) ])
  unfolding execute
  execute_runs v r = ground arith

  -- The probe decides: once the wait is over, a success closes the breaker and clears its count, and
  -- a failure opens it again from the time of the report.
  pub execute_probe :
      cb.state ≡ open_
      → cb.opened_at + cb.open_duration ≤ start
      → let after = (execute start finish cb fn s).1 in
        ((a : A) × ((fn s).0 ≡ ok a) × (after.state ≡ closed) × (after.consecutive_failures ≡ 0))
        ⊎ ((e : E) × ((fn s).0 ≡ err e) × (after.state ≡ open_) × (after.opened_at ≡ finish))
  unfolding execute
  execute_probe o late = elim (Result-cases (fn s).0) [
    | inl (a, e) ↦ inl (a, e, ground arith, ground arith)
    | inr (x, e) ↦ inr (x, e, ground arith, ground arith)
  ]
