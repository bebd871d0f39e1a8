-- ===== src/Breaker.antt =====
-- mi-servicio/circuitbreaker.go. A method that locks `cb.mu` is one atomic step on the record, and
-- takes the time that it reads as an argument. The prometheus series of the breaker's own
-- dependency are a field; log lines are left out.
pub mod Invariant
pub mod Interleaving
pub mod Threshold
pub mod Calls
mod Examples
use proyecto_sd_reserva_de_h.Base.{
  ℕ, ◌+◌, ◌%◌, ◌^◌, Bool, true, false, not, ◌&&◌, List, [], ◌∷◌, String, ltb, leb, concat,
  if◌then◌else◌, Result, ok, err,
}

pub data CircuitState : Type 0 where
  closed open_ half_open : CircuitState

-- `CircuitState.String`; its `default` is for an integer that names no state.
unfoldable pub state_name : CircuitState → String
state_name closed = "CLOSED"
state_name open_ = "OPEN"
state_name half_open = "HALF_OPEN"

pub record BreakerMetrics : Type 0 where
  pub state_gauge : CircuitState
  pub transitions : List CircuitState  -- newest first
  pub short_circuits : ℕ

-- `ErrCircuitOpen`.
pub record ErrCircuitOpen : Type 0 where
  pub dependency : String

unfoldable pub circuit_open_message : ErrCircuitOpen → String
circuit_open_message e = concat "circuit breaker abierto para " e.dependency

pub record CircuitBreaker : Type 0 where
  pub name : String
  pub failure_threshold : ℕ  -- int, at least 0
  pub open_duration : ℕ  -- nanoseconds
  pub state : CircuitState
  pub consecutive_failures : ℕ  -- int, by its 64 bits
  pub opened_at : ℕ  -- nanoseconds
  pub half_open_in_flight : Bool
  pub metrics : BreakerMetrics

abbrev pub int_mod : ℕ
int_mod = 18446744073709551616

abbrev pub int_half : ℕ
int_half = 9223372036854775808

-- `b ≤ a` of two ints that are given by their 64 bits: the sign bit counts the other way.
abbrev pub int_geb : ℕ → ℕ → Bool
int_geb a b = leb ((b + int_half) % int_mod) ((a + int_half) % int_mod)

unfoldable pub new_circuit_breaker : String → ℕ → ℕ → CircuitBreaker
new_circuit_breaker name threshold duration = record {
  name = name;
  failure_threshold = threshold;
  open_duration = duration;
  state = closed;
  consecutive_failures = 0;
  opened_at = 0;
  half_open_in_flight = false;
  metrics = record { state_gauge = closed; transitions = []; short_circuits = 0 };
}

-- `transitionLocked`: the two updates that depend on the new state, then the metrics.
enter : ℕ → CircuitState → CircuitBreaker → CircuitBreaker
enter now open_ cb = record cb { state = open_; opened_at = now }
enter now closed cb = record cb { state = closed; consecutive_failures = 0 }
enter now half_open cb = record cb { state = half_open }

observe : CircuitState → BreakerMetrics → BreakerMetrics
observe to m = record m { state_gauge = to; transitions = to ∷ m.transitions }

unfoldable pub transition_locked : ℕ → CircuitState → CircuitBreaker → CircuitBreaker
unfolding enter observe
transition_locked now to cb = let c = enter now to cb in record c { metrics = observe to c.metrics }

allow_in : CircuitState → ℕ → CircuitBreaker → Bool × CircuitBreaker
unfolding transition_locked
allow_in closed now cb = (true, cb)
allow_in open_ now cb =
    let probing = transition_locked now half_open cb in
    if ltb now (cb.opened_at + cb.open_duration)
    then (false, cb)
    else (true, record probing { half_open_in_flight = true })
allow_in half_open now cb =
    if cb.half_open_in_flight then (false, cb) else (true, record cb { half_open_in_flight = true })

-- `allow`; `time.Since(openedAt) < openDuration` is the test with the subtraction moved over.
unfoldable pub allow : ℕ → CircuitBreaker → Bool × CircuitBreaker
unfolding allow_in
allow now cb = allow_in cb.state now cb

abbrev pub is_closed : CircuitState → Bool
is_closed closed = true
is_closed _ = false

abbrev pub is_half_open : CircuitState → Bool
is_half_open half_open = true
is_half_open _ = false

unfoldable pub record_success : ℕ → CircuitBreaker → CircuitBreaker
unfolding transition_locked
record_success now cb =
    let idle = record cb { half_open_in_flight = false } in
    if not (is_closed cb.state) then transition_locked now closed idle else idle

count_failure : ℕ → CircuitBreaker → CircuitBreaker
unfolding transition_locked
count_failure now cb =
    let c = record cb { consecutive_failures = (cb.consecutive_failures + 1) % int_mod } in
    if is_closed c.state && int_geb c.consecutive_failures c.failure_threshold
    then transition_locked now open_ c
    else c

unfoldable pub record_failure : ℕ → CircuitBreaker → CircuitBreaker
unfolding transition_locked count_failure
record_failure now cb =
    let idle = record cb { half_open_in_flight = false } in
    if is_half_open idle.state then transition_locked now open_ idle else count_failure now idle

-- The Go errors that reach a caller of `Execute`.
pub data CallError (E : Type 0) : Type 0 where
  circuit_open : ErrCircuitOpen → CallError E
  from_call : E → CallError E

unfoldable pub short_circuit : CircuitBreaker → CircuitBreaker
short_circuit cb =
    let m = cb.metrics in record cb { metrics = record m { short_circuits = m.short_circuits + 1 } }

module _ {E A S : Type 0} where
  unfoldable pub conclude :
      ℕ → CircuitBreaker → Result E A × S → Result (CallError E) A × CircuitBreaker × S
  unfolding record_failure record_success
  conclude finish cb (err e, s) = (err (from_call e), record_failure finish cb, s)
  conclude finish cb (ok a, s) = (ok a, record_success finish cb, s)

  -- `Execute` with no other call in between: `fn` runs on the caller's state, and the breaker is
  -- asked at `start` and told at `finish`.
  unfoldable pub execute :
      ℕ
      → ℕ
      → CircuitBreaker
      → (S → Result E A × S)
      → S
      → Result (CallError E) A × CircuitBreaker × S
  unfolding allow conclude short_circuit
  execute start finish cb fn s =
      let (allowed, asked) = allow start cb in
      if allowed
      then conclude finish asked (fn s)
      else (err (circuit_open (record { dependency = cb.name })), short_circuit asked, s)
