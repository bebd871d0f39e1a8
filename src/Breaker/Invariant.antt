-- ===== src/Breaker/Invariant.antt =====
-- What holds of a breaker (mi-servicio/circuitbreaker.go) between two steps.
use proyecto_sd_reserva_de_h.Base.{ℕ, ◌<◌, ◌≡◌, true, String, arith}
use proyecto_sd_reserva_de_h.Breaker.{
  closed, half_open, CircuitBreaker, int_half, new_circuit_breaker, allow, record_success,
  record_failure,
}

pub record IsValid (cb : CircuitBreaker) : Type 0 where
  pub threshold_pos : 0 < cb.failure_threshold
  pub threshold_int : cb.failure_threshold < int_half
  pub below_threshold : cb.state ≡ closed → cb.consecutive_failures < cb.failure_threshold
  pub probe_in_flight : cb.state ≡ half_open → cb.half_open_in_flight ≡ true
  pub flight_half_open : cb.half_open_in_flight ≡ true → cb.state ≡ half_open
  pub gauge_state : cb.metrics.state_gauge ≡ cb.state

-- A new breaker with a positive threshold that fits an int is valid.
pub new_circuit_breaker-IsValid :
    (name : String) (threshold duration : ℕ)
    → 0 < threshold
    → threshold < int_half
    → IsValid (new_circuit_breaker name threshold duration)
unfolding new_circuit_breaker
new_circuit_breaker-IsValid name threshold duration p h = ground arith

pub allow-IsValid : (now : ℕ) (cb : CircuitBreaker) → IsValid cb → IsValid (allow now cb).1
unfolding allow
allow-IsValid now cb v = ground arith

pub record_success-IsValid :
    (now : ℕ) (cb : CircuitBreaker) → IsValid cb → IsValid (record_success now cb)
unfolding record_success
record_success-IsValid now cb v = ground arith

pub record_failure-IsValid :
    (now : ℕ) (cb : CircuitBreaker) → IsValid cb → IsValid (record_failure now cb)
unfolding record_failure
record_failure-IsValid now cb v = ground arith
