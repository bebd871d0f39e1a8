-- ===== src/Breaker/Examples.antt =====
-- Tests of the breaker, and the theorems at concrete breakers: the reservation service makes its
-- three with 5 failures and 15 seconds (mi-servicio/main.go).
use proyecto_sd_reserva_de_h.Base.{
  ℕ, suc, ◌≤◌, ◌<◌, ◌≡◌, refl, ◌⊎◌, inl, Bool, true, false, List, [], ◌∷◌, String, arith, Result,
  ok, err,
}
use proyecto_sd_reserva_de_h.Breaker.{
  closed, open_, CircuitBreaker, new_circuit_breaker, allow, record_success, record_failure,
  execute, state_name,
}
use proyecto_sd_reserva_de_h.Breaker.Invariant.{IsValid, new_circuit_breaker-IsValid}
use proyecto_sd_reserva_de_h.Breaker.Interleaving.{
  Traffic, begin_traffic, begin_call, end_call, here, next, begins, fails, probes, single_probe,
}
use proyecto_sd_reserva_de_h.Breaker.Threshold.{
  report_all, report_all_counts, threshold_opens, late_success_reopens,
}
use proyecto_sd_reserva_de_h.Breaker.Calls.{
  Moves, operate, allows, operate-Moves, execute_refuses_iff, execute_refused, execute_runs,
  execute_probe, is_refusal, IsRefusing,
}

abbrev seconds : ℕ
seconds = 1000000000

user_breaker : CircuitBreaker
unfolding new_circuit_breaker
user_breaker = new_circuit_breaker "user" 5 15000000000

-- Four failures, with successes between them.
mixed : List (ℕ × Bool)
mixed = (1, false) ∷ (2, true) ∷ (3, false) ∷ (4, false) ∷ (5, true) ∷ (6, false) ∷ []

tripped : CircuitBreaker
unfolding user_breaker mixed report_all record_failure record_success
tripped = record_failure 7 (report_all mixed user_breaker)

tripped_state : state_name tripped.state ≡ "OPEN"
unfolding tripped state_name
tripped_state = refl

user_breaker-IsValid : IsValid user_breaker
unfolding user_breaker
user_breaker-IsValid = new_circuit_breaker-IsValid "user" 5 15000000000 (omega arith) (omega arith)

tripped-IsValid : IsValid tripped
unfolding tripped
tripped-IsValid = ground arith

-- One call begins and fails.
one_failure : Traffic
unfolding user_breaker begin_traffic begin_call end_call allow record_failure
one_failure = end_call record_failure 0 (begin_call (begin_traffic user_breaker))

single_probe_example :
    (probes one_failure.calls ≤ 1)
    × (one_failure.breaker.state ≡ closed
        → one_failure.breaker.consecutive_failures < one_failure.breaker.failure_threshold)
    × (one_failure.breaker.metrics.state_gauge ≡ one_failure.breaker.state)
unfolding one_failure
single_probe_example =
    single_probe 5000000000 5 15000000000 "user" (omega arith) (omega arith) (omega arith)
      (next (next here (begins _)) (fails _ 0))

report_all_counts_example :
    ((report_all mixed user_breaker).state ≡ closed)
    × ((report_all mixed user_breaker).consecutive_failures ≡ 4)
    × ((report_all mixed user_breaker).failure_threshold ≡ 5)
unfolding user_breaker mixed
report_all_counts_example = report_all_counts mixed user_breaker refl (omega arith) (omega arith)

threshold_opens_example : (tripped.state ≡ open_) × (tripped.opened_at ≡ 7)
unfolding tripped
threshold_opens_example = threshold_opens mixed 7 user_breaker refl (omega arith) (omega arith)

operate-Moves_example : Moves allows 15000000008 tripped (operate allows 15000000008 tripped)
operate-Moves_example = operate-Moves allows 15000000008 tripped tripped-IsValid

abbrev answer_seven : ℕ → Result String ℕ × ℕ
answer_seven n = (ok 7, suc n)

execute_refuses_iff_example :
    (is_refusal (execute 9 10 tripped answer_seven 0).0 ≡ true → IsRefusing 9 tripped)
    × (IsRefusing 9 tripped → is_refusal (execute 9 10 tripped answer_seven 0).0 ≡ true)
execute_refuses_iff_example = execute_refuses_iff answer_seven 9 10 tripped 0 tripped-IsValid

execute_refused_example :
    ((execute 9 10 tripped answer_seven 0).2 ≡ 0)
    × ((execute 9 10 tripped answer_seven 0).1.state ≡ open_)
    × ((execute 9 10 tripped answer_seven 0).1.opened_at ≡ 7)
    × ((execute 9 10 tripped answer_seven 0).1.metrics.short_circuits ≡ 1)
unfolding tripped
execute_refused_example =
    execute_refused answer_seven 9 10 tripped 0 tripped-IsValid (inl (refl, omega arith))

execute_runs_example :
    ((execute 15000000008 10 tripped answer_seven 0).2 ≡ 1)
    × ((execute 15000000008 10 tripped answer_seven 0).0 ≡ ok 7)
unfolding tripped
execute_runs_example =
    execute_runs answer_seven 15000000008 10 tripped 0 tripped-IsValid (λ r. ground arith)

abbrev probed : CircuitBreaker
probed = (execute 15000000008 15000000009 tripped answer_seven 0).1

execute_probe_example :
    ((a : ℕ) × ((answer_seven 0).0 ≡ ok a)
      × (probed.state ≡ closed)
      × (probed.consecutive_failures ≡ 0))
    ⊎ ((e : String) × ((answer_seven 0).0 ≡ err e)
        × (probed.state ≡ open_)
        × (probed.opened_at ≡ 15000000009))
unfolding tripped
execute_probe_example =
    execute_probe answer_seven 15000000008 15000000009 tripped 0 refl (omega arith)

late_success_reopens_example :
    let opened = record_failure 7 (report_all mixed (allow 0 user_breaker).1) in
    let told = record_success 8 opened in
    ((allow 0 user_breaker).0 ≡ true)
    × (opened.state ≡ open_)
    × (opened.opened_at ≡ 7)
    × (told.state ≡ closed)
    × ((allow 9 told).0 ≡ true)
unfolding user_breaker mixed
late_success_reopens_example =
    late_success_reopens mixed 0 7 8 9 user_breaker refl (omega arith) (omega arith)
