-- ===== src/Breaker/Threshold.antt =====
-- How failures are counted while the breaker of mi-servicio/circuitbreaker.go is closed, and what the
-- report of a call does that began before they opened it.
use proyecto_sd_reserva_de_h.Base.{
  ℕ, suc, ◌+◌, ◌<◌, ◌≡◌, refl, Bool, true, false, List, [], ◌∷◌, arith, if◌then◌else◌,
}
use proyecto_sd_reserva_de_h.Breaker.{
  closed, open_, CircuitBreaker, int_half, allow, record_success, record_failure,
}

-- Reports of calls that the closed breaker let through, each with the time of its end; `true` is a
-- success.
unfoldable pub report_all : List (ℕ × Bool) → CircuitBreaker → CircuitBreaker
report_all [] cb = cb
report_all ((now, success) ∷ rest) cb =
    report_all rest (if success then record_success now cb else record_failure now cb)

abbrev pub failures : List (ℕ × Bool) → ℕ
failures [] = 0
failures ((now, success) ∷ rest) = let n = failures rest in if success then n else suc n

success_closed :
    (now : ℕ) (cb : CircuitBreaker)
    → cb.state ≡ closed
    → ((record_success now cb).state ≡ closed)
      × ((record_success now cb).consecutive_failures ≡ cb.consecutive_failures)
      × ((record_success now cb).failure_threshold ≡ cb.failure_threshold)
unfolding record_success
success_closed now cb c = ground arith

failure_closed :
    (now : ℕ) (cb : CircuitBreaker)
    → cb.state ≡ closed
    → cb.failure_threshold < int_half
    → suc cb.consecutive_failures < cb.failure_threshold
    → ((record_failure now cb).state ≡ closed)
      × ((record_failure now cb).consecutive_failures ≡ suc cb.consecutive_failures)
      × ((record_failure now cb).failure_threshold ≡ cb.failure_threshold)
unfolding record_failure
failure_closed now cb c h k = ground arith

failure_opens :
    (now : ℕ) (cb : CircuitBreaker)
    → cb.state ≡ closed
    → cb.failure_threshold < int_half
    → suc cb.consecutive_failures ≡ cb.failure_threshold
    → ((record_failure now cb).state ≡ open_) × ((record_failure now cb).opened_at ≡ now)
unfolding record_failure
failure_opens now cb c h k = ground arith

allow_closed :
    (now : ℕ) (cb : CircuitBreaker)
    → cb.state ≡ closed
    → ((allow now cb).0 ≡ true) × ((allow now cb).1 ≡ cb)
unfolding allow
allow_closed now cb c = ground arith

success_closes : (now : ℕ) (cb : CircuitBreaker) → (record_success now cb).state ≡ closed
unfolding record_success
success_closes now cb = ground arith

-- A closed breaker stays closed as long as the failures, those before counted in, stay below the
-- threshold, and its count is their number: no success between them takes anything off.
pub report_all_counts :
    (reports : List (ℕ × Bool)) (cb : CircuitBreaker)
    → cb.state ≡ closed
    → cb.failure_threshold < int_half
    → cb.consecutive_failures + failures reports < cb.failure_threshold
    → ((report_all reports cb).state ≡ closed)
      × ((report_all reports cb).consecutive_failures ≡ cb.consecutive_failures + failures reports)
      × ((report_all reports cb).failure_threshold ≡ cb.failure_threshold)
unfolding report_all
report_all_counts [] cb c h k = (c, omega arith, refl)
report_all_counts ((now, true) ∷ rest) cb c h k =
    let (c', n, t) = success_closed now cb c in
    let (a, b, d) = report_all_counts rest (record_success now cb) c' (omega arith) (omega arith) in
    (a, omega arith, omega arith)
report_all_counts ((now, false) ∷ rest) cb c h k =
    let (c', n, t) = failure_closed now cb c h (omega arith) in
    let (a, b, d) = report_all_counts rest (record_failure now cb) c' (omega arith) (omega arith) in
    (a, omega arith, omega arith)

-- The failure that brings the number of failures since the breaker closed up to the threshold opens
-- it, at its own time, whatever successes stood between them.
pub threshold_opens :
    (reports : List (ℕ × Bool)) (now : ℕ) (cb : CircuitBreaker)
    → cb.state ≡ closed
    → cb.failure_threshold < int_half
    → suc (cb.consecutive_failures + failures reports) ≡ cb.failure_threshold
    → ((record_failure now (report_all reports cb)).state ≡ open_)
      × ((record_failure now (report_all reports cb)).opened_at ≡ now)
threshold_opens reports now cb c h k =
    let (c', n, t) = report_all_counts reports cb c h (omega arith) in
    failure_opens now (report_all reports cb) c' (omega arith) (omega arith)

-- A call that the closed breaker lets through, and that ends with a success after other calls have
-- brought its failures up to the threshold and opened it: its report closes the breaker at once, and
-- the next call is let through, however little of the open duration has passed, and without a probe.
pub late_success_reopens :
    (reports : List (ℕ × Bool)) (start failed finish later : ℕ) (cb : CircuitBreaker)
    → cb.state ≡ closed
    → cb.failure_threshold < int_half
    → suc (cb.consecutive_failures + failures reports) ≡ cb.failure_threshold
    → let (allowed, asked) = allow start cb in
      let opened = record_failure failed (report_all reports asked) in
      let told = record_success finish opened in
      (allowed ≡ true)
      × (opened.state ≡ open_)
      × (opened.opened_at ≡ failed)
      × (told.state ≡ closed)
      × ((allow later told).0 ≡ true)
late_success_reopens reports start failed finish later cb c h k =
    let (let_through, same) = allow_closed start cb c in
    let (o, t) = threshold_opens reports failed cb c h k in
    let opened = record_failure failed (report_all reports cb) in
    let closes = success_closes finish opened in
    rw same
      (let_through, o, t, closes, (allow_closed later (record_success finish opened) closes).0)
