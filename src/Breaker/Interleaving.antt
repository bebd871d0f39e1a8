-- ===== src/Breaker/Interleaving.antt =====
-- Calls through one breaker (mi-servicio/circuitbreaker.go) that overlap: each asks `allow`, runs
-- unlocked, and later reports by `recordSuccess` or `recordFailure`, in any order. A call is given
-- up within `limit`, as the handlers' contexts with a timeout do.
use proyecto_sd_reserva_de_h.Base.{
  ℕ, zero, suc, ◌+◌, ◌≤◌, ◌<◌, ◌≡◌, refl, ◌⊎◌, inl, inr, Bool, true, List, [], ◌∷◌, String, arith,
  All, Bool-cases, if◌then◌else◌,
}
use proyecto_sd_reserva_de_h.Breaker.{
  closed, open_, CircuitBreaker, int_half, new_circuit_breaker, allow, record_success,
  record_failure, is_half_open,
}
use proyecto_sd_reserva_de_h.Breaker.Invariant.{
  IsValid, new_circuit_breaker-IsValid, allow-IsValid, record_success-IsValid,
  record_failure-IsValid,
}

-- A call between `allow` and its report. A probe is one that was let through in half-open.
pub record Call : Type 0 where
  pub started : ℕ
  pub probe : Bool

pub record Traffic : Type 0 where
  pub breaker : CircuitBreaker
  pub now : ℕ
  pub calls : List Call

unfoldable pub begin_traffic : CircuitBreaker → Traffic
begin_traffic cb = record { breaker = cb; now = 0; calls = [] }

unfoldable pub remove_call : ℕ → List Call → List Call
remove_call i [] = []
remove_call zero (c ∷ cs) = cs
remove_call (suc i) (c ∷ cs) = c ∷ remove_call i cs

-- The first half of `Execute`.
unfoldable pub begin_call : Traffic → Traffic
begin_call s =
    let (allowed, cb) = allow s.now s.breaker in
    let call : Call = record { started = s.now; probe = is_half_open cb.state } in
    if allowed then record s { breaker = cb; calls = call ∷ s.calls } else record s { breaker = cb }

-- The second half, for the call at place `i`.
unfoldable pub end_call : (ℕ → CircuitBreaker → CircuitBreaker) → ℕ → Traffic → Traffic
end_call report i s = record s { breaker = report s.now s.breaker; calls = remove_call i s.calls }

pub data Step (limit : ℕ) : Traffic → Traffic → Type 0 where
  wait :
      (s : Traffic) (d : ℕ)
      → All (λ c. s.now + d ≤ c.started + limit) s.calls
      → Step limit s (record s { now = s.now + d })
  begins : (s : Traffic) → Step limit s (begin_call s)
  succeeds : (s : Traffic) (i : ℕ) → Step limit s (end_call record_success i s)
  fails : (s : Traffic) (i : ℕ) → Step limit s (end_call record_failure i s)

pub data Reach (limit : ℕ) (s : Traffic) : Traffic → Type 0 where
  here : Reach limit s s
  next : {t u : Traffic} → Reach limit s t → Step limit t u → Reach limit s u

abbrev pub probes : List Call → ℕ
probes [] = 0
probes (c ∷ cs) = let rest = probes cs in if c.probe then suc rest else rest

abbrev pub IsTimely : ℕ → ℕ → List Call → Type 0
IsTimely limit now = All (λ c. (c.started ≤ now) × (now ≤ c.started + limit))

-- Every probe began no later than `t`.
abbrev pub ProbesBefore : ℕ → List Call → Type 0
ProbesBefore t = All (λ c. c.probe ≡ true → c.started ≤ t)

pub record Inv (limit : ℕ) (s : Traffic) : Type 0 where
  pub valid : IsValid s.breaker
  pub timely : IsTimely limit s.now s.calls
  pub settled : s.breaker.state ≡ open_ → ProbesBefore s.breaker.opened_at s.calls
  pub single : probes s.calls ≤ 1
  pub patient : limit < s.breaker.open_duration

remove-All : (P : Call → Type 0) (i : ℕ) (cs : List Call) → All P cs → All P (remove_call i cs)
unfolding remove_call
remove-All P i [] h = tt
remove-All P zero (c ∷ cs) h = h.1
remove-All P (suc i) (c ∷ cs) h = (h.0, remove-All P i cs h.1)

probes-remove : (i : ℕ) (cs : List Call) → probes (remove_call i cs) ≤ probes cs
unfolding remove_call
probes-remove i [] = omega arith
probes-remove zero (c ∷ cs) = ground arith
probes-remove (suc i) (c ∷ cs) = ground (arith, probes-remove i cs)

IsTimely-ProbesBefore :
    (limit now : ℕ) (cs : List Call) → IsTimely limit now cs → ProbesBefore now cs
IsTimely-ProbesBefore limit now [] h = tt
IsTimely-ProbesBefore limit now (c ∷ cs) h = ((λ _. h.0.0), IsTimely-ProbesBefore limit now cs h.1)

-- Once the breaker has been open for longer than any call lasts, no probe is left.
no_probe_left :
    (limit now t duration : ℕ) (cs : List Call)
    → limit < duration
    → t + duration ≤ now
    → IsTimely limit now cs
    → ProbesBefore t cs
    → probes cs ≡ 0
no_probe_left limit now t duration [] p late timely before = refl
no_probe_left limit now t duration (c ∷ cs) p late timely before = elim (Bool-cases c.probe) [
  | inl e ↦ absurd (omega (arith, before.0 e, timely.0))
  | inr e ↦ rw e (no_probe_left limit now t duration cs p late timely.1 before.1)
]

IsTimely-wait :
    (limit now d : ℕ) (cs : List Call)
    → IsTimely limit now cs
    → All (λ c. now + d ≤ c.started + limit) cs
    → IsTimely limit (now + d) cs
IsTimely-wait limit now d [] h k = tt
IsTimely-wait limit now d (c ∷ cs) h k = ((omega arith, k.0), IsTimely-wait limit now d cs h.1 k.1)

begin_call-Inv : (limit : ℕ) (s : Traffic) → Inv limit s → Inv limit (begin_call s)
unfolding begin_call allow
begin_call-Inv limit s v = ground (
  arith,
  allow-IsValid s.now s.breaker v.valid,
  no_probe_left limit s.now s.breaker.opened_at s.breaker.open_duration s.calls v.patient,
)

end_success-Inv :
    (limit i : ℕ) (s : Traffic) → Inv limit s → Inv limit (end_call record_success i s)
unfolding end_call record_success
end_success-Inv limit i s v = ground (
  arith,
  record_success-IsValid s.now s.breaker v.valid,
  remove-All (λ c. (c.started ≤ s.now) × (s.now ≤ c.started + limit)) i s.calls v.timely,
  probes-remove i s.calls,
)

-- A failure that leaves the breaker open found it open, or opened it now.
record_failure_opens :
    (now : ℕ) (cb : CircuitBreaker)
    → (record_failure now cb).state ≡ open_
    → ((cb.state ≡ open_) × ((record_failure now cb).opened_at ≡ cb.opened_at))
      ⊎ ((record_failure now cb).opened_at ≡ now)
unfolding record_failure
record_failure_opens now cb h = ground arith

record_failure_keeps :
    (now : ℕ) (cb : CircuitBreaker) → (record_failure now cb).open_duration ≡ cb.open_duration
unfolding record_failure
record_failure_keeps now cb = ground arith

failure_settled :
    (limit i : ℕ) (s : Traffic)
    → Inv limit s
    → (record_failure s.now s.breaker).state ≡ open_
    → ProbesBefore (record_failure s.now s.breaker).opened_at (remove_call i s.calls)
failure_settled limit i s v h = elim (record_failure_opens s.now s.breaker h) [
  | inl (was, e) ↦ rw e (remove-All _ i s.calls (v.settled was))
  | inr e ↦ rw e (remove-All _ i s.calls (IsTimely-ProbesBefore limit s.now s.calls v.timely))
]

end_failure-Inv :
    (limit i : ℕ) (s : Traffic) → Inv limit s → Inv limit (end_call record_failure i s)
unfolding end_call
end_failure-Inv limit i s v = record {
  valid = record_failure-IsValid s.now s.breaker v.valid;
  timely = remove-All _ i s.calls v.timely;
  settled = failure_settled limit i s v;
  single = omega (arith, probes-remove i s.calls, v.single);
  patient = rw (record_failure_keeps s.now s.breaker) v.patient;
}

pub Step-Inv : {limit : ℕ} {s t : Traffic} → Step limit s t → Inv limit s → Inv limit t
Step-Inv {limit} (wait s d h) v = record {
  valid = v.valid;
  timely = IsTimely-wait limit s.now d s.calls v.timely h;
  settled = v.settled;
  single = v.single;
  patient = v.patient;
}
Step-Inv {limit} (begins s) v = begin_call-Inv limit s v
Step-Inv {limit} (succeeds s i) v = end_success-Inv limit i s v
Step-Inv {limit} (fails s i) v = end_failure-Inv limit i s v

pub Reach-Inv : {limit : ℕ} {s t : Traffic} → Inv limit s → Reach limit s t → Inv limit t
Reach-Inv v here = v
Reach-Inv v (next r st) = Step-Inv st (Reach-Inv v r)

pub begin_traffic-Inv :
    (limit threshold duration : ℕ) (name : String)
    → 0 < threshold
    → threshold < int_half
    → limit < duration
    → Inv limit (begin_traffic (new_circuit_breaker name threshold duration))
unfolding begin_traffic new_circuit_breaker
begin_traffic-Inv limit threshold duration name p h l =
    ground (arith, new_circuit_breaker-IsValid name threshold duration p h)

-- Calls overlap in any order through a breaker that was made with a positive threshold, and each
-- ends within a limit below the open duration. Then at most one probe is ever in flight, a closed
-- breaker is below its threshold, and the exported gauge shows the state.
pub single_probe :
    (limit threshold duration : ℕ) (name : String) {s : Traffic}
    → 0 < threshold
    → threshold < int_half
    → limit < duration
    → Reach limit (begin_traffic (new_circuit_breaker name threshold duration)) s
    → (probes s.calls ≤ 1)
      × (s.breaker.state ≡ closed → s.breaker.consecutive_failures < s.breaker.failure_threshold)
      × (s.breaker.metrics.state_gauge ≡ s.breaker.state)
single_probe limit threshold duration name p h l r =
    let v = Reach-Inv (begin_traffic-Inv limit threshold duration name p h l) r in
    (v.single, v.valid.below_threshold, v.valid.gauge_state)
