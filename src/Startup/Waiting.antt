-- ===== src/Startup/Waiting.antt =====
-- The wait for the database of mi-servicio/main.go and inventario-service/main.go.
use mathlib.Core.Path.{◌∙◌, ap}
use proyecto_sd_reserva_de_h.Base.{
  ℕ, zero, suc, ◌+◌, ◌≤◌, ◌<◌, ◌≡◌, refl, ◌⊎◌, inl, inr, String, arith, Option, none, some,
  Option-cases,
}
use proyecto_sd_reserva_de_h.Startup.{ping_until, wait_for_database}

-- What the loop finds among the pings from `i` to before `end`.
abbrev Finds : (ℕ → Option String) → ℕ → ℕ → Option ℕ → Type 0
Finds ping i end found =
    ((k : ℕ) × (found ≡ some k)
      × (i ≤ k)
      × (k < end)
      × (ping k ≡ none)
      × ((m : ℕ) → i ≤ m → m < k → (e : String) × (ping m ≡ some e)))
    ⊎ ((found ≡ none) × ((m : ℕ) → i ≤ m → m < end → (e : String) × (ping m ≡ some e)))

from_next : (i m : ℕ) → i ≤ m → (m ≡ i) ⊎ (i + 1 ≤ m)
from_next i m h = ground arith

-- A failing ping in front of failing pings.
fails_from :
    (ping : ℕ → Option String) (i end : ℕ) (e : String)
    → ping i ≡ some e
    → ((m : ℕ) → i + 1 ≤ m → m < end → (x : String) × (ping m ≡ some x))
    → (m : ℕ) → i ≤ m
    → m < end
    → (x : String) × (ping m ≡ some x)
fails_from ping i end e p f m a b = elim (from_next i m a) [
  | inl q ↦ (e, ap ping q ∙ p)
  | inr l ↦ f m l b
]

ping_until-Finds :
    (ping : ℕ → Option String) (left i : ℕ) → Finds ping i (i + left) (ping_until ping left i)
unfolding ping_until
ping_until-Finds ping zero i = inr (refl, λ m a b. absurd (omega arith))
ping_until-Finds ping (suc left) i = elim (Option-cases (ping i)) [
  | inl p ↦
      rw (p, ping_until) (inl (i, refl, omega arith, omega arith, p, λ m a b. absurd (omega arith)))
  | inr (e, p) ↦
      rw (p, ping_until)
        (elim (ping_until-Finds ping left (i + 1)) [
          | inl (k, q, a, b, d, f) ↦
              inl (k, q, omega arith, omega arith, d, fails_from ping i k e p f)
          | inr (q, f) ↦
              inr (q, fails_from ping i (i + suc left) e p (λ m a b. f m a (omega arith)))
        ])
]

-- The service starts at the first of the fifteen pings that is answered, and ends when all fifteen
-- fail.
pub wait_for_database_first :
    (ping : ℕ → Option String)
    → ((k : ℕ) × (wait_for_database ping ≡ some k)
        × (k < 15)
        × (ping k ≡ none)
        × ((m : ℕ) → m < k → (e : String) × (ping m ≡ some e)))
      ⊎ ((wait_for_database ping ≡ none) × ((m : ℕ) → m < 15 → (e : String) × (ping m ≡ some e)))
unfolding wait_for_database
wait_for_database_first ping = elim (ping_until-Finds ping 15 0) [
  | inl (k, e, a, b, p, f) ↦ inl (k, e, b, p, λ m l. f m (omega arith) l)
  | inr (e, f) ↦ inr (e, λ m l. f m (omega arith) l)
]
