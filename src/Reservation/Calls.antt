-- ===== src/Reservation/Calls.antt =====
-- The calls of the inventory service from mi-servicio/main.go, through the circuit breaker: what they
-- do to the stocks, by their results.
use mathlib.Core.Path.{subst, ◌∙◌, ap}
use proyecto_sd_reserva_de_h.Base.{
  ℕ, ◌≡◌, ◌≢◌, refl, sym, ◌⊎◌, inl, inr, ◌&&◌, String, arith, Bool, false, str_eq, Result, ok, err,
  Result-cases, Option, none, some, Outcome, done, refused, unacknowledged, Answer, reply, fail,
  panics, Code, Status, status_error, ◌+◌,
}
use proyecto_sd_reserva_de_h.Base.Int.{ℤ}
use proyecto_sd_reserva_de_h.Breaker.{CircuitBreaker, execute}
use proyecto_sd_reserva_de_h.Inventory.Tables.{UpdateStockRequest, UpdateStockResponse, is_granted}
use proyecto_sd_reserva_de_h.Reservation.Remote.{
  InventoryService, World, remote, answer_result, take_one, give_one, block_one, release_one,
}
use proyecto_sd_reserva_de_h.Reservation.Server.{ReservationServer, call_inventory}

-- No reply of a call that took effect is lost.
abbrev pub IsAcknowledged : World → Type 0
IsAcknowledged w = (n : ℕ) (e : String) → w.outcome n ≢ unacknowledged e

abbrev pub is_success : {E : Type 0} → Result E UpdateStockResponse → Bool
is_success (ok res) = res.status
is_success (err e) = false

pub take_one-false : (v : Option ℤ) → take_one false v ≡ v
take_one-false none = refl
take_one-false (some v) = refl

pub give_one-false : (v : Option ℤ) → give_one false v ≡ v
give_one-false none = refl
give_one-false (some v) = refl

pub remote-cases :
    {A I : Type 0} (outcome : Outcome)
    → ((e : String) → outcome ≢ unacknowledged e)
    → (handler : I → Answer A × I) (i : I)
    → ((e : Status) × ((remote outcome handler i).0 ≡ err e) × ((remote outcome handler i).1 ≡ i))
      ⊎ (((remote outcome handler i).0 ≡ answer_result (handler i).0)
          × ((remote outcome handler i).1 ≡ (handler i).1))
unfolding remote
remote-cases done h handler i = inr (refl, refl)
remote-cases (refused e) h handler i = inl (status_error Code.unavailable e, refl, refl)
remote-cases (unacknowledged e) h handler i = absurd (h e refl)

pub answer_result_lem :
    (a : Answer UpdateStockResponse) → is_success (answer_result a) ≡ is_granted a
answer_result_lem (reply r) = refl
answer_result_lem (fail st) = refl
answer_result_lem panics = refl

pub execute-cases :
    {E S : Type 0} (start finish : ℕ) (cb : CircuitBreaker)
    (fn : S → Result E UpdateStockResponse × S) (s : S)
    → ((is_success (execute start finish cb fn s).0 ≡ false)
        × ((execute start finish cb fn s).2 ≡ s))
      ⊎ ((is_success (execute start finish cb fn s).0 ≡ is_success (fn s).0)
          × ((execute start finish cb fn s).2 ≡ (fn s).1))
unfolding execute
execute-cases start finish cb fn s = elim (Result-cases (fn s).0) [
  | inl (a, e) ↦ ground arith
  | inr (x, e) ↦ ground arith
]

module _ (inv : InventoryService) where
  open inv use {
    State, handle, stock, IsSound, blocks_soundly, releases_soundly, blocks_one, releases_one,
  }

  -- A request reached the service or not: `b` says that it was granted, and `i'` is what it left.
  abbrev pub Handled : UpdateStockRequest → State → Bool → State → Type 0
  Handled req i b i' =
      ((b ≡ false) × (i' ≡ i)) ⊎ ((b ≡ is_granted (handle req i).0) × (i' ≡ (handle req i).1))

  Handled-moves :
      (req : UpdateStockRequest) (key : String) (i : State) (b : Bool) (i' : State)
      (move : Bool → Option ℤ → Option ℤ)
      → ((v : Option ℤ) → move false v ≡ v)
      → IsSound (handle req i).1
      → ((j : String)
          → stock j (handle req i).1
            ≡ move (is_granted (handle req i).0 && str_eq key j) (stock j i))
      → IsSound i
      → Handled req i b i'
      → IsSound i' × ((j : String) → stock j i' ≡ move (b && str_eq key j) (stock j i))
  Handled-moves req key i b i' move stays sound law h (inl (r, q)) = (
    subst IsSound (sym q) h,
    λ j. ap (stock j) q ∙ sym (ap (λ b'. move (b' && str_eq key j) (stock j i)) r ∙ stays _),
  )
  Handled-moves req key i b i' move stays sound law h (inr (r, q)) = (
    subst IsSound (sym q) sound,
    λ j. ap (stock j) q ∙ law j ∙ sym (ap (λ b'. move (b' && str_eq key j) (stock j i)) r),
  )

  pub Handled-blocks :
      (key : String) (i : State) (b : Bool) (i' : State)
      → IsSound i
      → Handled (block_one key) i b i'
      → IsSound i' × ((j : String) → stock j i' ≡ take_one (b && str_eq key j) (stock j i))
  Handled-blocks key i b i' h =
      Handled-moves (block_one key) key i b i' take_one (λ v. take_one-false v)
        (blocks_soundly key i h) (λ j. blocks_one key j i h) h

  pub Handled-releases :
      (key : String) (i : State) (b : Bool) (i' : State)
      → IsSound i
      → Handled (release_one key) i b i'
      → IsSound i' × ((j : String) → stock j i' ≡ give_one (b && str_eq key j) (stock j i))
  Handled-releases key i b i' h =
      Handled-moves (release_one key) key i b i' give_one (λ v. give_one-false v)
        (releases_soundly key i h) (λ j. releases_one key j i h) h

  -- A call by its result: the service was not reached, or it handled the request.
  pub call_inventory-cases :
      (w : World) (req : UpdateStockRequest) (s : ReservationServer State)
      → IsAcknowledged w
      → let (r, s') = call_inventory inv w req s in
        Handled req s.inventory (is_success r) s'.inventory
  unfolding call_inventory
  call_inventory-cases w req s k =
      let cb = s.inventory_breaker in
      let fn = remote (w.outcome (s.tick + 1)) (handle req) in
      elim (execute-cases (w.clock s.tick) (w.clock (s.tick + 2)) cb fn s.inventory) [
        | inl p ↦ inl p
        | inr (r, i) ↦
            elim (remote-cases (w.outcome (s.tick + 1)) (k (s.tick + 1)) (handle req) s.inventory) [
              | inl (e, r', i') ↦ inl (r ∙ ap is_success r', i ∙ i')
              | inr (r', i') ↦
                  inr (r ∙ ap is_success r' ∙ answer_result_lem (handle req s.inventory).0, i ∙ i')
            ]
      ]

  -- Afterwards the service is sound, and the call took one unit, or gave one back, if and only if
  -- the result says so.
  pub call_inventory-blocks :
      (w : World) (key : String) (s : ReservationServer State)
      → IsAcknowledged w
      → IsSound s.inventory
      → let (r, s') = call_inventory inv w (block_one key) s in
        IsSound s'.inventory
        × ((j : String)
            → stock j s'.inventory ≡ take_one (is_success r && str_eq key j) (stock j s.inventory))
  call_inventory-blocks w key s k h =
      Handled-blocks key s.inventory _ _ h (call_inventory-cases w (block_one key) s k)

  pub call_inventory-releases :
      (w : World) (key : String) (s : ReservationServer State)
      → IsAcknowledged w
      → IsSound s.inventory
      → let (r, s') = call_inventory inv w (release_one key) s in
        IsSound s'.inventory
        × ((j : String)
            → stock j s'.inventory ≡ give_one (is_success r && str_eq key j) (stock j s.inventory))
  call_inventory-releases w key s k h =
      Handled-releases key s.inventory _ _ h (call_inventory-cases w (release_one key) s k)
