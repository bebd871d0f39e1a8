-- ===== src/Reservation/Compensation/Bounds.antt =====
-- What `compensateInventory` of mi-servicio/main.go can give back when replies of its calls are lost.
use mathlib.Core.Path.{subst, ◌∙◌, ap}
use proyecto_sd_reserva_de_h.Base.{
  ℕ, zero, suc, ◌+◌, ◌≤◌, ◌≡◌, refl, sym, ◌⊎◌, inl, inr, ◌&&◌, String, arith, Bool, true, false,
  str_eq, Result, ok, err, Status, if◌then◌else◌, Option, none, some, Outcome, done, refused,
  unacknowledged, Answer,
}
use proyecto_sd_reserva_de_h.Base.Int.{ℤ, pos, ◌+ℤ◌, +ℤ_parts, eq_of_parts}
use proyecto_sd_reserva_de_h.Breaker.{CallError}
use proyecto_sd_reserva_de_h.Inventory.Tables.{UpdateStockResponse, is_granted}
use proyecto_sd_reserva_de_h.Reservation.Tables.{success, compensating}
use proyecto_sd_reserva_de_h.Reservation.Remote.{
  InventoryService, World, remote, give_one, release_one,
}
use proyecto_sd_reserva_de_h.Reservation.Server.{
  ReservationServer, Act, call_inventory, record_saga_transition,
}
use proyecto_sd_reserva_de_h.Reservation.Calls.{
  is_success, give_one-false, execute-cases, answer_result_lem,
}
use proyecto_sd_reserva_de_h.Reservation.Compensation.{
  give_up, released_at, after_attempt, release_attempts, compensate_inventory, max_attempts,
}

abbrev pub raise : ℕ → Option ℤ → Option ℤ
raise n none = none
raise n (some v) = some (v +ℤ pos n)

abbrev pub count_if : Bool → ℕ
count_if b = if b then 1 else 0

add_add : (v : ℤ) (n m k : ℕ) → k ≡ n + m → v +ℤ pos n +ℤ pos m ≡ v +ℤ pos k
add_add v n m k e =
    let p = +ℤ_parts v (pos n) in
    let q = +ℤ_parts (v +ℤ pos n) (pos m) in
    let r = +ℤ_parts v (pos k) in eq_of_parts _ _ (omega arith)

raise-0 : (o : Option ℤ) → o ≡ raise 0 o
raise-0 none = refl
raise-0 (some v) = let p = +ℤ_parts v (pos 0) in ap some (eq_of_parts _ _ (omega arith))

raise-give_one :
    (c mine : Bool) (n : ℕ) (o : Option ℤ)
    → raise (if mine then n else 0) (give_one (c && mine) o)
      ≡ raise (if mine then count_if c + n else 0) o
raise-give_one c mine n none = refl
raise-give_one true true n (some v) = ap some (add_add v 1 n _ refl)
raise-give_one true false n (some v) = refl
raise-give_one false true n (some v) = ap (λ k. some (v +ℤ pos k)) (omega arith)
raise-give_one false false n (some v) = refl

raise-one : (mine : Bool) (o : Option ℤ) → give_one mine o ≡ raise (if mine then 1 else 0) o
raise-one true none = refl
raise-one false none = refl
raise-one true (some v) = refl
raise-one false (some v) = raise-0 (some v)

remote_delivers :
    {I : Type 0} (outcome : Outcome) (handler : I → Answer UpdateStockResponse × I) (i : I)
    → ((is_success (remote outcome handler i).0 ≡ false) × ((remote outcome handler i).1 ≡ i))
      ⊎ ((is_success (remote outcome handler i).0 ≡ true → is_granted (handler i).0 ≡ true)
          × ((remote outcome handler i).1 ≡ (handler i).1))
unfolding remote
remote_delivers done handler i = inr ((λ e. sym (answer_result_lem (handler i).0) ∙ e), refl)
remote_delivers (refused e) handler i = inl (refl, refl)
remote_delivers (unacknowledged e) handler i = inr ((λ x. absurd (cc x)), refl)

module _ (inv : InventoryService) (w : World) (saga_id key : String) where
  open inv use {State, handle, stock, IsSound, releases_soundly, releases_one}

  -- `n` units of the room type are given back, and no other stock changes.
  abbrev pub Raises : ℕ → State → State → Type 0
  Raises n i i' =
      IsSound i' × ((j : String) → stock j i' ≡ raise (if str_eq key j then n else 0) (stock j i))

  still : (i : State) → IsSound i → Raises 0 i i
  still i h = (h, λ j. raise-0 _ ∙ ap (λ n. raise n (stock j i)) (ground arith))

  -- A call that succeeds gave back a unit; one that fails gave back a unit or none.
  abbrev Gives : Bool → State → State → Type 0
  Gives b i i' =
      (c : Bool) × (b ≡ true → c ≡ true)
      × IsSound i'
      × ((j : String) → stock j i' ≡ give_one (c && str_eq key j) (stock j i))

  untouched : (b : Bool) (i i' : State) → IsSound i → b ≡ false → i' ≡ i → Gives b i i'
  untouched b i i' h e q = (
    false,
    (λ e'. absurd (cc (e, e'))),
    subst IsSound (sym q) h,
    λ j. ap (stock j) q ∙ sym (give_one-false (stock j i)),
  )

  handled :
      (b : Bool) (i i' : State)
      → IsSound i
      → (b ≡ true → is_granted (handle (release_one key) i).0 ≡ true)
      → i' ≡ (handle (release_one key) i).1
      → Gives b i i'
  handled b i i' h granted q = (
    is_granted (handle (release_one key) i).0,
    granted,
    subst IsSound (sym q) (releases_soundly key i h),
    λ j. ap (stock j) q ∙ releases_one key j i h,
  )

  call-Gives :
      (s : ReservationServer State)
      → IsSound s.inventory
      → let (r, t) = call_inventory inv w (release_one key) s in
        Gives (is_success r) s.inventory t.inventory
  unfolding call_inventory
  call-Gives s h =
      let fn = remote (w.outcome (s.tick + 1)) (handle (release_one key)) in
      elim (execute-cases (w.clock s.tick) (w.clock (s.tick + 2)) s.inventory_breaker fn
        s.inventory) [
          | inl (r, q) ↦ untouched _ s.inventory _ h r q
          | inr (r, q) ↦
              elim (remote_delivers (w.outcome (s.tick + 1)) (handle (release_one key))
                s.inventory) [
                  | inl (r', q') ↦ untouched _ s.inventory _ h (r ∙ r') (q ∙ q')
                  | inr (g, q') ↦ handled _ s.inventory _ h (λ e. g (sym r ∙ e)) (q ∙ q')
                ]
        ]

  -- At most `most` units are given back, and at least one if `b`.
  abbrev pub GivesAtMost : ℕ → Bool → State → State → Type 0
  GivesAtMost most b i i' = (n : ℕ) × (n ≤ most) × (b ≡ true → 1 ≤ n) × Raises n i i'

  then_GivesAtMost :
      (most : ℕ) (b b' : Bool) (i i' i'' : State)
      → Gives b i i'
      → GivesAtMost most b' i' i''
      → GivesAtMost (suc most) b' i i''
  then_GivesAtMost most b b' i i' i'' (c, e, h, st) (n, bound, least, (h', st')) = (
    count_if c + n,
    ground arith,
    (λ t. omega (arith, least t)),
    (
      h',
      λ j.
          st' j
          ∙ ap (raise (if str_eq key j then n else 0)) (st j)
          ∙ raise-give_one c (str_eq key j) n (stock j i),
    ),
  )

  once-GivesAtMost : (most : ℕ) (i i' : State) → Gives true i i' → GivesAtMost (suc most) true i i'
  once-GivesAtMost most i i' (c, e, h, st) = (
    1,
    omega arith,
    (λ t. omega arith),
    (
      h,
      λ j.
          st j
          ∙ ap (λ b. give_one (b && str_eq key j) (stock j i)) (e refl)
          ∙ raise-one (str_eq key j) (stock j i),
    ),
  )

  by_status-GivesAtMost :
      (most attempt : ℕ) (retry : Act State Bool) (b : Bool) (i : State)
      (t : ReservationServer State)
      → Gives b i t.inventory
      → (IsSound t.inventory → let (b', u) = retry t in GivesAtMost most b' t.inventory u.inventory)
      → let (b', u) = (if b then released_at inv w saga_id key attempt else retry) t in
        GivesAtMost (suc most) b' i u.inventory
  unfolding released_at
  by_status-GivesAtMost most attempt retry true i t g k = once-GivesAtMost most i t.inventory g
  by_status-GivesAtMost most attempt retry false i t g k =
      then_GivesAtMost most false (retry t).0 i t.inventory _ g (k g.2)

  after_attempt-GivesAtMost :
      (most attempt : ℕ) (retry : Act State Bool)
      (r : Result (CallError Status) UpdateStockResponse) (i : State) (t : ReservationServer State)
      → Gives (is_success r) i t.inventory
      → (IsSound t.inventory → let (b, u) = retry t in GivesAtMost most b t.inventory u.inventory)
      → let (b, u) = after_attempt inv w saga_id key attempt retry r t in
        GivesAtMost (suc most) b i u.inventory
  unfolding after_attempt
  after_attempt-GivesAtMost most attempt retry (err e) i t g k =
      then_GivesAtMost most false (retry t).0 i t.inventory _ g (k g.2)
  after_attempt-GivesAtMost most attempt retry (ok res) i t g k =
      by_status-GivesAtMost most attempt retry res.status i t g k

  release_attempts-GivesAtMost :
      (left attempt : ℕ) (s : ReservationServer State)
      → IsSound s.inventory
      → let (b, t) = release_attempts inv w saga_id key left attempt s in
        GivesAtMost left b s.inventory t.inventory
  unfolding release_attempts give_up
  release_attempts-GivesAtMost zero attempt s h =
      (0, omega arith, (λ e. absurd (cc e)), still s.inventory h)
  release_attempts-GivesAtMost (suc left) attempt s h =
      let (r, t) = call_inventory inv w (release_one key) s in
      after_attempt-GivesAtMost left attempt (release_attempts inv w saga_id key left (attempt + 1))
        r s.inventory t (call-Gives s h) (release_attempts-GivesAtMost left (attempt + 1) t)

  -- Whatever replies are lost, `compensateInventory` gives back at most three units of its room type,
  -- and at least one when it returns true; no other stock changes, and the service stays sound.
  pub compensate_inventory_bounds :
      (s : ReservationServer State)
      → IsSound s.inventory
      → let (b, t) = compensate_inventory inv w saga_id key s in
        GivesAtMost max_attempts b s.inventory t.inventory
  unfolding compensate_inventory
  compensate_inventory_bounds s h =
      let t =
        (record_saga_transition w saga_id compensating success
          "Liberando stock por fallo posterior al bloqueo" s).1 in
      release_attempts-GivesAtMost max_attempts 1 t h
