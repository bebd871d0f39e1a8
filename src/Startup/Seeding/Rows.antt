-- ===== src/Startup/Seeding/Rows.antt =====
-- A table of room types of inventario-service/main.go with rows added at its end.
use mathlib.Core.Path.{subst, ◌∙◌, ap}
use proyecto_sd_reserva_de_h.Base.{
  ◌≡◌, refl, sym, inl, inr, arith, String, Bool, false, List, [], ◌∷◌, ◌++◌, Option, none, some,
  Option-cases, Bool-cases, str_eq, str_eq_iff, find_row,
}
use proyecto_sd_reserva_de_h.Base.Int.{ℤ, pos, ◌≤ℤ◌}
use proyecto_sd_reserva_de_h.Inventory.Tables.{RoomType, has_id}
use proyecto_sd_reserva_de_h.Inventory.Stock.{HasUniqueIds, stock_of}
use proyecto_sd_reserva_de_h.Inventory.Contract.{view}
use proyecto_sd_reserva_de_h.Inventory.History.{IsStocked}

found_before :
    {A : Type 0} (p : A → Bool) (rows rest : List A) (r : A)
    → find_row p rows ≡ some r
    → find_row p (rows ++ rest) ≡ some r
unfolding find_row
found_before p [] rest r e = absurd (cc e)
found_before p (x ∷ rows) rest r e = elim (Bool-cases (p x)) [
  | inl b ↦ rw b (rw b at e)
  | inr b ↦ rw b (found_before p rows rest r (rw b at e))
]

found_after :
    {A : Type 0} (p : A → Bool) (rows rest : List A)
    → find_row p rows ≡ none
    → find_row p (rows ++ rest) ≡ find_row p rest
unfolding find_row
found_after p [] rest e = refl
found_after p (x ∷ rows) rest e = elim (Bool-cases (p x)) [
  | inl b ↦ absurd (cc (rw b at e))
  | inr b ↦ rw b (found_after p rows rest (rw b at e))
]

differs : (a b : String) → str_eq a b ≡ false → str_eq b a ≡ false
differs a b e = elim (Bool-cases (str_eq b a)) [
  | inl q ↦ let same = (str_eq_iff b a).0 q in absurd (cc e)
  | inr q ↦ q
]

module _ {Price : Type 0} where
  abbrev pub IsGood : List (RoomType Price) → Type 0
  IsGood rows = IsStocked (view rows) × HasUniqueIds rows

  -- Every stock that was there is there.
  abbrev pub Keeps : List (RoomType Price) → List (RoomType Price) → Type 0
  Keeps rows rows' =
      (key : String) (v : ℤ) → stock_of key rows ≡ some v → stock_of key rows' ≡ some v

  pub same_stock :
      (key : String) (rows rows' : List (RoomType Price))
      → find_row (has_id key) rows ≡ find_row (has_id key) rows'
      → stock_of key rows ≡ stock_of key rows'
  unfolding stock_of
  same_stock key rows rows' e =
      ap (λ (o : Option (RoomType Price)). elim o [ none ↦ none | some r ↦ some r.stock_total ]) e

  no_stock :
      (key : String) (rows : List (RoomType Price))
      → find_row (has_id key) rows ≡ none
      → stock_of key rows ≡ none
  unfolding stock_of
  no_stock key rows e = rw (e, stock_of) refl

  pub appended-Keeps : (rows rest : List (RoomType Price)) → Keeps rows (rows ++ rest)
  appended-Keeps rows rest key v e = elim (Option-cases (find_row (has_id key) rows)) [
    | inl n ↦ let gone = no_stock key rows n in absurd (cc (gone, e))
    | inr (r, f) ↦
        same_stock key (rows ++ rest) rows (found_before (has_id key) rows rest r f ∙ sym f) ∙ e
  ]

  only_stock :
      (key : String) (r : RoomType Price) (v : ℤ)
      → stock_of key (r ∷ []) ≡ some v
      → r.stock_total ≡ v
  unfolding stock_of find_row
  only_stock key r v e = ground arith

  pub appended-IsStocked :
      (rows : List (RoomType Price)) (r : RoomType Price)
      → pos 0 ≤ℤ r.stock_total
      → IsStocked (view rows)
      → IsStocked (view (rows ++ (r ∷ [])))
  appended-IsStocked rows r p h key v e = elim (Option-cases (find_row (has_id key) rows)) [
    | inl n ↦
        let same =
          same_stock key (rows ++ (r ∷ [])) (r ∷ []) (found_after (has_id key) rows (r ∷ []) n) in
        subst (λ x. pos 0 ≤ℤ x) (only_stock key r v (sym same ∙ e)) p
    | inr (x, f) ↦ h key v (
        same_stock key rows (rows ++ (r ∷ []))
          (f ∙ sym (found_before (has_id key) rows (r ∷ []) x f))
        ∙ e)
  ]

  other_id :
      (x r : RoomType Price) (rows : List (RoomType Price))
      → find_row (has_id r.id) (x ∷ rows) ≡ none
      → (find_row (has_id r.id) rows ≡ none) × (has_id x.id r ≡ false)
  unfolding find_row
  other_id x r rows e = elim (Bool-cases (has_id r.id x)) [
    | inl b ↦ absurd (cc (rw b at e))
    | inr b ↦ (rw b at e, differs x.id r.id b)
  ]

  pub appended-HasUniqueIds :
      (rows : List (RoomType Price)) (r : RoomType Price)
      → find_row (has_id r.id) rows ≡ none
      → HasUniqueIds rows
      → HasUniqueIds (rows ++ (r ∷ []))
  unfolding find_row
  appended-HasUniqueIds [] r e u = (refl, tt)
  appended-HasUniqueIds (x ∷ rows) r e (n, u) =
      let (e', b) = other_id x r rows e in
      (found_after (has_id x.id) rows (r ∷ []) n ∙ rw b refl, appended-HasUniqueIds rows r e' u)
