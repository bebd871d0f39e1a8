-- ===== src/Startup/Settings.antt =====
-- The two `getEnvBool` functions of mi-servicio/main.go and inventario-service/main.go.
use mathlib.Core.Path.{◌∙◌, ap}
use proyecto_sd_reserva_de_h.Base.{
  All, ◌≡◌, refl, inl, inr, String, Bool, true, false, List, [], ◌∷◌, arith, str_eq, str_eq_iff,
  Bool-cases, trim_space,
}
use proyecto_sd_reserva_de_h.Startup.{
  Variables, reservation_get_env_bool, inventory_get_env_bool, yes_words, is_one_of, eq_lower,
  is_yes,
}

module _ (reads : String → Bool) where
  reads_word :
      (v : String) (words : List String)
      → All (λ word. reads word ≡ true) words
      → is_one_of v words ≡ true
      → reads v ≡ true
  reads_word v [] h e = ground arith
  reads_word v (word ∷ words) (h, hs) e = elim (Bool-cases (str_eq v word)) [
    | inl q ↦ ap reads ((str_eq_iff v word).0 q) ∙ h
    | inr q ↦ reads_word v words hs (ground arith)
  ]

abbrev trimmed_yes : String → Bool
trimmed_yes v = is_yes (trim_space v)

yes_words_read : All (λ word. trimmed_yes word ≡ true) yes_words
unfolding eq_lower trim_space
yes_words_read = (refl, (refl, (refl, (refl, (refl, (refl, (refl, (refl, (refl, tt)))))))))

-- A setting that turns the events of the inventory service on, with no default, turns those of the
-- reservation service on, whatever its default.
pub yes_for_both :
    (vars : Variables) (key : String) (fallback : Bool)
    → inventory_get_env_bool vars key false ≡ true
    → reservation_get_env_bool vars key fallback ≡ true
unfolding inventory_get_env_bool reservation_get_env_bool
yes_for_both vars key fallback h =
    let y = reads_word trimmed_yes (vars key) yes_words yes_words_read (ground arith) in rw y refl
