-- ===== src/Base/Text.antt =====
-- What the services use of Go's strings: equality, concatenation, TrimSpace and Split.
use Prim.Native.Nat.{ℕ, zero, suc, ◌/◌, ◌%◌}
use Prim.Native.Char.{Char, code}
use Prim.Native.String.{String, ◌++◌}
use text.Mathlib.Text.{◌==◌ as eq_text}
use text.Mathlib.TextEquality.{eq_iff}
use text.Mathlib.TextPositions.{eq_refl}
use mathlib.Core.Path.{◌≡◌, refl}
use mathlib.Core.Logic.{◌↔◌}
use mathlib.Core.Bool.{Bool, true, ◌||◌, ◌&&◌}
use mathlib.Core.List.{List, [], ◌∷◌}
use proyecto_sd_reserva_de_h.Base.Tests.{leb, ◌==◌, if◌then◌else◌}

abbrev pub str_eq : String → String → Bool
str_eq = eq_text

pub str_eq_iff : (s t : String) → (str_eq s t ≡ true) ↔ (s ≡ t)
str_eq_iff s t = eq_iff s t

pub str_eq_refl : (s : String) → str_eq s s ≡ true
str_eq_refl s = eq_refl s

abbrev pub concat : String → String → String
concat s t = s ++ t

-- `unicode.IsSpace`.
unfoldable pub is_space : Char → Bool
is_space c =
    (leb 9 (code c) && leb (code c) 13)
    || code c == 32
    || code c == 0x85
    || code c == 0xa0
    || code c == 0x1680
    || (leb 0x2000 (code c) && leb (code c) 0x200a)
    || code c == 0x2028
    || code c == 0x2029
    || code c == 0x202f
    || code c == 0x205f
    || code c == 0x3000

-- `strings.TrimLeftFunc(s, unicode.IsSpace)`.
unfoldable pub trim_left : String → String
unfolding is_space
trim_left String.[] = String.[]
trim_left (String.◌∷◌ c s) = if is_space c then trim_left s else String.◌∷◌ c s

-- A blank tail is dropped as the recursion comes back.
trim_cons : Char → String → String
unfolding is_space
trim_cons c String.[] = if is_space c then String.[] else String.◌∷◌ c String.[]
trim_cons c (String.◌∷◌ d s) = String.◌∷◌ c (String.◌∷◌ d s)

unfoldable pub trim_right : String → String
unfolding trim_cons
trim_right String.[] = String.[]
trim_right (String.◌∷◌ c s) = trim_cons c (trim_right s)

-- `strings.TrimSpace`.
unfoldable pub trim_space : String → String
unfolding trim_left trim_right
trim_space s = trim_left (trim_right s)

-- The part before the first separator, and the parts after it.
split_cons : ℕ → Char → List String → List String
split_cons sep c [] = String.◌∷◌ c String.[] ∷ []
split_cons sep c (part ∷ parts) =
    if code c == sep then String.[] ∷ part ∷ parts else String.◌∷◌ c part ∷ parts

-- `strings.Split(s, sep)` at a separator of one character.
unfoldable pub split : ℕ → String → List String
unfolding split_cons
split sep String.[] = String.[] ∷ []
split sep (String.◌∷◌ c s) = split_cons sep c (split sep s)

abbrev digit : ℕ → String
digit d =
    if d == 0
    then "0"
    else if d == 1
    then "1"
    else if d == 2
    then "2"
    else if d == 3
    then "3"
    else if d == 4
    then "4"
    else if d == 5
    then "5"
    else if d == 6
    then "6"
    else if d == 7
    then "7"
    else if d == 8
    then "8"
    else "9"

print_from : ℕ → ℕ → String
print_from zero n = ""
print_from (suc fuel) n =
    let front = print_from fuel (n / 10) in if leb n 9 then digit n else front ++ digit (n % 10)

-- `%d` of a number that is not negative: it has fewer digits than `n + 1`.
unfoldable pub print_ℕ : ℕ → String
unfolding print_from
print_ℕ n = print_from (suc n) n

print_ℕ_example : print_ℕ 2026 ≡ "2026"
unfolding print_ℕ
print_ℕ_example = refl
