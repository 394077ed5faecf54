-- ===== src/Prelude/Text.antt =====
-- Text as a list of code points, where the program walks it.
use Prim.Native.Nat.{ℕ}
use Prim.Native.Char.{code}
use Prim.Native.String.{String}
use mathlib.Core.Bool.{Bool, true, false, ◌&&◌, ◌||◌}
use mathlib.Core.List.{List, [], ◌∷◌, ◌++◌}
use mathlib.Core.Path.{◌≡◌, refl}
use native.Mathlib.Omega.{arith}
use navigator_eventbus.Prelude.Tests.{eqb, if◌then◌else◌}

abbrev pub codes : String → List ℕ
codes String.[] = []
codes (String.◌∷◌ c s) = code c ∷ codes s

-- `text.startswith(prefix)`
abbrev pub starts_with : List ℕ → List ℕ → Bool
starts_with s [] = true
starts_with [] (p ∷ ps) = false
starts_with (c ∷ s) (p ∷ ps) = eqb c p && starts_with s ps

-- `ch in text`
abbrev pub has_code : ℕ → List ℕ → Bool
has_code c [] = false
has_code c (x ∷ s) = let rest = has_code c s in if eqb x c then true else rest

-- `text.split(ch, 1)[0]`
abbrev pub until_code : ℕ → List ℕ → List ℕ
until_code c [] = []
until_code c (x ∷ s) = let rest = until_code c s in if eqb x c then [] else x ∷ rest

abbrev pub codes_eq : List ℕ → List ℕ → Bool
codes_eq [] [] = true
codes_eq (x ∷ s) (y ∷ t) = eqb x y && codes_eq s t
codes_eq _ _ = false

abbrev cons_head : ℕ → List (List ℕ) → List (List ℕ)
cons_head x [] = (x ∷ []) ∷ []
cons_head x (w ∷ ws) = (x ∷ w) ∷ ws

-- `text.split(ch)`
unfoldable pub split_on : ℕ → List ℕ → List (List ℕ)
split_on c [] = [] ∷ []
split_on c (x ∷ s) = let rest = split_on c s in if eqb x c then [] ∷ rest else cons_head x rest

pub split_on_last : (c : ℕ) (s : List ℕ) → has_code c s ≡ false → split_on c s ≡ s ∷ []
unfolding split_on
split_on_last c [] h = refl
split_on_last c (x ∷ s) h = ground (arith, split_on_last c s)

pub split_on_first :
    (c : ℕ) (s t : List ℕ) → has_code c s ≡ false → split_on c (s ++ c ∷ t) ≡ s ∷ split_on c t
unfolding split_on
split_on_first c [] t h = ground arith
split_on_first c (x ∷ s) t h = ground (arith, split_on_first c s t)

pub codes_eq_refl : (s : List ℕ) → codes_eq s s ≡ true
codes_eq_refl [] = refl
codes_eq_refl (x ∷ s) = ground (arith, codes_eq_refl s)

pub codes_eq_sound : (s t : List ℕ) → codes_eq s t ≡ true → s ≡ t
codes_eq_sound [] [] h = refl
codes_eq_sound [] (y ∷ t) h = cc
codes_eq_sound (x ∷ s) [] h = cc
codes_eq_sound (x ∷ s) (y ∷ t) h = ground (arith, codes_eq_sound s t)

-- `prefix + text`
abbrev pub concat : String → String → String
concat String.[] t = t
concat (String.◌∷◌ c s) t = String.◌∷◌ c (concat s t)

-- `part in text`
abbrev pub has_part : List ℕ → List ℕ → Bool
has_part part [] = starts_with [] part
has_part part (c ∷ s) = starts_with (c ∷ s) part || has_part part s
