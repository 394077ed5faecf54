-- ===== src/Glob.antt =====
-- fnmatch.fnmatch as src/navigator_eventbus/core.py and evb.py call it, on a system whose file
-- names keep their case: `*`, `?` and character classes in brackets.
pub mod Matching
use navigator_eventbus.Prelude.{
  ℕ, zero, suc, ◌+◌, String, Bool, true, false, not, ◌&&◌, Option, none, some, List, [], ◌∷◌, leb,
  eqb, length, codes, if◌then◌else◌,
}

pub data GlobToken : Type 0 where
  star : GlobToken
  any_char : GlobToken
  lit : ℕ → GlobToken
  char_class : Bool → List (ℕ × ℕ) → GlobToken

-- The characters up to the closing bracket; the first one may itself be a bracket.
up_to_bracket : List ℕ → Option (List ℕ)
up_to_bracket [] = none
up_to_bracket (c ∷ s) =
    let rest = up_to_bracket s in
    if eqb c b']' then some [] else elim rest [ none ↦ none | some r ↦ some (c ∷ r) ]

class_body : List ℕ → Option (List ℕ)
unfolding up_to_bracket
class_body [] = none
class_body (c ∷ s) = elim (up_to_bracket s) [ none ↦ none | some r ↦ some (c ∷ r) ]

-- The text between the brackets, a leading `!` included.
class_text : List ℕ → Option (List ℕ)
unfolding class_body
class_text [] = none
class_text (c ∷ s) =
    if eqb c b'!'
    then elim (class_body s) [ none ↦ none | some r ↦ some (c ∷ r) ]
    else class_body (c ∷ s)

-- `a-z` is a range, any other character stands for itself.
ranges : List ℕ → List (ℕ × ℕ)
ranges [] = []
ranges (a ∷ []) = (a, a) ∷ []
ranges (a ∷ b ∷ []) = (a, a) ∷ (b, b) ∷ []
ranges (a ∷ b ∷ c ∷ s) =
    let ranged = (a, c) ∷ ranges s in
    let single = (a, a) ∷ ranges (b ∷ c ∷ s) in if eqb b b'-' then ranged else single

class_token : List ℕ → GlobToken
unfolding ranges
class_token [] = char_class false []
class_token (c ∷ s) =
    if eqb c b'!' then char_class true (ranges s) else char_class false (ranges (c ∷ s))

-- `skip` characters belong to the class that has just been read.
tokens_from : ℕ → List ℕ → List GlobToken
unfolding class_text class_token
tokens_from skip [] = []
tokens_from (suc k) (c ∷ s) = tokens_from k s
tokens_from zero (c ∷ s) =
    if eqb c b'*'
    then star ∷ tokens_from zero s
    else if eqb c b'?'
    then any_char ∷ tokens_from zero s
    else if eqb c b'['
    then elim (class_text s) [
      | none ↦ lit c ∷ tokens_from zero s
      | some t ↦ class_token t ∷ tokens_from (suc (length t)) s
    ]
    else lit c ∷ tokens_from zero s

in_ranges : ℕ → List (ℕ × ℕ) → Bool
in_ranges c [] = false
in_ranges c ((a, b) ∷ r) = let rest = in_ranges c r in if leb a c && leb c b then true else rest

-- Whether one character fits a token other than `*`.
unfoldable pub fits : GlobToken → ℕ → Bool
unfolding in_ranges
fits star c = false
fits any_char c = true
fits (lit a) c = eqb a c
fits (char_class negated r) c = if negated then not (in_ranges c r) else in_ranges c r

unfoldable pub glob : List GlobToken → List ℕ → Bool
glob [] [] = true
glob [] (c ∷ s) = false
glob (star ∷ ts) [] = glob ts []
glob (star ∷ ts) (c ∷ s) =
    let longer = glob (star ∷ ts) s in if glob ts (c ∷ s) then true else longer
glob (t ∷ ts) [] = false
glob (t ∷ ts) (c ∷ s) = fits t c && glob ts s

unfoldable pub tokens : String → List GlobToken
unfolding tokens_from
tokens pattern = tokens_from zero (codes pattern)

-- fnmatch.fnmatch(name, pattern)
unfoldable pub fnmatch : String → String → Bool
unfolding tokens glob fits
fnmatch name pattern = glob (tokens pattern) (codes name)
