-- ===== src/Signatures.antt =====
-- src/navigator_eventbus/webhook_signatures.py. Text and bytes are lists of codes; HMAC and what the
-- language does with spaces, letter case and numerals are parameters. A header mapping is a list of
-- names and values, and times are whole seconds.
pub mod Hex
pub mod Stripe
pub mod Registry
use navigator_eventbus.Prelude.{
  ℕ, ◌+◌, ◌-◌, Bool, true, false, ◌&&◌, Option, none, some, List, [], ◌∷◌, ◌++◌, eqb, codes,
  codes_eq, if◌then◌else◌,
}
use navigator_eventbus.Prelude.Int.{ℤ}

pub data SignatureVerdict : Type 0 where
  good missing malformed mismatch stale : SignatureVerdict

-- The stable category strings of a SignatureCheck.
pub data Detail : Type 0 where
  no_detail unsupported_alg missing_alg_prefix not_hex missing_timestamp missing_v1 bad_timestamp :
      Detail
  in_future expired : Detail

pub record SignatureCheck : Type 0 where
  pub verdict : SignatureVerdict
  pub detail : Detail

-- `hmac_hex` is given the algorithm, the secret and the message; `parses_hex` tells whether int(text, 16)
-- succeeds, `parse_int` is int(text), and `print_int` its way back.
pub record Primitives : Type 0 where
  pub is_space : ℕ → Bool
  pub lower : List ℕ → List ℕ
  pub parses_hex : List ℕ → Bool
  pub parse_int : List ℕ → Option ℤ
  pub print_int : ℤ → List ℕ
  pub hmac_hex : List ℕ → List ℕ → List ℕ → List ℕ

abbrev pub Headers : Type 0
Headers = List (List ℕ × List ℕ)

abbrev pub is_empty : List ℕ → Bool
is_empty [] = true
is_empty (x ∷ s) = false

-- `text.partition(ch)`, and whether the character is there.
unfoldable pub partition : ℕ → List ℕ → List ℕ × Bool × List ℕ
partition c [] = ([], false, [])
partition c (x ∷ s) =
    let (before, found, rest) = partition c s in
    if eqb x c then ([], true, s) else (x ∷ before, found, rest)

module _ (prim : Primitives) where
  unfoldable pub strip_left : List ℕ → List ℕ
  strip_left [] = []
  strip_left (x ∷ s) = let rest = strip_left s in if prim.is_space x then rest else x ∷ s

  unfoldable pub strip_right : List ℕ → List ℕ
  strip_right [] = []
  strip_right (x ∷ s) = elim (strip_right s) [
    | [] ↦ if prim.is_space x then [] else x ∷ []
    | ◌∷◌ y t ↦ x ∷ y ∷ t
  ]

  -- `text.strip()`
  unfoldable pub strip : List ℕ → List ℕ
  strip s = strip_right (strip_left s)

  -- _is_hex
  unfoldable pub is_hex : List ℕ → Bool
  is_hex s = if is_empty s then false else prim.parses_hex s

  -- `value.strip().lower()`, the text that `_equal` compares.
  unfoldable pub folded : List ℕ → List ℕ
  folded s = prim.lower (strip s)

  unfoldable pub equal : List ℕ → List ℕ → Bool
  equal a b = codes_eq (folded a) (folded b)

  -- `headers.get(name)`
  abbrev pub get_header : List ℕ → Headers → Option (List ℕ)
  get_header name [] = none
  get_header name ((key, value) ∷ rest) =
      let found = get_header name rest in if codes_eq key name then some value else found

  abbrev pub scan_header : List ℕ → Headers → Option (List ℕ)
  scan_header name [] = none
  scan_header name ((key, value) ∷ rest) =
      let found = scan_header name rest in
      if codes_eq (prim.lower key) (prim.lower name) then some value else found

  -- The value of the scheme's header, or of the one that overrides it.
  unfoldable pub read_header : List ℕ → Option (List ℕ) → Headers → Option (List ℕ)
  read_header header override headers =
      let name : List ℕ = elim override [
        | none ↦ header
        | some n ↦ if is_empty n then header else n
      ] in
      elim (get_header name headers) [ some value ↦ some value | none ↦ scan_header name headers ]
