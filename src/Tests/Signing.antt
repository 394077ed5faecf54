-- ===== src/Tests/Signing.antt =====
-- A delivery that is signed and verified, by both kinds of scheme.
use navigator_eventbus.Prelude.{
  ℕ, ◌≤◌, ◌-◌, ◌+◌, ◌≡◌, refl, ap, ◌⊎◌, arith, true, Option, none, some, List, [], ◌∷◌, eqb, codes,
  split_on, IsIn,
}
use navigator_eventbus.Prelude.Int.{ℤ, pos, negsuc}
use navigator_eventbus.Signatures.{good, no_detail, Primitives, folded, strip, read_header}
use navigator_eventbus.Signatures.Hex.{HexDigestScheme, rejected, is_one_of, hex_verify, hex_sign}
use navigator_eventbus.Signatures.Hex.Checks.{
  IsName, IsDigest, IsWritten, hex_verify-accepts, hex_verify-hex_sign,
}
use navigator_eventbus.Signatures.Stripe.{
  StripeScheme, distance, parse_parts, stripe_verify, stripe_sign,
}
use navigator_eventbus.Signatures.Stripe.Freshness.{
  stripe_verify-accepts, stripe_verify-stripe_sign,
}

abbrev one_digit : List ℕ → Option ℤ
one_digit (c ∷ []) = some (pos (c - 48))
one_digit _ = none

abbrev print_digit : ℤ → List ℕ
print_digit (pos n) = (n + 48) ∷ []
print_digit (negsuc n) = b'-' ∷ (n + 49) ∷ []

abbrev pub tools : Primitives
tools = record {
  is_space = λ c. eqb c b' ';
  lower = λ s. s;
  parses_hex = λ s. true;
  parse_int = one_digit;
  print_int = print_digit;
  hmac_hex = λ algo secret body. codes "c0ffee";
}

abbrev pub generic : HexDigestScheme
generic = record {
  name = codes "generic";
  header = codes "X-Webhook-Signature";
  preferred = codes "sha256";
  others = [];
  allow_bare = true;
  emit_prefix = true;
}

abbrev key : List ℕ
key = codes "key"

abbrev body : List ℕ
body = codes "{}"

sha256-IsName : IsName tools (codes "sha256")
sha256-IsName = record {
  solid = (refl, (refl, (refl, (refl, (refl, (refl, tt))))));
  one_name = refl;
  lower_case = refl;
}

coffee-IsDigest : IsDigest tools (codes "c0ffee")
coffee-IsDigest = record {
  solid = (refl, (refl, (refl, (refl, (refl, (refl, tt))))));
  one_part = refl;
  some_text = refl;
  hex = refl;
}

hex_verify-hex_sign_example :
    hex_verify tools generic key body none (hex_sign tools generic key body ∷ [])
    ≡ rejected good no_detail
hex_verify-hex_sign_example =
    hex_verify-hex_sign tools generic key body [] refl sha256-IsName coffee-IsDigest refl

signed_run :
    hex_verify tools generic key body none (hex_sign tools generic key body ∷ [])
    ≡ rejected good no_detail
signed_run = hex_verify-hex_sign tools generic key body [] refl sha256-IsName coffee-IsDigest refl

hex_verify-accepts_example :
    (raw : List ℕ) × (algo : List ℕ) × (digest : List ℕ) × (read_header tools
        (codes "X-Webhook-Signature")
        none
        (hex_sign tools generic key body ∷ [])
      ≡ some raw)
    × IsWritten tools generic raw algo digest
    × (is_one_of (codes "sha256" ∷ []) algo ≡ true)
    × (folded tools (codes "c0ffee") ≡ folded tools (strip tools digest))
hex_verify-accepts_example =
    hex_verify-accepts tools generic key body none (hex_sign tools generic key body ∷ [])
      (ap (λ c. c.verdict) signed_run)

abbrev stripe_scheme : StripeScheme
stripe_scheme = record {
  name = codes "stripe";
  header = codes "Stripe-Signature";
  algorithm = codes "sha256";
}

stripe_verify-stripe_sign_example :
    stripe_verify tools stripe_scheme key body 3 7 none
      (stripe_sign tools stripe_scheme key body 5 ∷ [])
    ≡ rejected good no_detail
stripe_verify-stripe_sign_example =
    stripe_verify-stripe_sign tools stripe_scheme key body 3 5 7 []
      (refl, (refl, (refl, (refl, tt)))) (refl, tt) refl refl coffee-IsDigest refl (omega arith)

stripe_run :
    stripe_verify tools stripe_scheme key body 3 7 none
      (stripe_sign tools stripe_scheme key body 5 ∷ [])
    ≡ rejected good no_detail
stripe_run =
    stripe_verify-stripe_sign tools stripe_scheme key body 3 5 7 []
      (refl, (refl, (refl, (refl, tt)))) (refl, tt) refl refl coffee-IsDigest refl (omega arith)

stripe_verify-accepts_example :
    (raw : List ℕ) × (stamp : List ℕ) × (digests : List (List ℕ)) × (issued : ℤ) × (read_header
        tools
        (codes "Stripe-Signature")
        none
        (stripe_sign tools stripe_scheme key body 5 ∷ [])
      ≡ some raw)
    × (parse_parts tools none (split_on b',' raw) ≡ (some stamp, digests))
    × (one_digit stamp ≡ some issued)
    × (◌≡◌ {A = ℕ} 3 0 ⊎ (distance 7 issued ≤ 3))
    × ((d : List ℕ) × IsIn d digests × (folded tools (codes "c0ffee") ≡ folded tools d))
stripe_verify-accepts_example =
    stripe_verify-accepts tools stripe_scheme key body 3 7 none
      (stripe_sign tools stripe_scheme key body 5 ∷ []) (ap (λ c. c.verdict) stripe_run)
