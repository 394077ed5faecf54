-- ===== src/Signatures/Stripe.antt =====
-- class StripeScheme.
pub mod Freshness
use navigator_eventbus.Prelude.{
  ℕ, ◌+◌, ◌-◌, Bool, true, false, not, ◌&&◌, Option, none, some, List, [], ◌∷◌, ◌++◌, any_of, ltb,
  codes, codes_eq, split_on, if◌then◌else◌,
}
use navigator_eventbus.Prelude.Int.{ℤ, pos, negsuc}
use navigator_eventbus.Signatures.{
  SignatureVerdict, good, missing, malformed, mismatch, stale, Detail, no_detail, not_hex,
  missing_timestamp, missing_v1, bad_timestamp, in_future, expired, SignatureCheck, Primitives,
  Headers, is_empty, partition, strip, is_hex, equal, read_header,
}
use navigator_eventbus.Signatures.Hex.{rejected}

pub record StripeScheme : Type 0 where
  pub name : List ℕ
  pub header : List ℕ
  pub algorithm : List ℕ

-- abs(current - issued_at)
abbrev pub distance : ℕ → ℤ → ℕ
distance now (pos n) = (now - n) + (n - now)
distance now (negsuc n) = now + n + 1

-- issued_at > current
abbrev pub is_later : ℕ → ℤ → Bool
is_later now (pos n) = ltb now n
is_later now (negsuc n) = false

module _ (prim : Primitives) where
  -- The loop of `_parse` over the parts: the first timestamp, and the digests in order.
  unfoldable pub parse_parts : Option (List ℕ) → List (List ℕ) → Option (List ℕ) × List (List ℕ)
  parse_parts t [] = (t, [])
  parse_parts t (part ∷ parts) =
      let (before, found, value) = partition b'=' (strip prim part) in
      let key = strip prim before in
      let is_t = codes_eq key (codes "t") && (elim t [ none ↦ true | some _ ↦ false ]) in
      let (stamp, digests) =
        parse_parts (if found && is_t then some (strip prim value) else t) parts in
      if found && (not is_t && codes_eq key (codes "v1"))
      then (stamp, strip prim value ∷ digests)
      else (stamp, digests)

  -- f"{issued_at}." and the body.
  abbrev pub signed_payload : ℤ → List ℕ → List ℕ
  signed_payload issued body = prim.print_int issued ++ b'.' ∷ body

  module _ (scheme : StripeScheme) where
    -- Once the header is parsed and its parts are well formed. A tolerance of 0 is no check.
    unfoldable pub check_fresh : List ℕ → List ℕ → ℕ → ℕ → ℤ → List (List ℕ) → SignatureCheck
    check_fresh secret body tolerance now issued digests =
        if ltb 0 tolerance && ltb tolerance (distance now issued)
        then rejected stale (if is_later now issued then in_future else expired)
        else (if any_of
              (λ d.
                equal prim (prim.hmac_hex scheme.algorithm secret (signed_payload issued body)) d)
              digests
            then rejected good no_detail
            else rejected mismatch no_detail)

    unfoldable pub check_parsed :
        List ℕ → List ℕ → ℕ → ℕ → Option (List ℕ) → List (List ℕ) → SignatureCheck
    check_parsed secret body tolerance now none digests = rejected malformed missing_timestamp
    check_parsed secret body tolerance now (some stamp) [] = rejected malformed missing_v1
    check_parsed secret body tolerance now (some stamp) (d ∷ ds) = elim (prim.parse_int stamp) [
      | none ↦ rejected malformed bad_timestamp
      | some issued ↦
          if any_of (λ x. not (is_hex prim x)) (d ∷ ds)
          then rejected malformed not_hex
          else check_fresh secret body tolerance now issued (d ∷ ds)
    ]

    -- StripeScheme.verify
    unfoldable pub stripe_verify :
        List ℕ → List ℕ → ℕ → ℕ → Option (List ℕ) → Headers → SignatureCheck
    stripe_verify secret body tolerance now override headers =
        elim (read_header prim scheme.header override headers) [
          | none ↦ rejected missing no_detail
          | some raw ↦
              if is_empty raw
              then rejected missing no_detail
              else (let (stamp, digests) = parse_parts none (split_on b',' raw) in
                  check_parsed secret body tolerance now stamp digests)
        ]

    -- StripeScheme.sign
    unfoldable pub stripe_sign : List ℕ → List ℕ → ℕ → List ℕ × List ℕ
    stripe_sign secret body now = (
      scheme.header,
      b't'
          ∷ b'='
          ∷ (prim.print_int (pos now)
              ++ b','
                ∷ b'v'
                ∷ b'1'
                ∷ b'='
                ∷ prim.hmac_hex scheme.algorithm secret (signed_payload (pos now) body)),
    )
