-- ===== src/Signatures/Stripe/Freshness.antt =====
-- What a StripeScheme accepts, and that it accepts what it signs.
use navigator_eventbus.Prelude.{
  ℕ, ◌≤◌, ◌≡◌, refl, ap, ◌∙◌, ◌⊎◌, inl, inr, arith, false, not, ◌&&◌, Option, none, some, List, [],
  ◌∷◌, ◌++◌, ltb, any_of, any_of-IsIn, IsIn, codes_eq_refl, codes_eq_sound, has_code, split_on,
  split_on_first, split_on_last, Bool-cases, Option-cases,
}
use navigator_eventbus.Prelude.Int.{ℤ, pos}
use navigator_eventbus.Signatures.{
  good, missing, malformed, mismatch, stale, no_detail, Primitives, Headers, is_empty, is_hex,
  folded, equal, read_header,
}
use navigator_eventbus.Signatures.Hex.{rejected}
use navigator_eventbus.Signatures.Hex.Checks.{IsSolid, IsDigest, strip_solid, partition_at}
use navigator_eventbus.Signatures.Stripe.{
  StripeScheme, distance, parse_parts, signed_payload, check_fresh, check_parsed, stripe_verify,
  stripe_sign,
}

in_time :
    (tolerance away : ℕ)
    → (ltb 0 tolerance && ltb tolerance away) ≡ false
    → (tolerance ≡ 0) ⊎ (away ≤ tolerance)
in_time tolerance away h = elim (Bool-cases (ltb 0 tolerance)) [
  | inl e ↦ let near : ltb tolerance away ≡ false = rw e at h in inr (ground arith)
  | inr e ↦ inl (ground arith)
]

timely_fresh :
    (tolerance away : ℕ) → away ≤ tolerance → (ltb 0 tolerance && ltb tolerance away) ≡ false
timely_fresh tolerance away h = ground arith

module _ (prim : Primitives) (scheme : StripeScheme) where
  check_fresh-accepts :
      (secret body : List ℕ) (tolerance now : ℕ) (issued : ℤ) (digests : List (List ℕ))
      → (check_fresh prim scheme secret body tolerance now issued digests).verdict ≡ good
      → ((tolerance ≡ 0) ⊎ (distance now issued ≤ tolerance))
        × ((d : List ℕ) × IsIn d digests
            × (folded prim (prim.hmac_hex scheme.algorithm secret (signed_payload prim issued body))
                ≡ folded prim d))
  unfolding check_fresh equal
  check_fresh-accepts secret body tolerance now issued digests h =
      let expected = prim.hmac_hex scheme.algorithm secret (signed_payload prim issued body) in
      elim (Bool-cases (ltb 0 tolerance && ltb tolerance (distance now issued))) [
        | inl e ↦ let wrong : stale ≡ good = rw (e, check_fresh) at h in cc
        | inr e ↦ elim (Bool-cases (any_of (λ d. equal prim expected d) digests)) [
          | inl f ↦
              let (d, there, same) = any_of-IsIn (λ d. equal prim expected d) digests f in
              (in_time tolerance (distance now issued) e, (d, there, codes_eq_sound _ _ same))
          | inr f ↦ let wrong : mismatch ≡ good = rw (e, f, check_fresh) at h in cc
        ]
      ]

  check_parsed-accepts :
      (secret body : List ℕ) (tolerance now : ℕ) (stamp : Option (List ℕ)) (digests : List (List ℕ))
      → (check_parsed prim scheme secret body tolerance now stamp digests).verdict ≡ good
      → (text : List ℕ) × (issued : ℤ) × (stamp ≡ some text)
        × (prim.parse_int text ≡ some issued)
        × ((check_fresh prim scheme secret body tolerance now issued digests).verdict ≡ good)
  unfolding check_parsed
  check_parsed-accepts secret body tolerance now none digests h = cc
  check_parsed-accepts secret body tolerance now (some text) [] h = cc
  check_parsed-accepts secret body tolerance now (some text) (d ∷ ds) h =
      elim (Option-cases (prim.parse_int text)) [
        | inl e ↦ let wrong : malformed ≡ good = rw (e, check_parsed) at h in cc
        | inr (issued, e) ↦ elim (Bool-cases (any_of (λ x. not (is_hex prim x)) (d ∷ ds))) [
          | inl f ↦ let wrong : malformed ≡ good = rw (e, f, check_parsed) at h in cc
          | inr f ↦ (text, issued, refl, e, rw (e, f, check_parsed) at h)
        ]
      ]

  -- Where `verify` answers good, the first timestamp of the header is a number that is no further from
  -- now than the tolerance, or the tolerance is 0, and one of the v1 digests is, up to letter case and
  -- spaces around it, the HMAC of that number and the body.
  pub stripe_verify-accepts :
      (secret body : List ℕ) (tolerance now : ℕ) (override : Option (List ℕ)) (headers : Headers)
      → (stripe_verify prim scheme secret body tolerance now override headers).verdict ≡ good
      → (raw : List ℕ) × (stamp : List ℕ) × (digests : List (List ℕ)) × (issued : ℤ) × (read_header
            prim scheme.header override headers
          ≡ some raw)
        × (parse_parts prim none (split_on b',' raw) ≡ (some stamp, digests))
        × (prim.parse_int stamp ≡ some issued)
        × ((tolerance ≡ 0) ⊎ (distance now issued ≤ tolerance))
        × ((d : List ℕ) × IsIn d digests
            × (folded prim (prim.hmac_hex scheme.algorithm secret (signed_payload prim issued body))
                ≡ folded prim d))
  unfolding stripe_verify
  stripe_verify-accepts secret body tolerance now override headers h =
      elim (Option-cases (read_header prim scheme.header override headers)) [
        | inl e ↦ let wrong : missing ≡ good = rw (e, stripe_verify) at h in cc
        | inr (raw, e) ↦ elim (Bool-cases (is_empty raw)) [
          | inl f ↦ let wrong : missing ≡ good = rw (e, f, stripe_verify) at h in cc
          | inr f ↦
              let parsed = parse_parts prim none (split_on b',' raw) in
              let (stamp, issued, at_stamp, at_issued, fresh) =
                check_parsed-accepts secret body tolerance now parsed.0 parsed.1
                  (rw (e, f, stripe_verify) at h) in
              let (timely, signed) =
                check_fresh-accepts secret body tolerance now issued parsed.1 fresh in
              (
                raw,
                stamp,
                parsed.1,
                issued,
                e,
                ap (λ t. (t, parsed.1)) at_stamp,
                at_issued,
                timely,
                signed,
              )
        ]
      ]

  -- The parts of a signed header, which `_parse` takes apart.
  parse_parts-signed :
      (n d : List ℕ)
      → IsSolid prim (b't' ∷ b'v' ∷ b'1' ∷ b'=' ∷ [])
      → IsSolid prim n
      → IsSolid prim d
      → parse_parts prim none ((b't' ∷ b'=' ∷ n) ∷ (b'v' ∷ b'1' ∷ b'=' ∷ d) ∷ []) ≡ (some n, d ∷ [])
  unfolding parse_parts
  parse_parts-signed n d (t, (v, (one, (sign, _)))) solid_n solid_d =
      rw
        (
          strip_solid prim (b't' ∷ b'=' ∷ n) (t, (sign, solid_n)),
          partition_at b'=' (b't' ∷ []) n refl,
          strip_solid prim (b't' ∷ []) (t, tt),
          strip_solid prim n solid_n,
          strip_solid prim (b'v' ∷ b'1' ∷ b'=' ∷ d) (v, (one, (sign, solid_d))),
          partition_at b'=' (b'v' ∷ b'1' ∷ []) d refl,
          strip_solid prim (b'v' ∷ b'1' ∷ []) (v, (one, tt)),
          strip_solid prim d solid_d,
        )
        refl

  split_on-signed :
      (n d : List ℕ)
      → has_code b',' n ≡ false
      → has_code b',' d ≡ false
      → split_on b',' (b't' ∷ b'=' ∷ (n ++ b',' ∷ b'v' ∷ b'1' ∷ b'=' ∷ d))
        ≡ (b't' ∷ b'=' ∷ n) ∷ (b'v' ∷ b'1' ∷ b'=' ∷ d) ∷ []
  split_on-signed n d one_n one_d =
      split_on_first b',' (b't' ∷ b'=' ∷ n) (b'v' ∷ b'1' ∷ b'=' ∷ d) one_n
      ∙ ap (λ l. (b't' ∷ b'=' ∷ n) ∷ l) (split_on_last b',' (b'v' ∷ b'1' ∷ b'=' ∷ d) one_d)

  -- A single digest, that of the scheme's own HMAC, within the tolerance.
  check_parsed-signed :
      (secret body n : List ℕ) (tolerance later now : ℕ)
      → prim.parse_int n ≡ some (pos now)
      → IsDigest prim (prim.hmac_hex scheme.algorithm secret (signed_payload prim (pos now) body))
      → distance later (pos now) ≤ tolerance
      → check_parsed prim scheme secret body tolerance later
          (some n)
          (prim.hmac_hex scheme.algorithm secret (signed_payload prim (pos now) body) ∷ [])
        ≡ rejected good no_detail
  unfolding check_parsed check_fresh is_hex equal
  check_parsed-signed secret body n tolerance later now read text timely =
      let d = prim.hmac_hex scheme.algorithm secret (signed_payload prim (pos now) body) in
      let fresh : (ltb 0 tolerance && ltb tolerance (distance later (pos now))) ≡ false =
        timely_fresh tolerance (distance later (pos now)) timely in
      rw
        (
          read,
          text.some_text,
          text.hex,
          fresh,
          codes_eq_refl (folded prim d),
          check_parsed,
          check_fresh,
        )
        refl

  stripe_sign_lem :
      (secret body : List ℕ) (now : ℕ)
      → stripe_sign prim scheme secret body now ≡ (
        scheme.header,
        b't'
            ∷ b'='
            ∷ (prim.print_int (pos now)
                ++ b','
                  ∷ b'v'
                  ∷ b'1'
                  ∷ b'='
                  ∷ prim.hmac_hex scheme.algorithm secret (signed_payload prim (pos now) body)),
      )
  unfolding stripe_sign
  stripe_sign_lem secret body now = refl

  -- `verify` answers good to what `sign` wrote, for the same secret and body, at any time that is no
  -- further than the tolerance from that of signing. The printed time is read back as itself, the HMAC
  -- is hexadecimal, and neither has a space or a comma; the letters of the format are no spaces.
  pub stripe_verify-stripe_sign :
      (secret body : List ℕ) (tolerance now later : ℕ) (rest : Headers)
      → IsSolid prim (b't' ∷ b'v' ∷ b'1' ∷ b'=' ∷ [])
      → IsSolid prim (prim.print_int (pos now))
      → has_code b',' (prim.print_int (pos now)) ≡ false
      → prim.parse_int (prim.print_int (pos now)) ≡ some (pos now)
      → IsDigest prim (prim.hmac_hex scheme.algorithm secret (signed_payload prim (pos now) body))
      → has_code b',' (prim.hmac_hex scheme.algorithm secret (signed_payload prim (pos now) body))
        ≡ false
      → distance later (pos now) ≤ tolerance
      → stripe_verify prim scheme secret body tolerance later none
          (stripe_sign prim scheme secret body now ∷ rest)
        ≡ rejected good no_detail
  unfolding stripe_verify read_header
  stripe_verify-stripe_sign secret body tolerance now later rest letters solid one_stamp read text
        one_digest timely =
      let n = prim.print_int (pos now) in
      let d = prim.hmac_hex scheme.algorithm secret (signed_payload prim (pos now) body) in
      rw
        (
          stripe_sign_lem secret body now,
          codes_eq_refl scheme.header,
          split_on-signed n d one_stamp one_digest,
          parse_parts-signed n d letters solid text.solid,
          stripe_verify,
        )
        (check_parsed-signed secret body n tolerance later now read text timely)
