-- ===== src/Signatures/Hex/Checks.antt =====
-- What a HexDigestScheme accepts, and that it accepts what it signs.
use navigator_eventbus.Prelude.{
  ℕ, ◌≡◌, refl, ap, ◌∙◌, ◌⊎◌, inl, inr, arith, true, false, ◌||◌, Option, none, some, List, [], ◌∷◌,
  ◌++◌, codes_eq_refl, codes_eq_sound, has_code, All, All-append, Bool-cases, Option-cases,
}
use navigator_eventbus.Signatures.{
  no_detail, good, missing, malformed, mismatch, Primitives, Headers, is_empty, partition, strip,
  strip_left, strip_right, is_hex, folded, equal, read_header,
}
use navigator_eventbus.Signatures.Hex.{
  HexDigestScheme, is_one_of, rejected, check_digest, check_value, hex_verify, hex_sign,
}

module _ (prim : Primitives) where
  -- No character of it is a space.
  abbrev pub IsSolid : List ℕ → Type 0
  IsSolid s = All (λ x. prim.is_space x ≡ false) s

  strip_left_solid : (s : List ℕ) → IsSolid s → strip_left prim s ≡ s
  unfolding strip_left
  strip_left_solid [] h = refl
  strip_left_solid (x ∷ s) h = rw h.0 refl

  strip_right_solid : (s : List ℕ) → IsSolid s → strip_right prim s ≡ s
  unfolding strip_right
  strip_right_solid [] h = refl
  strip_right_solid (x ∷ []) h = rw h.0 refl
  strip_right_solid (x ∷ y ∷ s) h = rw (strip_right_solid (y ∷ s) h.1) refl

  pub strip_solid : (s : List ℕ) → IsSolid s → strip prim s ≡ s
  unfolding strip
  strip_solid s h = ap (strip_right prim) (strip_left_solid s h) ∙ strip_right_solid s h

  -- The name of an algorithm, and a digest as it is printed.
  pub record IsName (a : List ℕ) : Type 0 where
    pub solid : IsSolid a
    pub one_name : has_code b'=' a ≡ false
    pub lower_case : prim.lower a ≡ a

  pub record IsDigest (d : List ℕ) : Type 0 where
    pub solid : IsSolid d
    pub one_part : has_code b'=' d ≡ false
    pub some_text : is_empty d ≡ false
    pub hex : prim.parses_hex d ≡ true

pub partition_at :
    (c : ℕ) (s t : List ℕ) → has_code c s ≡ false → partition c (s ++ c ∷ t) ≡ (s, true, t)
unfolding partition
partition_at c [] t h = ground arith
partition_at c (x ∷ s) t h = ground (arith, partition_at c s t)

partition_none : (c : ℕ) (s : List ℕ) → has_code c s ≡ false → partition c s ≡ (s, false, [])
unfolding partition
partition_none c [] h = refl
partition_none c (x ∷ s) h = ground (arith, partition_none c s)

is_empty_append : (s : List ℕ) (c : ℕ) (t : List ℕ) → is_empty (s ++ c ∷ t) ≡ false
is_empty_append [] c t = refl
is_empty_append (x ∷ s) c t = refl

module _ (prim : Primitives) (scheme : HexDigestScheme) where
  check_digest-accepts :
      (secret body algo digest : List ℕ)
      → (check_digest prim scheme secret body algo digest).verdict ≡ good
      → (is_hex prim (strip prim digest) ≡ true)
        × (folded prim (prim.hmac_hex algo secret body) ≡ folded prim (strip prim digest))
  unfolding check_digest equal
  check_digest-accepts secret body algo digest h =
      elim (Bool-cases (is_hex prim (strip prim digest))) [
        | inr e ↦ let wrong : malformed ≡ good = rw (e, check_digest) at h in cc
        | inl e ↦
            elim (Bool-cases (equal prim (prim.hmac_hex algo secret body) (strip prim digest))) [
              | inl f ↦ (e, codes_eq_sound _ _ f)
              | inr f ↦ let wrong : mismatch ≡ good = rw (e, f, check_digest) at h in cc
            ]
      ]

  -- How the algorithm and the digest stand in the value of the header.
  abbrev pub IsWritten : List ℕ → List ℕ → List ℕ → Type 0
  IsWritten raw algo digest =
      ((before : List ℕ) × (partition b'=' (strip prim raw) ≡ (before, true, digest))
        × (algo ≡ prim.lower (strip prim before)))
      ⊎ ((scheme.allow_bare ≡ true) × (algo ≡ scheme.preferred) × (digest ≡ strip prim raw))

  check_value-accepts :
      (secret body raw : List ℕ)
      → (check_value prim scheme secret body raw).verdict ≡ good
      → (algo : List ℕ) × (digest : List ℕ) × IsWritten raw algo digest
        × (is_one_of (scheme.preferred ∷ scheme.others) algo ≡ true)
        × (folded prim (prim.hmac_hex algo secret body) ≡ folded prim (strip prim digest))
  unfolding check_value check_digest
  check_value-accepts secret body raw h =
      let parts = partition b'=' (strip prim raw) in
      let algo = prim.lower (strip prim parts.0) in
      elim (Bool-cases parts.1) [
        | inl e ↦ elim (Bool-cases (is_one_of (scheme.preferred ∷ scheme.others) algo)) [
          | inl f ↦
              let (hex, same) =
                check_digest-accepts secret body algo parts.2 (rw (e, f, check_value) at h) in
              (algo, parts.2, inl (parts.0, ap (λ b. (parts.0, b, parts.2)) e, refl), f, same)
          | inr f ↦ let wrong : malformed ≡ good = rw (e, f, check_value) at h in cc
        ]
        | inr e ↦ elim (Bool-cases scheme.allow_bare) [
          | inl f ↦
              let (hex, same) =
                check_digest-accepts secret body scheme.preferred (strip prim raw)
                  (rw (e, f, check_value) at h) in
              (
                scheme.preferred,
                strip prim raw,
                inr (f, refl, refl),
                rw (codes_eq_refl scheme.preferred) refl,
                same,
              )
          | inr f ↦ let wrong : malformed ≡ good = rw (e, f, check_value) at h in cc
        ]
      ]

  -- The digest of the scheme's own HMAC.
  check_digest-signed :
      (secret body : List ℕ)
      → IsDigest prim (prim.hmac_hex scheme.preferred secret body)
      → check_digest prim scheme secret body scheme.preferred
          (prim.hmac_hex scheme.preferred secret body)
        ≡ rejected good no_detail
  unfolding check_digest is_hex equal
  check_digest-signed secret body text =
      let digest = prim.hmac_hex scheme.preferred secret body in
      rw
        (
          strip_solid prim digest text.solid,
          text.some_text,
          text.hex,
          codes_eq_refl (folded prim digest),
        )
        refl

  check_value-signed :
      (secret body : List ℕ)
      → prim.is_space b'=' ≡ false
      → IsName prim scheme.preferred
      → IsDigest prim (prim.hmac_hex scheme.preferred secret body)
      → (scheme.emit_prefix || scheme.allow_bare) ≡ true
      → check_value prim scheme secret body (hex_sign prim scheme secret body).1
        ≡ rejected good no_detail
  unfolding check_value hex_sign check_digest
  check_value-signed secret body sign name text h =
      let digest = prim.hmac_hex scheme.preferred secret body in
      let algo = scheme.preferred in
      let whole : IsSolid prim (algo ++ b'=' ∷ digest) =
        All-append (λ x. prim.is_space x ≡ false) algo (b'=' ∷ digest) name.solid
          (sign, text.solid) in
      elim (Bool-cases scheme.emit_prefix) [
        | inl e ↦
            rw
              (
                e,
                strip_solid prim (algo ++ b'=' ∷ digest) whole,
                partition_at b'=' algo digest name.one_name,
                strip_solid prim algo name.solid,
                name.lower_case,
                codes_eq_refl algo,
              )
              (check_digest-signed secret body text)
        | inr e ↦
            let bare : scheme.allow_bare ≡ true = rw e at h in
            rw
              (
                e,
                strip_solid prim digest text.solid,
                partition_none b'=' digest text.one_part,
                bare,
              )
              (check_digest-signed secret body text)
      ]

  signed_value :
      (secret body : List ℕ)
      → IsDigest prim (prim.hmac_hex scheme.preferred secret body)
      → is_empty (hex_sign prim scheme secret body).1 ≡ false
  unfolding hex_sign
  signed_value secret body text = elim (Bool-cases scheme.emit_prefix) [
    | inl e ↦
        rw e (is_empty_append scheme.preferred b'=' (prim.hmac_hex scheme.preferred secret body))
    | inr e ↦ rw e text.some_text
  ]

  -- Where `verify` answers good, the header has a value, and the algorithm and digest written in it are
  -- one that the scheme permits and, up to letter case and spaces around it, the HMAC of the body
  -- under that algorithm. A bare digest is read only where the scheme allows it.
  pub hex_verify-accepts :
      (secret body : List ℕ) (override : Option (List ℕ)) (headers : Headers)
      → (hex_verify prim scheme secret body override headers).verdict ≡ good
      → (raw : List ℕ) × (algo : List ℕ) × (digest : List ℕ) × (read_header prim scheme.header
            override headers
          ≡ some raw)
        × IsWritten raw algo digest
        × (is_one_of (scheme.preferred ∷ scheme.others) algo ≡ true)
        × (folded prim (prim.hmac_hex algo secret body) ≡ folded prim (strip prim digest))
  unfolding hex_verify
  hex_verify-accepts secret body override headers h =
      elim (Option-cases (read_header prim scheme.header override headers)) [
        | inl e ↦ let wrong : missing ≡ good = rw (e, hex_verify) at h in cc
        | inr (raw, e) ↦ elim (Bool-cases (is_empty raw)) [
          | inl f ↦ let wrong : missing ≡ good = rw (e, f, hex_verify) at h in cc
          | inr f ↦
              let (algo, digest, written, known, same) =
                check_value-accepts secret body raw (rw (e, f, hex_verify) at h) in
              (raw, algo, digest, e, written, known, same)
        ]
      ]

  -- `verify` answers good to what `sign` wrote, for the same secret and body, if the scheme emits the
  -- prefix or allows a bare digest. The name of the algorithm is in lower case, neither it nor the HMAC
  -- has a space or an equals sign, and the HMAC is hexadecimal.
  pub hex_verify-hex_sign :
      (secret body : List ℕ) (rest : Headers)
      → prim.is_space b'=' ≡ false
      → IsName prim scheme.preferred
      → IsDigest prim (prim.hmac_hex scheme.preferred secret body)
      → (scheme.emit_prefix || scheme.allow_bare) ≡ true
      → hex_verify prim scheme secret body none (hex_sign prim scheme secret body ∷ rest)
        ≡ rejected good no_detail
  unfolding hex_verify read_header hex_sign
  hex_verify-hex_sign secret body rest sign name text h =
      let value = (hex_sign prim scheme secret body).1 in
      let some_value = signed_value secret body text in
      rw (codes_eq_refl scheme.header, some_value) (check_value-signed secret body sign name text h)
