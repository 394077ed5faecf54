-- ===== src/Signatures/Hex.antt =====
-- class HexDigestScheme.
pub mod Checks
use navigator_eventbus.Prelude.{
  ℕ, Bool, true, false, not, Option, none, some, List, [], ◌∷◌, ◌++◌, any_of, codes, codes_eq,
  Result, ok, raise, if◌then◌else◌,
}
use navigator_eventbus.Signatures.{
  SignatureVerdict, good, missing, malformed, mismatch, Detail, no_detail, unsupported_alg,
  missing_alg_prefix, not_hex, SignatureCheck, Primitives, Headers, is_empty, partition, strip,
  is_hex, equal, read_header,
}

-- The algorithms are the preferred one and the others.
pub record HexDigestScheme : Type 0 where
  pub name : List ℕ
  pub header : List ℕ
  pub preferred : List ℕ
  pub others : List (List ℕ)
  pub allow_bare : Bool
  pub emit_prefix : Bool

-- The two ValueErrors of the constructor.
pub data SchemeError : Type 0 where
  unknown_algorithm no_algorithm : SchemeError

abbrev pub known_algorithms : List (List ℕ)
known_algorithms = codes "sha1" ∷ codes "sha256" ∷ codes "sha512" ∷ []

abbrev pub is_one_of : List (List ℕ) → List ℕ → Bool
is_one_of names algo = any_of (λ n. codes_eq n algo) names

unfoldable pub hex_digest_scheme :
    List ℕ → List ℕ → List (List ℕ) → Bool → Bool → Result SchemeError HexDigestScheme
hex_digest_scheme name header [] allow_bare emit_prefix = raise no_algorithm
hex_digest_scheme name header (algo ∷ algos) allow_bare emit_prefix =
    if any_of (λ a. not (is_one_of known_algorithms a)) (algo ∷ algos)
    then raise unknown_algorithm
    else ok (record {
      name = name;
      header = header;
      preferred = algo;
      others = algos;
      allow_bare = allow_bare;
      emit_prefix = emit_prefix;
    })

abbrev pub rejected : SignatureVerdict → Detail → SignatureCheck
rejected verdict detail = record { verdict = verdict; detail = detail }

module _ (prim : Primitives) (scheme : HexDigestScheme) where
  -- With the algorithm and the digest of the header.
  unfoldable pub check_digest : List ℕ → List ℕ → List ℕ → List ℕ → SignatureCheck
  check_digest secret body algo digest =
      let stripped = strip prim digest in
      if is_hex prim stripped
      then (if equal prim (prim.hmac_hex algo secret body) stripped
          then rejected good no_detail
          else rejected mismatch no_detail)
      else rejected malformed not_hex

  -- With the value of the header.
  unfoldable pub check_value : List ℕ → List ℕ → List ℕ → SignatureCheck
  check_value secret body raw =
      let stripped = strip prim raw in
      let (before, found, digest) = partition b'=' stripped in
      let algo = prim.lower (strip prim before) in
      if found
      then (if is_one_of (scheme.preferred ∷ scheme.others) algo
          then check_digest secret body algo digest
          else rejected malformed unsupported_alg)
      else (if scheme.allow_bare
          then check_digest secret body scheme.preferred stripped
          else rejected malformed missing_alg_prefix)

  -- HexDigestScheme.verify
  unfoldable pub hex_verify : List ℕ → List ℕ → Option (List ℕ) → Headers → SignatureCheck
  hex_verify secret body override headers = elim (read_header prim scheme.header override headers) [
    | none ↦ rejected missing no_detail
    | some raw ↦ if is_empty raw then rejected missing no_detail else check_value secret body raw
  ]

  -- HexDigestScheme.sign: the header and its value.
  unfoldable pub hex_sign : List ℕ → List ℕ → List ℕ × List ℕ
  hex_sign secret body =
      let digest = prim.hmac_hex scheme.preferred secret body in
      (scheme.header, if scheme.emit_prefix then scheme.preferred ++ b'=' ∷ digest else digest)
