-- ===== src/Signatures/Registry.antt =====
-- register_signature_scheme and get_signature_scheme: the dictionary `_SCHEMES`, in the order of
-- registration, and the schemes that the module registers itself.
use navigator_eventbus.Prelude.{
  ℕ, ◌≡◌, refl, inl, inr, Bool, true, false, not, ◌&&◌, Option, none, some, List, [], ◌∷◌, any_of,
  codes, codes_eq, codes_eq_refl, Result, ok, raise, if◌then◌else◌, Bool-cases,
}
use navigator_eventbus.Signatures.{SignatureCheck, Primitives, Headers, is_empty}
use navigator_eventbus.Signatures.Hex.{HexDigestScheme, hex_verify, hex_sign}
use navigator_eventbus.Signatures.Stripe.{StripeScheme, stripe_verify, stripe_sign}

-- class SignatureScheme: one of the two.
pub data SignatureScheme : Type 0 where
  hex_digest : HexDigestScheme → SignatureScheme
  stripe : StripeScheme → SignatureScheme

abbrev pub scheme_name : SignatureScheme → List ℕ
scheme_name (hex_digest s) = s.name
scheme_name (stripe s) = s.name

-- The two ValueErrors.
pub data RegisterError : Type 0 where
  no_name name_taken : RegisterError

abbrev is_called : List ℕ → SignatureScheme → Bool
is_called name s = codes_eq (scheme_name s) name

-- A scheme that replaces another keeps its place in the dictionary.
abbrev replace_scheme : SignatureScheme → List SignatureScheme → List SignatureScheme
replace_scheme s [] = s ∷ []
replace_scheme s (x ∷ xs) =
    let rest = replace_scheme s xs in if is_called (scheme_name s) x then s ∷ xs else x ∷ rest

unfoldable pub register_signature_scheme :
    SignatureScheme → Bool → List SignatureScheme → Result RegisterError (List SignatureScheme)
register_signature_scheme s replace schemes =
    if is_empty (scheme_name s)
    then raise no_name
    else if any_of (is_called (scheme_name s)) schemes && not replace
    then raise name_taken
    else ok (replace_scheme s schemes)

-- `none` is the KeyError.
unfoldable pub get_signature_scheme : List ℕ → List SignatureScheme → Option SignatureScheme
get_signature_scheme name [] = none
get_signature_scheme name (s ∷ rest) =
    let found = get_signature_scheme name rest in if is_called name s then some s else found

abbrev pub built_in : List SignatureScheme
built_in =
    hex_digest (record {
      name = codes "github";
      header = codes "X-Hub-Signature-256";
      preferred = codes "sha256";
      others = [];
      allow_bare = false;
      emit_prefix = true;
    })
    ∷ hex_digest (record {
      name = codes "jira";
      header = codes "X-Hub-Signature";
      preferred = codes "sha256";
      others = codes "sha1" ∷ [];
      allow_bare = false;
      emit_prefix = true;
    })
    ∷ hex_digest (record {
      name = codes "generic";
      header = codes "X-Webhook-Signature";
      preferred = codes "sha256";
      others = [];
      allow_bare = true;
      emit_prefix = true;
    })
    ∷ stripe (record {
      name = codes "stripe";
      header = codes "Stripe-Signature";
      algorithm = codes "sha256";
    })
    ∷ []

-- The abstract methods `verify` and `sign`, by the class of the scheme.
abbrev pub verify :
    Primitives
    → SignatureScheme
    → List ℕ
    → List ℕ
    → ℕ
    → ℕ
    → Option (List ℕ)
    → Headers
    → SignatureCheck
verify prim (hex_digest s) secret body tolerance now override headers =
    hex_verify prim s secret body override headers
verify prim (stripe s) secret body tolerance now override headers =
    stripe_verify prim s secret body tolerance now override headers

abbrev pub sign : Primitives → SignatureScheme → List ℕ → List ℕ → ℕ → List ℕ × List ℕ
sign prim (hex_digest s) secret body now = hex_sign prim s secret body
sign prim (stripe s) secret body now = stripe_sign prim s secret body now

-- A scheme that was registered is found by its name.
get_replaced :
    (s : SignatureScheme) (schemes : List SignatureScheme)
    → get_signature_scheme (scheme_name s) (replace_scheme s schemes) ≡ some s
unfolding get_signature_scheme
get_replaced s [] = rw (codes_eq_refl (scheme_name s)) refl
get_replaced s (x ∷ xs) = elim (Bool-cases (is_called (scheme_name s) x)) [
  | inl e ↦ rw (e, codes_eq_refl (scheme_name s)) refl
  | inr e ↦ rw (e, get_replaced s xs, e) refl
]

ok-inj : {A : Type 0} (a b : A) → Path (Result RegisterError A) (ok a) (ok b) → a ≡ b
ok-inj a b h = cc

-- A registration that succeeds makes the scheme the one that its name gives.
pub get_signature_scheme-register_signature_scheme :
    (s : SignatureScheme) (replace : Bool) (schemes after : List SignatureScheme)
    → register_signature_scheme s replace schemes ≡ ok after
    → get_signature_scheme (scheme_name s) after ≡ some s
unfolding register_signature_scheme
get_signature_scheme-register_signature_scheme s replace schemes after h =
    elim (Bool-cases (is_empty (scheme_name s))) [
      | inl e ↦
          let wrong : Path (Result RegisterError (List SignatureScheme)) (raise no_name)
              (ok after) =
            rw e at h in
          cc
      | inr e ↦ elim (Bool-cases (any_of (is_called (scheme_name s)) schemes && not replace)) [
        | inl f ↦
            let wrong : Path (Result RegisterError (List SignatureScheme)) (raise name_taken)
                (ok after) =
              rw (e, f) at h in
            cc
        | inr f ↦
            let same : Path (Result RegisterError (List SignatureScheme))
                (ok (replace_scheme s schemes)) (ok after) =
              rw (e, f) at h in
            rw (← ok-inj _ _ same) (get_replaced s schemes)
      ]
    ]
