-- ===== src/Receipts/Handles.antt =====
-- Which handles a codec accepts.
use navigator_eventbus.Prelude.{
  ℕ, ◌+◌, ◌≤◌, ◌≡◌, refl, ap, ◌∙◌, inl, inr, String, true, false, Option, none, some, List, [], ◌∷◌,
  ◌++◌, eq_refl, eq_iff, arith, any_of, has_code, codes_eq, codes_eq_refl, codes_eq_sound, split_on,
  split_on_first, split_on_last, ok, raise, Bool-cases, if◌then◌else◌,
}
use navigator_eventbus.Receipts.{
  Receipt, bad_signature, ReceiptCodec, Primitives, handle_version, signed_part, encode, matched,
  check_claims, parse_claims, check_signature, check_parts, decode,
}

module _ (prim : Primitives) where
  check_claims_ok :
      (codec : ReceiptCodec) (now_ms : ℕ) (r : Receipt)
      → now_ms ≤ r.expires_at_ms + codec.grace_ms
      → check_claims prim codec r.queue r.group now_ms (some r) ≡ ok r
  unfolding check_claims
  check_claims_ok codec now_ms r h = ground (arith, eq_refl r.queue, eq_refl r.group)

  parse_claims_ok :
      (r : Receipt)
      → prim.unb64 (prim.b64 (prim.dumps r)) ≡ some (prim.dumps r)
      → prim.loads (prim.dumps r) ≡ some r
      → parse_claims prim (prim.b64 (prim.dumps r)) ≡ some r
  parse_claims_ok r undo read = rw (undo, parse_claims) read

  split_on-encode :
      (key : List ℕ) (r : Receipt)
      → ((x : List ℕ) → has_code b'.' (prim.b64 x) ≡ false)
      → split_on b'.' (encode prim key r)
        ≡ handle_version
          ∷ prim.b64 (prim.dumps r)
          ∷ prim.b64 (prim.hmac key (signed_part prim (prim.b64 (prim.dumps r))))
          ∷ []
  unfolding encode
  split_on-encode key r no_dot =
      let body = prim.b64 (prim.dumps r) in
      let signature = prim.b64 (prim.hmac key (signed_part prim body)) in
      split_on_first b'.' handle_version (body ++ b'.' ∷ signature) refl
      ∙ ap (λ l. handle_version ∷ l)
          (split_on_first b'.' body signature (no_dot (prim.dumps r))
            ∙ ap (λ l. body ∷ l) (split_on_last b'.' signature (no_dot _)))

  matched_known :
      (keys : List (List ℕ)) (key body : List ℕ)
      → any_of (λ k. codes_eq k key) keys ≡ true
      → matched prim keys body (prim.hmac key (signed_part prim body)) ≡ true
  matched_known [] key body h = cc
  matched_known (k ∷ ks) key body h = elim (Bool-cases (codes_eq k key)) [
    | inl e ↦
        let same = ap (λ l. prim.hmac l (signed_part prim body)) (codes_eq_sound k key e) in
        rw same (rw (codes_eq_refl (prim.hmac key (signed_part prim body))) refl)
    | inr e ↦ ground (arith, matched_known ks key body)
  ]

  -- A handle that was minted with a key is accepted by every codec that has this key, in whatever
  -- place, for the queue and the group of the receipt and up to its expiry and the grace; it gives
  -- the receipt back. Base64 can be undone and writes no dot, and the claims of the receipt can be
  -- read back from JSON.
  pub decode-encode :
      (codec : ReceiptCodec) (key : List ℕ) (now_ms : ℕ) (r : Receipt)
      → ((x : List ℕ) → prim.unb64 (prim.b64 x) ≡ some x)
      → ((x : List ℕ) → has_code b'.' (prim.b64 x) ≡ false)
      → prim.loads (prim.dumps r) ≡ some r
      → any_of (λ k. codes_eq k key) codec.keys ≡ true
      → now_ms ≤ r.expires_at_ms + codec.grace_ms
      → decode prim codec (encode prim key r) r.queue r.group now_ms ≡ ok r
  unfolding decode check_parts check_signature
  decode-encode codec key now_ms r undo no_dot read known fresh =
      let body = prim.b64 (prim.dumps r) in
      let mac = prim.hmac key (signed_part prim body) in
      let parts = split_on-encode key r no_dot in
      let good = matched_known codec.keys key body known in
      let parsed = parse_claims_ok r (undo (prim.dumps r)) read in
      ap (check_parts prim codec r.queue r.group now_ms) parts
      ∙ ap (check_signature prim codec r.queue r.group now_ms body) (undo mac)
      ∙ ap
          (λ b.
            if b
            then check_claims prim codec r.queue r.group now_ms (parse_claims prim body)
            else raise bad_signature)
          good
      ∙ ap (check_claims prim codec r.queue r.group now_ms) parsed
      ∙ check_claims_ok codec now_ms r fresh

  module _ (codec : ReceiptCodec) (queue group : String) (now_ms : ℕ) (r : Receipt) where
    claims_accepted :
        (o : Option Receipt)
        → check_claims prim codec queue group now_ms o ≡ ok r
        → (o ≡ some r)
          × (r.queue ≡ queue)
          × (r.group ≡ group)
          × (now_ms ≤ r.expires_at_ms + codec.grace_ms)
    unfolding check_claims
    claims_accepted none h = cc
    claims_accepted (some x) h = ground (arith, eq_iff x.queue queue, eq_iff x.group group)

    signature_accepted :
        (body : List ℕ) (o : Option (List ℕ))
        → check_signature prim codec queue group now_ms body o ≡ ok r
        → (received : List ℕ) × (o ≡ some received)
          × (matched prim codec.keys body received ≡ true)
          × (check_claims prim codec queue group now_ms (parse_claims prim body) ≡ ok r)
    unfolding check_signature
    signature_accepted body none h = cc
    signature_accepted body (some received) h =
        elim (Bool-cases (matched prim codec.keys body received)) [
          | inl e ↦ (received, refl, e, rw e at h)
          | inr e ↦ absurd (ground arith)
        ]

    parts_accepted :
        (ps : List (List ℕ))
        → check_parts prim codec queue group now_ms ps ≡ ok r
        → (body : List ℕ) × (signature : List ℕ) × (ps ≡ handle_version ∷ body ∷ signature ∷ [])
          × (check_signature prim codec queue group now_ms body (prim.unb64 signature) ≡ ok r)
    unfolding check_parts
    parts_accepted (version ∷ body ∷ signature ∷ []) h =
        elim (Bool-cases (codes_eq version handle_version)) [
          | inl e ↦ (
            body,
            signature,
            ap (λ v. v ∷ body ∷ signature ∷ []) (codes_eq_sound version handle_version e),
            rw e at h,
          )
          | inr e ↦ absurd (ground arith)
        ]
    parts_accepted [] h = cc
    parts_accepted (a ∷ []) h = cc
    parts_accepted (a ∷ b ∷ []) h = cc
    parts_accepted (a ∷ b ∷ c ∷ d ∷ l) h = cc

  -- Whatever handle a codec accepts has three parts, the last of which is the MAC of the second under
  -- one of the codec's keys; the receipt is the one that the second part holds, it is for the queue
  -- and the group of the request, and it has not expired by more than the grace.
  pub decode-accepts :
      (codec : ReceiptCodec) (handle : List ℕ) (queue group : String) (now_ms : ℕ) (r : Receipt)
      → decode prim codec handle queue group now_ms ≡ ok r
      → (body : List ℕ) × (signature : List ℕ) × (received : List ℕ) × (split_on b'.' handle
          ≡ handle_version ∷ body ∷ signature ∷ [])
        × (prim.unb64 signature ≡ some received)
        × (matched prim codec.keys body received ≡ true)
        × (parse_claims prim body ≡ some r)
        × (r.queue ≡ queue)
        × (r.group ≡ group)
        × (now_ms ≤ r.expires_at_ms + codec.grace_ms)
  unfolding decode
  decode-accepts codec handle queue group now_ms r h =
      let (body, signature, parts, signed) =
        parts_accepted codec queue group now_ms r (split_on b'.' handle) h in
      let (received, undone, good, checked) =
        signature_accepted codec queue group now_ms r body (prim.unb64 signature) signed in
      let (parsed, same_queue, same_group, fresh) =
        claims_accepted codec queue group now_ms r (parse_claims prim body) checked in
      (body, signature, received, parts, undone, good, parsed, same_queue, same_group, fresh)
