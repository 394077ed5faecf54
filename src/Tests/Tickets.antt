-- ===== src/Tests/Tickets.antt =====
-- A toy base64 that shifts every code past the dot, and a toy MAC that appends the key.
use navigator_eventbus.Prelude.{
  split_on, ℕ, ◌+◌, ◌-◌, ◌≤◌, ◌≡◌, refl, ap, true, false, some, List, [], ◌∷◌, ◌++◌, map, arith,
  has_code, codes, ok, raise,
}
use navigator_eventbus.Prelude.Int.{pos, negsuc}
use navigator_eventbus.Receipts.{
  Receipt, ReceiptCodec, Primitives, receipt_codec, negative_grace, no_key, handle_version, matched,
  parse_claims, encode, decode,
}
use navigator_eventbus.Receipts.Handles.{decode-encode, decode-accepts}

abbrev ticket : Receipt
ticket = record {
  queue = "jobs";
  group = "g";
  stream = "evb:jobs";
  message_id = "1-0";
  consumer = "c";
  delivered = 1;
  expires_at_ms = 1000;
}

abbrev toy : Primitives
toy = record {
  b64 = λ l. map (λ n. n + 47) l;
  unb64 = λ l. some (map (λ n. n - 47) l);
  hmac = λ key text. text ++ key;
  dumps = λ r. 123 ∷ 125 ∷ [];
  loads = λ raw. some ticket;
}

unshift : (l : List ℕ) → map (λ n. n - 47) (map (λ n. n + 47) l) ≡ l
unshift [] = refl
unshift (x ∷ l) = ground (arith, unshift l)

undo : (l : List ℕ) → toy.unb64 (toy.b64 l) ≡ some l
undo l = ap (λ m. some m) (unshift l)

no_dot : (l : List ℕ) → has_code b'.' (toy.b64 l) ≡ false
no_dot [] = refl
no_dot (x ∷ l) = ground (arith, no_dot l)

-- The key that signed is the second one now.
abbrev rotated : ReceiptCodec
rotated = record { keys = codes "new" ∷ codes "old" ∷ []; grace_ms = 5 }

decode-encode_example :
    decode toy rotated (encode toy (codes "old") ticket) "jobs" "g" 1005 ≡ ok ticket
decode-encode_example =
    decode-encode toy rotated (codes "old") 1005 ticket undo no_dot refl refl (omega arith)

decode-accepts_example :
    (body : List ℕ) × (signature : List ℕ) × (received : List ℕ) × (split_on b'.'
        (encode toy (codes "old") ticket)
      ≡ handle_version ∷ body ∷ signature ∷ [])
    × (toy.unb64 signature ≡ some received)
    × (matched toy rotated.keys body received ≡ true)
    × (parse_claims toy body ≡ some ticket)
    × (ticket.queue ≡ "jobs")
    × (ticket.group ≡ "g")
    × (1005 ≤ ticket.expires_at_ms + rotated.grace_ms)
decode-accepts_example =
    decode-accepts toy rotated (encode toy (codes "old") ticket) "jobs" "g" 1005 ticket
      (decode-encode toy rotated (codes "old") 1005 ticket undo no_dot refl refl (omega arith))

refused_options :
    (receipt_codec [] (pos 0) ≡ raise no_key)
    × (receipt_codec (codes "k" ∷ []) (negsuc 0) ≡ raise negative_grace)
unfolding receipt_codec
refused_options = (refl, refl)
