-- ===== src/Queues/Holds.antt =====
-- What a consumer group says of one message that it has delivered, as long as the message is pending,
-- and how long it goes on saying so.
pub mod Loops
pub mod Receives
pub mod Replies
pub mod Calls
use navigator_eventbus.Prelude.{
  IsIn, ℕ, ◌+◌, ◌-◌, ◌≤◌, ◌≡◌, refl, sym, ap, subst, ◌∙◌, inl, inr, String, Bool, true, false,
  Option, none, some, List, map, ok,
}
use navigator_eventbus.Envelope.{Fields}
use navigator_eventbus.Keyed.Runs.Index.{true-ne-false, none-ne-some}
use navigator_eventbus.Queues.Streams.{
  Pending, Commands, IsStreams, Claim, kept, taken, trimmed, Aging, aged, Read, first,
}

-- What is said of a pending entry.
abbrev pub Of : Option Pending → (Pending → Type 0) → Type 0
Of o Φ = (p : Pending) → o ≡ some p → Φ p

some-inj : (a b : Pending) → some a ≡ some b → a ≡ b
some-inj a b h = cc

module _ (Φ : Pending → Type 0) where
  Claim-Of :
      {now min : ℕ} {a b : Option Pending}
      → Claim now min a b
      → ((p : Pending)
          → p.since + min ≤ now
          → Φ p
          → Φ (record { since = now; times = p.times + 1 }))
      → Of a Φ
      → Of b Φ
  Claim-Of kept lasts h = h
  Claim-Of (taken {p} old) lasts h = λ q e. subst Φ (some-inj _ q e) (lasts p old (h p refl))
  Claim-Of (trimmed old) lasts h = λ q e. cc

  Aging-Of :
      {now idle : ℕ} {a b : Option Pending}
      → Aging now idle a b
      → ((p : Pending) → Φ p → Φ (record { since = now - idle; times = p.times }))
      → Of a Φ
      → Of b Φ
  Aging-Of kept lasts h = h
  Aging-Of (aged {p}) lasts h = λ q e. subst Φ (some-inj _ q e) (lasts p (h p refl))
  Aging-Of trimmed lasts h = λ q e. cc

  Read-Of :
      {now : ℕ} {a c : Bool} {b d : Option Pending}
      → Read now a b c d
      → a ≡ true
      → Of b Φ
      → (c ≡ true) × Of d Φ
  Read-Of kept seen h = (seen, h)
  Read-Of first seen h = cc

module _ {R : Type 0} (cmd : Commands R) (s g j : String) (Φ : Pending → Type 0) where
  -- The message was delivered, and as long as it is pending its entry is as `Φ` says.
  abbrev pub Says : R → Type 0
  Says r = (cmd.seen r s g j ≡ true) × Of (cmd.entry r s g j) Φ

module _ {R : Type 0} (cmd : Commands R) (law : IsStreams cmd) (s g j : String)
    (Φ : Pending → Type 0) where
  pub Says-same :
      (r r' : R)
      → cmd.seen r' s g j ≡ cmd.seen r s g j
      → cmd.entry r' s g j ≡ cmd.entry r s g j
      → Says cmd s g j Φ r
      → Says cmd s g j Φ r'
  Says-same r r' same_seen same_entry h = (same_seen ∙ h.0, λ p e. h.1 p (sym same_entry ∙ e))

  pub Says-claim :
      (c : String) (min n : ℕ) (r : R)
      → ((p : Pending)
          → p.since + min ≤ cmd.now r
          → Φ p
          → Φ (record { since = cmd.now r; times = p.times + 1 }))
      → Says cmd s g j Φ r
      → Says cmd s g j Φ (cmd.xautoclaim s g c min n r).0
  Says-claim c min n r lasts h =
      (law.claim_seen s g c j min n r ∙ h.0, Claim-Of Φ (law.claim s g c j min n r) lasts h.1)

  -- A message that is not idle enough is not claimed.
  pub Says-unclaimed :
      (c : String) (min n : ℕ) (r : R) (es : List (String × Fields))
      → ((p : Pending) → p.since + min ≤ cmd.now r → Φ p → ⊥)
      → Says cmd s g j Φ r
      → (cmd.xautoclaim s g c min n r).1 ≡ ok es
      → IsIn j (map (λ e. e.0) es)
      → ⊥
  Says-unclaimed c min n r es young h reply there =
      let (p, at_p, _, old, _) = law.claim_reply s g c j min n r es reply there in
      young p old (h.1 p at_p)

  pub Says-read :
      (c : String) (n : ℕ) (wait : Option ℕ) (r : R)
      → Says cmd s g j Φ r
      → Says cmd s g j Φ (cmd.xreadgroup s g c n wait r).0
  Says-read c n wait r h = Read-Of Φ (law.read s g c j n wait r) h.0 h.1

  pub Says-unread :
      (c : String) (n : ℕ) (wait : Option ℕ) (r : R) (es : List (String × Fields))
      → Says cmd s g j Φ r
      → (cmd.xreadgroup s g c n wait r).1 ≡ ok es
      → IsIn j (map (λ e. e.0) es)
      → ⊥
  Says-unread c n wait r es h reply there =
      let (unseen, _, _) = law.read_reply s g c j n wait r es reply there in
      true-ne-false (sym h.0 ∙ unseen)

  pub Says-age :
      (c : String) (ids : List String) (idle : ℕ) (r : R)
      → ((p : Pending) → Φ p → Φ (record { since = cmd.now r - idle; times = p.times }))
      → Says cmd s g j Φ r
      → Says cmd s g j Φ (cmd.xclaim s g c ids idle r).0
  Says-age c ids idle r lasts h =
      (law.age_seen s g c j ids idle r ∙ h.0, Aging-Of Φ (law.age s g c j ids idle r) lasts h.1)

  pub Says-unaged :
      (c : String) (ids : List String) (idle : ℕ) (r : R)
      → (IsIn j ids → ⊥)
      → Says cmd s g j Φ r
      → Says cmd s g j Φ (cmd.xclaim s g c ids idle r).0
  Says-unaged c ids idle r apart h =
      Says-same r (cmd.xclaim s g c ids idle r).0 (law.age_seen s g c j ids idle r)
        (law.age_other s g c j ids idle r apart) h

  pub Says-ack : (i : String) (r : R) → Says cmd s g j Φ r → Says cmd s g j Φ (cmd.xack s g i r).0
  Says-ack i r h = (
    law.ack_seen s g i j r ∙ h.0,
    λ p e. elim (law.ack s g i j r) [
      | inl gone ↦ absurd (none-ne-some p (sym gone ∙ e))
      | inr same ↦ h.1 p (sym same ∙ e)
    ],
  )

  pub Says-create :
      (r : R) → Says cmd s g j Φ r → Says cmd s g j Φ (cmd.xgroup_create s g false r).0
  Says-create r h =
      Says-same r (cmd.xgroup_create s g false r).0 (law.create_seen s g j r)
        (law.create_entry s g j r) h
