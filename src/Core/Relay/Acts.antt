-- ===== src/Core/Relay/Acts.antt =====
-- Sequences of calls of a SqliteOutbox by the bus, which acknowledge only what the backend took.
use navigator_eventbus.Prelude.{
  ℕ, ◌≡◌, refl, sym, ap, ◌∙◌, ◌⊎◌, inl, inr, String, Option, none, List, [], ◌∷◌, ◌++◌, length, ◌≤◌,
  IsIn,
}
use navigator_eventbus.Envelope.{EventEnvelope}
use navigator_eventbus.Core.Relay.{Link, Outside}
use navigator_eventbus.Outbox.{Limits, Store, Call, acking, call, calls}

-- After its first `from` publishes, the backend was given an envelope of this id and did not refuse it.
pub record IsTaken (world : Outside) (from : ℕ) (k : String) (published : List EventEnvelope)
    : Type 0 where
  pub before : List EventEnvelope
  pub envelope : EventEnvelope
  pub later : List EventEnvelope
  pub stands : published ≡ before ++ envelope ∷ later
  pub of_id : envelope.event_id ≡ k
  pub fresh : from ≤ length before
  pub accepted : world.refuses (length before) envelope ≡ none

append_assoc : {A : Type 0} (xs ys zs : List A) → (xs ++ ys) ++ zs ≡ xs ++ (ys ++ zs)
append_assoc [] ys zs = refl
append_assoc (x ∷ xs) ys zs = ap (λ l. x ∷ l) (append_assoc xs ys zs)

pub append_nil : {A : Type 0} (xs : List A) → xs ++ [] ≡ xs
append_nil [] = refl
append_nil (x ∷ xs) = ap (λ l. x ∷ l) (append_nil xs)

IsTaken-append :
    (world : Outside) (from : ℕ) (k : String) (l m : List EventEnvelope)
    → IsTaken world from k l
    → IsTaken world from k (l ++ m)
IsTaken-append world from k l m t = record {
  before = t.before;
  envelope = t.envelope;
  later = t.later ++ m;
  stands = ap (λ x. x ++ m) t.stands ∙ append_assoc t.before (t.envelope ∷ t.later) m;
  of_id = t.of_id;
  fresh = t.fresh;
  accepted = t.accepted;
}

IsIn-append : {A : Type 0} (x : A) (xs ys : List A) → IsIn x (xs ++ ys) → IsIn x xs ⊎ IsIn x ys
IsIn-append x [] ys h = inr h
IsIn-append x (y ∷ xs) ys (inl e) = inl (inl e)
IsIn-append x (y ∷ xs) ys (inr h) = elim (IsIn-append x xs ys h) [
  | inl f ↦ inl (inr f)
  | inr f ↦ inr f
]

module _ {W : Type 0} (world : Outside) (lim : Limits) (decode : W → Option EventEnvelope) where
  calls_append :
      (cs ds : List (Call W)) (s : Store W)
      → calls lim decode (cs ++ ds) s ≡ calls lim decode ds (calls lim decode cs s)
  unfolding calls
  calls_append [] ds s = refl
  calls_append (c ∷ cs) ds s = calls_append cs ds (call lim decode c s)

  -- From one state of the bus to another, by calls of the store.
  pub record Acts (from : ℕ) (s t : Link (Store W)) : Type 0 where
    pub made : List (Call W)
    pub outbox_is : t.outbox ≡ calls lim decode made s.outbox
    pub more : List EventEnvelope
    pub published_is : t.published ≡ s.published ++ more
    pub only_taken : (k : String) → IsIn (acking k) made → IsTaken world from k t.published

  -- Neither the store nor the backend is touched.
  pub Acts-same :
      (from : ℕ) (s t : Link (Store W))
      → t.outbox ≡ s.outbox
      → t.published ≡ s.published
      → Acts from s t
  unfolding calls
  Acts-same from s t same_store same_published = record {
    made = [];
    outbox_is = same_store;
    more = [];
    published_is = same_published ∙ sym (append_nil s.published);
    only_taken = λ k h. absurd h;
  }

  pub Acts-trans :
      {from : ℕ} {s t u : Link (Store W)} → Acts from s t → Acts from t u → Acts from s u
  Acts-trans {from = from} {s = s} {t = t} {u = u} v w = record {
    made = v.made ++ w.made;
    outbox_is =
        w.outbox_is
        ∙ ap (calls lim decode w.made) v.outbox_is
        ∙ sym (calls_append v.made w.made s.outbox);
    more = v.more ++ w.more;
    published_is =
        w.published_is
        ∙ ap (λ l. l ++ w.more) v.published_is
        ∙ append_assoc s.published v.more w.more;
    only_taken = λ k h. elim (IsIn-append (acking k) v.made w.made h) [
      | inl e ↦
          rw w.published_is (IsTaken-append world from k t.published w.more (v.only_taken k e))
      | inr e ↦ w.only_taken k e
    ];
  }
