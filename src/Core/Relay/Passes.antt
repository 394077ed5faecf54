-- ===== src/Core/Relay/Passes.antt =====
-- What a pass of the relay does to the envelopes in flight, to the backend and to the counters.
use navigator_eventbus.Prelude.{
  ℕ, ◌+◌, ◌≤◌, ◌≡◌, refl, sym, ap, ◌∙◌, subst, inl, inr, String, true, false, Option, none, some,
  List, [], ◌∷◌, ◌++◌, eq_refl, arith, length, length-append, Bool-cases, Option-cases,
}
use navigator_eventbus.Envelope.{EventEnvelope}
use navigator_eventbus.Core.{Config, Error}
use navigator_eventbus.Core.Fanout.{has}
use navigator_eventbus.Core.Relay.{
  OutboxStore, Link, Outside, set_add, set_discard, outbox_ack, outbox_nack, discard,
  backend_publish, retrying, relay_rows, refresh, relay_once,
}

discard_absent : (k : String) (l : List String) → has k l ≡ false → set_discard k l ≡ l
discard_absent k [] h = refl
discard_absent k (x ∷ xs) h = ground (arith, discard_absent k xs)

discard_added : (k : String) (l : List String) → has k l ≡ false → set_discard k (set_add k l) ≡ l
discard_added k l h = ground (arith, discard_absent k l h, eq_refl k)

module _ {S : Type 0} where
  -- What a part of a pass leaves as it was, and its counts of publishes and failures.
  record Paced (s t : Link S) (tries failures : ℕ) : Type 0 where
    same_inflight : t.inflight ≡ s.inflight
    given : length t.published ≡ length s.published + tries
    retried : t.stats.outbox_retried ≡ s.stats.outbox_retried + tries
    failed : t.stats.backend_failures ≡ s.stats.backend_failures + failures

  -- The acknowledgement and the retry of a row touch none of those.
  record Same (s t : Link S) : Type 0 where
    inflight : t.inflight ≡ s.inflight
    published : t.published ≡ s.published
    retried : t.stats.outbox_retried ≡ s.stats.outbox_retried
    failures : t.stats.backend_failures ≡ s.stats.backend_failures

  Same-refl : (s : Link S) → Same s s
  Same-refl s = record { inflight = refl; published = refl; retried = refl; failures = refl }

  Paced-trans :
      {s t u : Link S} {n m f g : ℕ} → Paced s t n f → Paced t u m g → Paced s u (n + m) (f + g)
  Paced-trans a b = record {
    same_inflight = b.same_inflight ∙ a.same_inflight;
    given = omega (arith, a.given, b.given);
    retried = omega (arith, a.retried, b.retried);
    failed = omega (arith, a.failed, b.failed);
  }

module _ {S : Type 0} (cfg : Config) (o : OutboxStore S) (world : Outside) where
  outbox_ack-Same : (e : EventEnvelope) (s : Link S) → Same s (outbox_ack cfg (some o) world e s)
  unfolding outbox_ack
  outbox_ack-Same e s = elim (Bool-cases (has e.event_id s.inflight)) [
    | inl there ↦ elim (Option-cases (o.ack e.event_id s.outbox).0) [
      | inl fine ↦
          rw (there, fine)
            (record { inflight = refl; published = refl; retried = refl; failures = refl })
      | inr (exc, bad) ↦
          rw (there, bad)
            (record { inflight = refl; published = refl; retried = refl; failures = refl })
    ]
    | inr absent ↦ rw absent (Same-refl s)
  ]

  outbox_nack-Same :
      (e : EventEnvelope) (exc : Error) (s : Link S)
      → Same s (outbox_nack cfg (some o) world e exc s)
  unfolding outbox_nack
  outbox_nack-Same e exc s = elim (Bool-cases (has e.event_id s.inflight)) [
    | inl there ↦
        rw there (record { inflight = refl; published = refl; retried = refl; failures = refl })
    | inr absent ↦ rw absent (Same-refl s)
  ]

  refresh-Same : (s : Link S) → Same s (refresh cfg (some o) world o s)
  unfolding refresh
  refresh-Same s = elim (Option-cases (o.pending s.outbox)) [
    | inl failed ↦ rw (failed, refresh) (Same-refl s)
    | inr (n, read) ↦
        rw (read, refresh)
          (record { inflight = refl; published = refl; retried = refl; failures = refl })
  ]

  backend_publish_confirmed :
      (e : EventEnvelope) (s : Link S)
      → world.refuses (length s.published) e ≡ none
      → backend_publish cfg (some o) world e s ≡ (
        true,
        discard cfg
            (some o)
            world
            e
            (outbox_ack cfg (some o) world e (record s { published = s.published ++ e ∷ [] })),
      )
  unfolding backend_publish
  backend_publish_confirmed e s h = rw (h, backend_publish) refl

  backend_publish_refused :
      (e : EventEnvelope) (s : Link S) (exc : Error)
      → world.refuses (length s.published) e ≡ some exc
      → backend_publish cfg (some o) world e s ≡ (
        false,
        discard cfg (some o) world e (
            outbox_nack cfg (some o) world e exc (record s {
              published = s.published ++ e ∷ [];
              stats = record s.stats { backend_failures = s.stats.backend_failures + 1 };
            })),
      )
  unfolding backend_publish
  backend_publish_refused e s exc h = rw (h, backend_publish) refl

  rows_skipped :
      (e : EventEnvelope) (es : List EventEnvelope) (s : Link S)
      → has e.event_id s.inflight ≡ true
      → relay_rows cfg (some o) world (e ∷ es) s ≡ relay_rows cfg (some o) world es s
  unfolding relay_rows
  rows_skipped e es s h = rw (h, relay_rows) refl

  rows_confirmed :
      (e : EventEnvelope) (es : List EventEnvelope) (s t : Link S)
      → has e.event_id s.inflight ≡ false
      → backend_publish cfg (some o) world e (retrying cfg (some o) world e s) ≡ (true, t)
      → relay_rows cfg (some o) world (e ∷ es) s ≡ relay_rows cfg (some o) world es t
  unfolding relay_rows
  rows_confirmed e es s t h okay =
      rw (h, okay, relay_rows) (ap (λ p. relay_rows cfg (some o) world es p.1) okay)

  rows_refused :
      (e : EventEnvelope) (es : List EventEnvelope) (s t : Link S)
      → has e.event_id s.inflight ≡ false
      → backend_publish cfg (some o) world e (retrying cfg (some o) world e s) ≡ (false, t)
      → relay_rows cfg (some o) world (e ∷ es) s ≡ t
  unfolding relay_rows
  rows_refused e es s t h bad = rw (h, bad, relay_rows) (ap (λ p. p.1) bad)

  -- One retry, by how the backend answers.
  retry_confirmed :
      (e : EventEnvelope) (s t : Link S)
      → has e.event_id s.inflight ≡ false
      → Same (record (retrying cfg (some o) world e s) { published = s.published ++ e ∷ [] }) t
      → Paced s (discard cfg (some o) world e t) 1 0
  unfolding retrying discard
  retry_confirmed e s t h same = record {
    same_inflight =
        ap (set_discard e.event_id) same.inflight ∙ discard_added e.event_id s.inflight h;
    given = ap length same.published ∙ length-append s.published (e ∷ []);
    retried = same.retried;
    failed = omega (arith, same.failures);
  }

  retry_refused :
      (e : EventEnvelope) (s t : Link S)
      → has e.event_id s.inflight ≡ false
      → Same
          (record (retrying cfg (some o) world e s) {
            published = s.published ++ e ∷ [];
            stats = record (retrying cfg (some o) world e s).stats {
              backend_failures = s.stats.backend_failures + 1;
            };
          })
          t
      → Paced s (discard cfg (some o) world e t) 1 1
  unfolding retrying discard
  retry_refused e s t h same = record {
    same_inflight =
        ap (set_discard e.event_id) same.inflight ∙ discard_added e.event_id s.inflight h;
    given = ap length same.published ∙ length-append s.published (e ∷ []);
    retried = same.retried;
    failed = same.failures;
  }

  relay_rows-Paced :
      (es : List EventEnvelope) (s : Link S)
      → (tries : ℕ) × (failures : ℕ) × (failures ≤ 1)
        × Paced s (relay_rows cfg (some o) world es s) tries failures
  relay_rows-Paced [] s =
      unfold relay_rows in
      (
        0,
        0,
        omega arith,
        record {
          same_inflight = refl;
          given = omega arith;
          retried = omega arith;
          failed = omega arith;
        },
      )
  relay_rows-Paced (e ∷ es) s = elim (Bool-cases (has e.event_id s.inflight)) [
    | inl there ↦
        subst (λ t. (n : ℕ) × (f : ℕ) × (f ≤ 1) × Paced s t n f) (sym (rows_skipped e es s there))
          (relay_rows-Paced es s)
    | inr absent ↦
        let r = retrying cfg (some o) world e s in
        elim (Option-cases (world.refuses (length r.published) e)) [
          | inl fine ↦
              let t =
                outbox_ack cfg (some o) world e (record r { published = r.published ++ e ∷ [] }) in
              let u = discard cfg (some o) world e t in
              let a = retry_confirmed e s t absent (unfold retrying in outbox_ack-Same e _) in
              let (n, f, le, b) = relay_rows-Paced es u in
              subst (λ t. (n : ℕ) × (f : ℕ) × (f ≤ 1) × Paced s t n f)
                (sym (rows_confirmed e es s u absent (backend_publish_confirmed e r fine)))
                (1 + n, 0 + f, omega (arith, le), Paced-trans a b)
          | inr (exc, bad) ↦
              let t = outbox_nack cfg (some o) world e exc (record r {
                published = r.published ++ e ∷ [];
                stats = record r.stats { backend_failures = r.stats.backend_failures + 1 };
              }) in
              let u = discard cfg (some o) world e t in
              subst (λ t. (n : ℕ) × (f : ℕ) × (f ≤ 1) × Paced s t n f)
                (sym (rows_refused e es s u absent (backend_publish_refused e r exc bad)))
                (
                  1,
                  1,
                  omega arith,
                  retry_refused e s t absent (unfold retrying in outbox_nack-Same e exc _),
                )
        ]
  ]

  relay_rows_of :
      (rows : Option (List EventEnvelope)) (t : Link S)
      → (tries : ℕ) × (failures : ℕ) × (failures ≤ 1)
        × Paced t
            (elim rows [ none ↦ t | some l ↦ relay_rows cfg (some o) world l t ])
            tries
            failures
  relay_rows_of none t = (
    0,
    0,
    omega arith,
    record {
      same_inflight = refl;
      given = omega arith;
      retried = omega arith;
      failed = omega arith;
    },
  )
  relay_rows_of (some l) t = relay_rows-Paced l t

  -- After a pass of the relay, the same envelopes are in flight as before: none is left behind. At
  -- most one publish of the pass failed, since the first failure ends it, and the backend was given
  -- an envelope as often as `outbox_retried` grew.
  pub relay_once-Paced :
      (s : Link S)
      → let t = relay_once cfg (some o) world true s in
        (t.inflight ≡ s.inflight)
        × (t.stats.backend_failures ≤ s.stats.backend_failures + 1)
        × (length t.published + s.stats.outbox_retried
            ≡ length s.published + t.stats.outbox_retried)
  unfolding relay_once
  relay_once-Paced s =
      let (rows, left) = o.due (world.clock s.readings) cfg.relay_batch s.outbox in
      let t = record s { outbox = left; readings = s.readings + 1 } in
      let u = elim rows as (λ x. Link S) [
        | none ↦ t
        | some l ↦ relay_rows cfg (some o) world l t
      ] in
      let (n, f, le, p) = relay_rows_of rows t in
      let r = refresh-Same u in
      (
        r.inflight ∙ p.same_inflight,
        omega (arith, r.failures, p.failed, le),
        omega (arith, ap length r.published, p.given, r.retried, p.retried),
      )
