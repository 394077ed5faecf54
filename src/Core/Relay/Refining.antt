-- ===== src/Core/Relay/Refining.antt =====
-- What the bus does to a SqliteOutbox: each operation of the bus is a sequence of the store's calls,
-- and it acknowledges only what the backend took.
use navigator_eventbus.Prelude.{
  ℕ, ◌+◌, ◌<◌, ◌≡◌, refl, sym, ap, ◌⊎◌, inl, inr, String, Bool, true, false, Option, some, List, [],
  ◌∷◌, ◌++◌, ◌==◌, eq_iff, arith, length, length-append, ◌≤◌, IsIn, All, Bool-cases, Option-cases,
}
use navigator_eventbus.Envelope.{EventEnvelope}
use navigator_eventbus.Core.{Config, Error}
use navigator_eventbus.Core.Fanout.{has}
use navigator_eventbus.Core.Relay.{
  Link, Outside, outbox_ack, outbox_nack, discard, backend_publish, retrying, relay_rows, refresh,
  relay_once,
}
use navigator_eventbus.Core.Relay.Sqlite.{sqlite_store}
use navigator_eventbus.Outbox.Reading.{Leaves, losses, calls-accounts}
use navigator_eventbus.Outbox.{
  Limits, Store, Call, acking, nacking, reading, appending, call, calls, has_id, due,
}
use navigator_eventbus.Core.Relay.Acts.{IsTaken, Acts, Acts-same, Acts-trans, append_nil}

acking-inj : {W : Type 0} (k j : String) → Path (Call W) (acking k) (acking j) → k ≡ j
acking-inj k j h = cc

acking-ne-nacking :
    {W : Type 0} (k j error : String) (next : ℕ)
    → Path (Call W) (acking k) (nacking j error next)
    → ⊥
acking-ne-nacking k j error next h = cc

acking-ne-reading :
    {W : Type 0} (k : String) (now limit : ℕ) → Path (Call W) (acking k) (reading now limit) → ⊥
acking-ne-reading k now limit h = cc

-- The link once the backend has raised.
abbrev failed : {W : Type 0} → EventEnvelope → Link (Store W) → Link (Store W)
failed e s = record s {
  published = s.published ++ e ∷ [];
  stats = record s.stats { backend_failures = s.stats.backend_failures + 1 };
}

module _ {W : Type 0} (cfg : Config) (world : Outside) (lim : Limits) (encode : EventEnvelope → W)
    (decode : W → Option EventEnvelope) (from : ℕ) where
  outbox_nack-Acts :
      (e : EventEnvelope) (exc : Error) (s : Link (Store W))
      → Acts world lim decode from s
          (outbox_nack cfg (some (sqlite_store lim encode decode)) world e exc s)
  unfolding outbox_nack calls call
  outbox_nack-Acts e exc s = elim (Bool-cases (has e.event_id s.inflight)) [
    | inr f ↦ rw (f, outbox_nack) (Acts-same world lim decode from s s refl refl)
    | inl f ↦
        rw (f, outbox_nack)
          (record {
            made = nacking e.event_id exc.type_name _ ∷ [];
            outbox_is = refl;
            more = [];
            published_is = sym (append_nil s.published);
            only_taken = λ k h. elim h [
              | inl g ↦ absurd (acking-ne-nacking k e.event_id exc.type_name _ g)
              | inr g ↦ absurd g
            ];
          })
  ]

  outbox_ack-Acts :
      (e : EventEnvelope) (s : Link (Store W))
      → IsTaken world from e.event_id s.published
      → Acts world lim decode from s
          (outbox_ack cfg (some (sqlite_store lim encode decode)) world e s)
  unfolding outbox_ack calls call
  outbox_ack-Acts e s taken = elim (Bool-cases (has e.event_id s.inflight)) [
    | inr f ↦ rw (f, outbox_ack) (Acts-same world lim decode from s s refl refl)
    | inl f ↦
        rw (f, outbox_ack)
          (record {
            made = acking e.event_id ∷ [];
            outbox_is = refl;
            more = [];
            published_is = sym (append_nil s.published);
            only_taken = λ k h. elim h [
              | inl g ↦ rw (acking-inj k e.event_id g) (record {
                before = taken.before;
                envelope = taken.envelope;
                later = taken.later;
                stands = taken.stands;
                of_id = taken.of_id;
                fresh = taken.fresh;
                accepted = taken.accepted;
              })
              | inr g ↦ absurd g
            ];
          })
  ]

  -- The envelope is handed to the backend.
  gives-Acts :
      (e : EventEnvelope) (s t : Link (Store W))
      → t.outbox ≡ s.outbox
      → t.published ≡ s.published ++ e ∷ []
      → Acts world lim decode from s t
  unfolding calls
  gives-Acts e s t same given = record {
    made = [];
    outbox_is = same;
    more = e ∷ [];
    published_is = given;
    only_taken = λ k h. absurd h;
  }

  discard-Acts :
      (e : EventEnvelope) (s : Link (Store W))
      → Acts world lim decode from s (discard cfg (some (sqlite_store lim encode decode)) world e s)
  unfolding discard
  discard-Acts e s = Acts-same world lim decode from s _ refl refl

  pub backend_publish-Acts :
      (e : EventEnvelope) (s : Link (Store W))
      → from ≤ length s.published
      → Acts world lim decode from s
          (backend_publish cfg (some (sqlite_store lim encode decode)) world e s).1
  unfolding backend_publish
  backend_publish-Acts e s long = elim (Option-cases (world.refuses (length s.published) e)) [
    | inr (exc, f) ↦
        rw (f, backend_publish)
          (Acts-trans world lim decode (gives-Acts e s (failed e s) refl refl) (
            Acts-trans world lim decode (outbox_nack-Acts e exc (failed e s)) (
              discard-Acts e (
                outbox_nack cfg (some (sqlite_store lim encode decode)) world e exc (failed e s)))))
    | inl f ↦
        rw (f, backend_publish)
          (Acts-trans world lim decode
            (gives-Acts e s (record s { published = s.published ++ e ∷ [] }) refl refl)
            (Acts-trans world lim decode
              (outbox_ack-Acts e (record s { published = s.published ++ e ∷ [] })
                (record {
                  before = s.published;
                  envelope = e;
                  later = [];
                  stands = refl;
                  of_id = refl;
                  fresh = long;
                  accepted = f;
                }))
              (discard-Acts e _)))
  ]

  relay_rows-Acts :
      (es : List EventEnvelope) (s : Link (Store W))
      → from ≤ length s.published
      → Acts world lim decode from s
          (relay_rows cfg (some (sqlite_store lim encode decode)) world es s)
  unfolding relay_rows retrying
  relay_rows-Acts [] s long = Acts-same world lim decode from s s refl refl
  relay_rows-Acts (e ∷ es) s long = elim (Bool-cases (has e.event_id s.inflight)) [
    | inl f ↦ rw (f, relay_rows) (relay_rows-Acts es s long)
    | inr f ↦
        let tried = retrying cfg (some (sqlite_store lim encode decode)) world e s in
        let after = backend_publish cfg (some (sqlite_store lim encode decode)) world e tried in
        let one : Acts world lim decode from s after.1 =
          Acts-trans world lim decode (Acts-same world lim decode from s tried refl refl)
            (backend_publish-Acts e tried long) in
        let longer : from ≤ length after.1.published =
          rw one.published_is (omega (arith, long, length-append s.published one.more)) in
        elim (Bool-cases after.0) [
          | inl g ↦
              rw (f, g, relay_rows)
                (Acts-trans world lim decode one (relay_rows-Acts es after.1 longer))
          | inr g ↦ rw (f, g, relay_rows) one
        ]
  ]

  pub relay_once-Acts :
      (has_backend : Bool) (s : Link (Store W))
      → from ≤ length s.published
      → Acts world lim decode from s
          (relay_once cfg (some (sqlite_store lim encode decode)) world has_backend s)
  unfolding relay_once refresh calls call
  relay_once-Acts false s long = Acts-same world lim decode from s s refl refl
  relay_once-Acts true s long =
      let now = world.clock s.readings in
      let rows = due lim decode now cfg.relay_batch s.outbox in
      let t = record s { outbox = rows.1; readings = s.readings + 1 } in
      Acts-trans world lim decode
        (record {
          made = reading now cfg.relay_batch ∷ [];
          outbox_is = refl;
          more = [];
          published_is = sym (append_nil s.published);
          only_taken = λ k h. elim h [
            | inl g ↦ absurd (acking-ne-reading k now cfg.relay_batch g)
            | inr g ↦ absurd g
          ];
        })
        (Acts-trans world lim decode (relay_rows-Acts rows.0 t long)
          (Acts-same world lim decode from _ _ refl refl))

-- Either nothing acknowledges an id, or something does.
Leaves-or-acks :
    {W : Type 0} (k : String) (cs : List (Call W)) → All (Leaves k) cs ⊎ IsIn (acking k) cs
Leaves-or-acks k [] = inl tt
Leaves-or-acks k (acking j ∷ cs) = elim (Bool-cases (j == k)) [
  | inl e ↦ inr (inl (ap acking (sym ((eq_iff j k).0 e))))
  | inr e ↦ elim (Leaves-or-acks k cs) [ inl f ↦ inl (e, f) | inr f ↦ inr (inr f) ]
]
Leaves-or-acks k (appending j w now ∷ cs) = elim (Leaves-or-acks k cs) [
  | inl f ↦ inl (tt, f)
  | inr f ↦ inr (inr f)
]
Leaves-or-acks k (nacking j error next ∷ cs) = elim (Leaves-or-acks k cs) [
  | inl f ↦ inl (tt, f)
  | inr f ↦ inr (inr f)
]
Leaves-or-acks k (reading now limit ∷ cs) = elim (Leaves-or-acks k cs) [
  | inl f ↦ inl (tt, f)
  | inr f ↦ inr (inr f)
]

module _ {W : Type 0} (cfg : Config) (world : Outside) (lim : Limits) (encode : EventEnvelope → W)
    (decode : W → Option EventEnvelope) where
  -- A relay pass over a SqliteOutbox changes it by calls of the store only. An envelope that is in the
  -- store before the pass is there after it, or the backend was given an envelope of its id in this
  -- pass and did not refuse it, or one of the counters `expired`, `dropped` and `corrupt` has grown.
  pub relay_once-refines :
      (has_backend : Bool) (s : Link (Store W)) (k : String)
      → has_id k s.outbox.rows ≡ true
      → let t = relay_once cfg (some (sqlite_store lim encode decode)) world has_backend s in
        ((made : List (Call W)) × (t.outbox ≡ calls lim decode made s.outbox))
        × ((has_id k t.outbox.rows ≡ true)
            ⊎ (losses s.outbox < losses t.outbox)
            ⊎ IsTaken world (length s.published) k t.published)
  relay_once-refines has_backend s k there =
      let acts =
        relay_once-Acts cfg world lim encode decode (length s.published) has_backend s
          (omega arith) in
      (
        (acts.made, acts.outbox_is),
        elim (Leaves-or-acks k acts.made) [
          | inr acked ↦ inr (inr (acts.only_taken k acked))
          | inl kept ↦ elim (calls-accounts lim decode k acts.made s.outbox kept there) [
            | inl still ↦ inl (rw acts.outbox_is still)
            | inr lost ↦ inr (inl (rw acts.outbox_is lost))
          ]
        ],
      )
