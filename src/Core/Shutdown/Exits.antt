-- ===== src/Core/Shutdown/Exits.antt =====
-- The shutdown lets every worker return, and counts what it gives up.
use navigator_eventbus.Prelude.{
  ℕ, zero, suc, ◌+◌, ◌≤◌, ◌≡◌, refl, ap, ◌∙◌, String, true, none, arith,
}
use navigator_eventbus.Envelope.{EventEnvelope, Fields}
use navigator_eventbus.Core.{Config, Bus, Fresh}
use navigator_eventbus.Core.Queueing.{pop_next, publish_meta}
use navigator_eventbus.Core.Queueing.Bounds.{IsBounded, publish_meta-IsBounded}
use navigator_eventbus.Core.Workers.{
  System, Step, acquires, takes, waits_again, exits, wake, dispatching, exiting, spurious,
}
use navigator_eventbus.Core.Shutdown.{pending, give_up, release, stop_workers}

wake_exiting : (b : Bus) → pop_next b.queues ≡ none → b.stopping ≡ true → wake b ≡ exiting
unfolding wake
wake_exiting b empty stopped = rw (empty, stopped, wake) refl

pub release_lem :
    (n : ℕ) (b : Bus)
    → ((release n b).permits ≡ b.permits + n)
      × ((release n b).queues ≡ b.queues)
      × ((release n b).stopping ≡ b.stopping)
release_lem zero b = (omega arith, refl, refl)
release_lem (suc n) b =
    let (p, q, s) = release_lem n (record b { permits = b.permits + 1 }) in (omega (arith, p), q, s)

module _ (cfg : Config) (fresh : Fresh) where
  -- The steps that a worker makes.
  pub data IsWorkerStep {s t : System} : Step cfg fresh s t → Type 0 where
    acquired :
        (n : ℕ) (h : s.bus.permits ≡ suc n)
        (eq : t ≡ record s { bus = record s.bus { permits = n }; awake = s.awake + 1 })
        → IsWorkerStep (acquires n h eq)
    took :
        (n : ℕ) (e : EventEnvelope) (b : Bus) (a : s.awake ≡ suc n)
        (h : wake s.bus ≡ dispatching e b) (eq : t ≡ record s { bus = b; awake = n })
        → IsWorkerStep (takes n e b a h eq)
    waited :
        (n : ℕ) (a : s.awake ≡ suc n) (h : wake s.bus ≡ spurious) (eq : t ≡ record s { awake = n })
        → IsWorkerStep (waits_again n a h eq)
    returned :
        (n : ℕ) (a : s.awake ≡ suc n) (h : wake s.bus ≡ exiting)
        (eq : t ≡ record s { awake = n; exited = s.exited + 1 })
        → IsWorkerStep (exits n a h eq)

  -- A run in which only the workers act.
  pub data WorkerRun (s : System) : System → Type 0 where
    here : WorkerRun s s
    next :
        {t u : System} → WorkerRun s t → (st : Step cfg fresh t u) → IsWorkerStep st → WorkerRun s u

  -- A bus that is drained and stopping, with the number of its permits, of its workers that are
  -- awake and of those that have returned.
  record IsEnding (total : ℕ) (t : System) : Type 0 where
    empty : pop_next t.bus.queues ≡ none
    stopped : t.bus.stopping ≡ true
    counted : t.bus.permits + t.awake + t.exited ≡ total

  not_dispatching :
      (b : Bus) (e : EventEnvelope) (c : Bus) → wake b ≡ exiting → wake b ≡ dispatching e c → ⊥
  not_dispatching b e c h k = cc

  not_spurious : (b : Bus) → wake b ≡ exiting → wake b ≡ spurious → ⊥
  not_spurious b h k = cc

  Step-IsEnding :
      (total : ℕ) {t u : System} (st : Step cfg fresh t u)
      → IsWorkerStep st
      → IsEnding total t
      → IsEnding total u
  Step-IsEnding total st (acquired n h eq) i =
      rw eq (record { empty = i.empty; stopped = i.stopped; counted = omega (arith, h, i.counted) })
  Step-IsEnding total {t} st (took n e b a h eq) i =
      absurd (not_dispatching t.bus e b (wake_exiting t.bus i.empty i.stopped) h)
  Step-IsEnding total {t} st (waited n a h eq) i =
      absurd (not_spurious t.bus (wake_exiting t.bus i.empty i.stopped) h)
  Step-IsEnding total st (returned n a h eq) i =
      rw eq (record { empty = i.empty; stopped = i.stopped; counted = omega (arith, a, i.counted) })

  WorkerRun-IsEnding :
      (total : ℕ) {s t : System} → WorkerRun s t → IsEnding total s → IsEnding total t
  WorkerRun-IsEnding total here i = i
  WorkerRun-IsEnding total (next r st w) i = Step-IsEnding total st w (WorkerRun-IsEnding total r i)

  -- The workers that are awake return one after the other.
  exit_awake :
      (n total : ℕ) (from t : System)
      → WorkerRun from t
      → t.awake ≡ n
      → IsEnding total t
      → (u : System) × WorkerRun from u × (u.awake ≡ 0) × IsEnding total u
  exit_awake zero total from t r h i = (t, r, h, i)
  exit_awake (suc n) total from t r h i =
      let st : Step cfg fresh t (record t { awake = n; exited = t.exited + 1 }) =
        exits n h (wake_exiting t.bus i.empty i.stopped) refl in
      let w : IsWorkerStep st = returned n h _ refl in
      exit_awake n total from (record t { awake = n; exited = t.exited + 1 }) (next r st w) refl
        (Step-IsEnding total st w i)

  -- Each permit wakes one more.
  exit_waiting :
      (n total : ℕ) (from t : System)
      → WorkerRun from t
      → t.bus.permits ≡ n
      → t.awake ≡ 0
      → IsEnding total t
      → (u : System) × WorkerRun from u × (u.exited ≡ total)
  exit_waiting zero total from t r h none_awake i = (t, r, omega (arith, i.counted))
  exit_waiting (suc n) total from t r h none_awake i =
      let up = record t { bus = record t.bus { permits = n }; awake = t.awake + 1 } in
      let down = record up { awake = 0; exited = t.exited + 1 } in
      let first : Step cfg fresh t up = acquires n h refl in
      let woken : IsWorkerStep first = acquired n h refl in
      let j = Step-IsEnding total first woken i in
      let second : Step cfg fresh up down =
        exits 0 (omega (arith, none_awake)) (wake_exiting up.bus j.empty j.stopped) refl in
      let gone : IsWorkerStep second = returned 0 _ _ refl in
      exit_waiting n total from down (next (next r first woken) second gone) refl refl
        (Step-IsEnding total second gone j)

  -- When `close` stops the workers of a drained bus, then whatever the workers have done since, and
  -- nobody else has acted, they can go on by themselves until as many have returned as there are
  -- workers: the permits that `close` releases are enough.
  pub stop_workers-exits :
      (s t : System)
      → pop_next s.bus.queues ≡ none
      → WorkerRun (record s { bus = stop_workers cfg s.bus }) t
      → (u : System) × WorkerRun t u × (s.exited + cfg.workers ≤ u.exited)
  unfolding stop_workers
  stop_workers-exits s t empty run =
      let (permits, queues, flag) = release_lem cfg.workers (record s.bus { stopping = true }) in
      let total = s.bus.permits + cfg.workers + s.awake + s.exited in
      let i = WorkerRun-IsEnding total run (record {
        empty = ap pop_next queues ∙ empty;
        stopped = flag;
        counted = omega (arith, permits);
      }) in
      let (v, there, asleep, j) = exit_awake t.awake total t t here refl i in
      let (u, gone, count) = exit_waiting v.bus.permits total t v there refl asleep j in
      (u, gone, omega (arith, count))

  dropped-publish_meta :
      (topic : String) (payload : Fields) (b : Bus)
      → (publish_meta cfg fresh topic payload b).dropped_on_close ≡ b.dropped_on_close
  unfolding publish_meta
  dropped-publish_meta topic payload b = ground arith

  -- Giving up the drain adds the number of queued envelopes to `dropped_on_close`, and the
  -- meta-event that tells of it keeps the queues within their size.
  pub give_up_lem :
      (deadline : ℕ) (b : Bus)
      → IsBounded cfg b.queues
      → ((give_up cfg fresh deadline b).dropped_on_close ≡ b.dropped_on_close + pending b.queues)
        × IsBounded cfg (give_up cfg fresh deadline b).queues
  unfolding give_up
  give_up_lem deadline b h =
      let counted = record b { dropped_on_close = b.dropped_on_close + pending b.queues } in
      (dropped-publish_meta _ _ counted, publish_meta-IsBounded cfg fresh _ _ counted h)
