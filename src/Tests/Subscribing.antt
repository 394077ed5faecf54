-- ===== src/Tests/Subscribing.antt =====
-- A glob subscription beside an exact one.
use navigator_eventbus.Prelude.{refl, [], ◌∷◌}
use navigator_eventbus.Core.{Bus}
use navigator_eventbus.Core.Options.{new_bus}
use navigator_eventbus.Core.Subscriptions.Removal.{IsUnused}
use navigator_eventbus.Tests.Samples.{flaky}

abbrev listening : Bus
listening = record new_bus {
  subscriptions = ("order.created", flaky 0 "s1" "order.created" ∷ []) ∷ [];
  pattern_subscriptions = flaky 0 "s2" "order.*" ∷ [];
}

unused : IsUnused "s3" listening
unused = record { no_exact = ((refl, tt), tt); no_glob = (refl, tt) }
