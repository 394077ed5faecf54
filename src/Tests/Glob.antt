-- ===== src/Tests/Glob.antt =====
-- Patterns as the subscriptions of the bus write them.
use navigator_eventbus.Prelude.{◌≡◌, refl, true, false}
use navigator_eventbus.Glob.{fnmatch}

patterns :
    (fnmatch "order.created" "order.*" ≡ true)
    × (fnmatch "order" "order.*" ≡ false)
    × (fnmatch "order.created" "*.cr?ated" ≡ true)
    × (fnmatch "a-" "[!a-c]-" ≡ false)
    × (fnmatch "d" "[!a-c]" ≡ true)
    × (fnmatch "[x" "[x" ≡ true)
unfolding fnmatch
patterns = (refl, refl, refl, refl, refl, refl)
