-- ===== src/Tests/Totals.antt =====
-- Two calls from a call site that declares one call or three.
use go_txnpure.Base.{pos, nat_eq, codes, bytes_Eq, ◌≡◌, refl, none, [], ◌∷◌, arith}
use go_txnpure.Check.Undeclared.{Told, calls_of-Told}
use go_txnpure.Classify.{default_classifier}
use go_txnpure.Detector.{new, default_detector}
use go_txnpure.Identity.{Op, key_Eq}
use go_txnpure.State.{World}
use go_txnpure.System.{run}
use go_txnpure.System.Histories.{reached}
use go_txnpure.Tests.{env, history}

abbrev get_a : Op
get_a = record { kind = codes "http"; name = codes "GET a" }

abbrev paying : World
paying = (reached [] history).world

nothing_counted : (paying.scope_at 0).calls ≡ []
unfolding run new default_classifier
nothing_counted = refl

no_region : (paying.scope_at 0).marks ≡ []
unfolding run new default_classifier
no_region = refl

no_list : paying.allowlist ≡ none
unfolding run new default_classifier
no_list = refl

calls_of-Told_example :
    Told (codes "audit") (pos 1) (pos 3 ∷ []) [] default_detector env 0 get_a (pos 1) 1 env paying
calls_of-Told_example =
    calls_of-Told (codes "audit") (pos 1) (pos 3 ∷ []) [] default_detector env 0 get_a (pos 1) 1 env
      paying (omega arith) no_list nothing_counted no_region
