-- ===== src/Tests/Races.antt =====
-- Calls of two goroutines at the same time.
use go_txnpure.Base.{
  pos, nat_eq, codes, bytes_Eq, lookup, ℕ, ◌≡◌, refl, true, none, List, [], ◌∷◌, arith,
}
use go_txnpure.Check.{CheckConfig, no_config}
use go_txnpure.Check.Calls.{calls_made}
use go_txnpure.Check.Race.{Event, interleave, start_all}
use go_txnpure.Check.Race.Handed.{Handed, interleave-Handed}
use go_txnpure.Classify.{default_classifier}
use go_txnpure.Detector.{new, default_detector}
use go_txnpure.Identity.{Op, key_Eq, key_of}
use go_txnpure.State.{World}
use go_txnpure.System.{run}
use go_txnpure.System.Histories.{reached}
use go_txnpure.Tests.{env, history}

abbrev get_a : Op
get_a = record { kind = codes "http"; name = codes "GET a" }

abbrev twice : CheckConfig
twice = record no_config { allowed = true; allow_counts = pos 2 ∷ [] }

abbrev call_a : Event
call_a = record { env = env; scope = 0; mark = none; op = get_a; open_now = pos 1; cfg = twice }

abbrev running : World
running = (reached [] history).world

uncalled : calls_made (key_of (codes "pay") get_a) (running.scope_at 0) ≡ pos 0
unfolding run new default_classifier lookup
uncalled = refl

abbrev in_turn : List ℕ
in_turn = 1 ∷ 0 ∷ 0 ∷ 1 ∷ 1 ∷ []

interleave-Handed_example :
    Handed
      (key_of (codes "pay") get_a)
      0
      (interleave default_detector in_turn (start_all (call_a ∷ call_a ∷ [])) running)
interleave-Handed_example =
    interleave-Handed default_detector (call_a ∷ call_a ∷ []) in_turn running
      (key_of (codes "pay") get_a) 0 (omega arith) uncalled
