-- ===== src/Tests/Allowed.antt =====
-- Declared counts and the tiers.
use go_txnpure.Base.{
  ◌==◌, any, pos, nat_eq, codes, bytes_Eq, lookup, ◌+◌, ◌≡◌, refl, true, false, ◌&&◌, ◌||◌, none,
  List, [], ◌∷◌, arith,
}
use go_txnpure.Allow.{falls_short}
use go_txnpure.Allow.Counts.{contains_count, covers_calls}
use go_txnpure.Allow.Coverage.{reaches, is_nil, covers_calls-reaches, declared_total}
use go_txnpure.Allow.{bumped}
use go_txnpure.Allowlist.{any_scope}
use go_txnpure.Allowlist.Usage.{Asked, decide_all, uses, marked, decide_all-marked}
use go_txnpure.State.{Allowlist}
use go_txnpure.Check.Numbering.{repeat, repeat-reported}
use go_txnpure.Classify.{default_classifier}
use go_txnpure.Detector.{new}
use go_txnpure.System.{run}
use go_txnpure.Check.{CheckConfig, decide_and_report}
use go_txnpure.Check.Reported.{reported, decide_and_report-reported}
use go_txnpure.Check.Tiers.{tiers}
use go_txnpure.Check.Calls.{calls_made, one_more, decide_and_report-calls_made}
use go_txnpure.Identity.{key_eq}
use go_txnpure.Identity.{key_of, key_Eq}
use go_txnpure.Detector.{default_detector}
use go_txnpure.Identity.{Op}
use go_txnpure.System.Histories.{reached}
use go_txnpure.Tests.{env, history}

covers_calls-reaches_example :
    covers_calls (pos 1 ∷ pos 3 ∷ []) (pos 2)
    ≡ (is_nil (pos 1 ∷ pos 3 ∷ []) || reaches (pos 1 ∷ pos 3 ∷ []) (pos 2))
covers_calls-reaches_example = covers_calls-reaches (pos 1 ∷ pos 3 ∷ []) 1

declared_total_example :
    (covers_calls (pos 1 ∷ pos 3 ∷ []) (pos 2) ≡ true)
    × (falls_short (pos 1 ∷ pos 3 ∷ []) (pos 3) ≡ false)
declared_total_example =
    declared_total (pos 1 ∷ pos 3 ∷ []) 3 1 (unfold contains_count in refl) (omega arith)

abbrev limited : CheckConfig
limited = record {
  allowed = true;
  allow_reason = codes "audit";
  allow_counts = pos 1 ∷ [];
  attrs = [];
}

abbrev get_a : Op
get_a = record { kind = codes "http"; name = codes "GET a" }

decide_and_report-reported_example :
    (decide_and_report default_detector env 0 none get_a
      (pos 1)
      limited
      (reached [] history).world).reporters
    ≡ reported default_detector env 0 get_a
        (pos 1)
        (bumped
          (key_of ((reached [] history).world.scope_at 0).name get_a)
          ((reached [] history).world.scope_at 0)).n
        []
        (tiers
          (reached [] history).world
          0
          none
          get_a
          (bumped
            (key_of ((reached [] history).world.scope_at 0).name get_a)
            ((reached [] history).world.scope_at 0)).n
          limited)
        (reached [] history).world
decide_and_report-reported_example =
    decide_and_report-reported default_detector env 0 none get_a (pos 1) limited
      (reached [] history).world

decide_and_report-calls_made_example :
    calls_made (key_of (codes "pay") get_a) (
      (decide_and_report default_detector env 0 none get_a
          (pos 1)
          limited
          (reached [] history).world).scope_at
        0)
    ≡ one_more
        ((0 == 0)
          && key_eq
              (key_of ((reached [] history).world.scope_at 0).name get_a)
              (key_of (codes "pay") get_a))
        (calls_made (key_of (codes "pay") get_a) ((reached [] history).world.scope_at 0))
decide_and_report-calls_made_example =
    decide_and_report-calls_made default_detector env 0 none get_a (pos 1) limited
      (reached [] history).world (key_of (codes "pay") get_a) 0

-- One entry for any scope that covers one call, and two calls of its operation.
abbrev listing : Allowlist
listing = record {
  entries =
      (key_of any_scope get_a, record { reason = []; counts = pos 1 ∷ []; used = false }) ∷ [];
}

abbrev asked : List Asked
asked =
    record { scope = codes "pay"; op = get_a; call = pos 2 }
    ∷ record { scope = codes "pay"; op = get_a; call = pos 1 }
    ∷ []

decide_all-marked_example :
    lookup (key_of any_scope get_a) (decide_all listing asked).entries
    ≡ marked
        (any (uses listing (key_of any_scope get_a)) asked)
        (lookup (key_of any_scope get_a) listing.entries)
decide_all-marked_example = decide_all-marked listing asked (key_of any_scope get_a)

get_a_uncalled :
    calls_made
      (key_of ((reached [] history).world.scope_at 0).name get_a)
      ((reached [] history).world.scope_at 0)
    ≡ pos 0
unfolding run new default_classifier lookup
get_a_uncalled = refl

repeat-reported_example :
    (decide_and_report default_detector env 0 none get_a (pos 1) limited (
      repeat default_detector env 0 none get_a
        (pos 1)
        limited
        2
        (reached [] history).world)).reporters
    ≡ reported default_detector env 0 get_a
        (pos 1)
        (pos (2 + 1))
        limited.attrs
        (tiers
          (repeat default_detector env 0 none get_a (pos 1) limited 2 (reached [] history).world)
          0
          none
          get_a
          (pos (2 + 1))
          limited)
        (repeat default_detector env 0 none get_a (pos 1) limited 2 (reached [] history).world)
repeat-reported_example =
    repeat-reported default_detector env 0 none get_a (pos 1) limited (reached [] history).world 2
      (omega arith) get_a_uncalled
