-- ===== src/Tests/Ledgers.antt =====
-- The ledger of a history, and the end of its transactions.
use go_txnpure.Base.{
  length, pos, nat_eq, Bytes, codes, bytes_Eq, count, ◌≤◌, ◌≡◌, refl, [], ◌∷◌, ◌++◌, arith,
}
use go_txnpure.Classify.{default_classifier}
use go_txnpure.Classify.Ends.{Stripped, strip_leading-Stripped}
use go_txnpure.Classify.Scan.{
  strip_loop, strip_leading, strip_round, skip_blanks, is_blank, has_prefix, index_byte, index,
}
use go_txnpure.Detector.{new}
use go_txnpure.System.Counters.{counters}
use go_txnpure.System.Histories.{reached}
use go_txnpure.System.Ledger.{idle, held_in, ledger_run, new_ledger, is_in_scope, ledger_of}
use go_txnpure.System.Quiet.{end_all, reached-end_all}
use go_txnpure.System.Refines.{reached-ledger_run}
use go_txnpure.System.{run}
use go_txnpure.Tests.{env, history}

held : (ledger_run default_classifier new_ledger history).holdings ≡ held_in 0 ∷ idle ∷ []
unfolding default_classifier
held = refl

reached-ledger_run_example :
    (ledger_of (reached [] history) ≡ ledger_run (new []).0.classify new_ledger history)
    × (counters (reached [] history).world 0
        ≡ pos (count (is_in_scope 0) (ledger_run (new []).0.classify new_ledger history).holdings))
reached-ledger_run_example = reached-ledger_run [] history 0 (omega arith)

two_sessions : length (reached [] history).sessions ≤ 2
unfolding run new default_classifier
two_sessions = omega arith

reached-end_all_example : counters (reached [] (history ++ end_all env 2)).world 0 ≡ pos 0
reached-end_all_example = reached-end_all [] history env 2 0 two_sessions (omega arith)

abbrev commented : Bytes
commented = codes " -- a\n/* b */ COMMIT"

stripped : strip_leading commented ≡ codes "COMMIT"
unfolding strip_leading strip_loop strip_round skip_blanks is_blank has_prefix index_byte index
stripped = refl

strip_leading-Stripped_example :
    (strip_loop 40 commented ≡ strip_leading commented) × Stripped (strip_leading commented)
strip_leading-Stripped_example = strip_leading-Stripped commented 40 (omega arith)
