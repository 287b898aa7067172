-- ===== src/Tests/Arrivals.antt =====
-- The text of reports, and reporters that collect or log them.
use go_txnpure.Base.{
  ℤ, pos, negsuc, nat_eq, Bytes, codes, bytes_Eq, ℕ, ◌≡◌, refl, List, [], ◌∷◌, ◌++◌, arith,
}
use go_txnpure.Format.{format_int}
use go_txnpure.Report.{Violation, Report, violation, nested_scope, leaked_tx}
use go_txnpure.Report.Counts.{read_counts, read_counts-join_counts}
use go_txnpure.Report.Text.{join_counts, join_rest, violation_text, frame_text, frame_lines}
use go_txnpure.Reporter.{new_collecting, collecting, logging, throttling}
use go_txnpure.Reporter.Arrivals.{
  receive_all, Messages, receive_all-Messages, Logged, receive_all-Logged,
}
use go_txnpure.Reporter.Required.{reset}
use go_txnpure.Throttle.{new_throttle}
use go_txnpure.Throttle.Volume.{receive_timed, Recovered, receive_timed-Recovered}

abbrev in_quotes : Bytes → Bytes
in_quotes s = b'"' ∷ s ++ b'"' ∷ []

abbrev pub get_a : Violation
get_a = record {
  op = record { kind = codes "http"; name = codes "GET a" };
  scope = codes "pay";
  open_txs = pos 1;
  call = pos 3;
  allowed_calls = pos 1 ∷ pos 2 ∷ [];
  stack = record { function = codes "main.pay"; file = codes "main.go"; line = 42 } ∷ [];
  attrs = [];
  time = 5;
}

text_of_get_a :
    violation_text in_quotes get_a
    ≡ codes
        "txnpure: side effect [http] GET a ran while 1 transaction(s) were open in scope \"pay\"\n  (allowed for exactly 1, 2 in-transaction call(s), so this call is not covered)\n  at main.pay (main.go:42)"
unfolding violation_text join_counts join_rest format_int frame_lines frame_text
text_of_get_a = refl

abbrev three_counts : List ℤ
three_counts = pos 10 ∷ negsuc 6 ∷ pos 0 ∷ []

text_of_counts : join_counts three_counts ≡ codes "10, -7, 0"
unfolding join_counts join_rest format_int
text_of_counts = refl

counts_read_back : read_counts (join_counts three_counts) ≡ three_counts
counts_read_back = read_counts-join_counts three_counts

abbrev arrivals : List Report
arrivals =
    violation get_a
    ∷ nested_scope (record { outer = codes "pay"; inner = codes "mail"; time = 6 })
    ∷ violation get_a
    ∷ leaked_tx (record { scope = codes "mail"; open_txs = pos 2; time = 9 })
    ∷ []

receive_all-Messages_example :
    Messages in_quotes arrivals (receive_all 5 (collecting (reset new_collecting)) arrivals)
receive_all-Messages_example = receive_all-Messages in_quotes 5 new_collecting arrivals

log_of_run : Logged arrivals (receive_all 5 (logging []) arrivals)
log_of_run = receive_all-Logged 5 arrivals

-- Five reports of one call, of which two pass.
abbrev bursts : List (ℕ × Violation)
bursts = (5, get_a) ∷ (7, get_a) ∷ (9, get_a) ∷ (16, get_a) ∷ (17, get_a) ∷ []

receive_timed-Recovered_example :
    Recovered bursts
      (receive_timed (throttling (new_throttle (pos 10)) (collecting new_collecting)) bursts)
receive_timed-Recovered_example = receive_timed-Recovered (pos 10) bursts (omega arith)
