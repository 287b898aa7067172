-- ===== src/Report/Text.antt =====
-- reporter.go: the text of a violation and the pieces that it shares with other messages.
use go_txnpure.Base.{ℤ, nat_eq, Bytes, codes, bytes_Eq, List, [], ◌∷◌, ◌++◌, map}
use go_txnpure.Format.{itoa, format_int, concat}
use go_txnpure.Report.{Violation}
use go_txnpure.Stack.{StackFrame}

-- The rounds of joinCounts behind the first.
unfoldable pub join_rest : List ℤ → Bytes
unfolding format_int
join_rest [] = []
join_rest (c ∷ counts) = codes ", " ++ format_int c ++ join_rest counts

unfoldable pub join_counts : List ℤ → Bytes
unfolding join_rest format_int
join_counts [] = []
join_counts (c ∷ counts) = format_int c ++ join_rest counts

-- The format "%s (%s:%d)".
unfoldable pub frame_text : StackFrame → Bytes
unfolding itoa
frame_text f = concat (f.function ∷ codes " (" ∷ f.file ∷ codes ":" ∷ itoa f.line ∷ codes ")" ∷ [])

unfoldable pub stack_strings : List StackFrame → List Bytes
unfolding frame_text
stack_strings stack = map frame_text stack

-- A line of the text for each frame.
unfoldable pub frame_lines : List StackFrame → Bytes
unfolding frame_text
frame_lines [] = []
frame_lines (f ∷ stack) = codes "\n  at " ++ frame_text f ++ frame_lines stack

abbrev pub allowed_line : List ℤ → Bytes
allowed_line [] = []
allowed_line (c ∷ counts) = concat (
    codes "\n  (allowed for exactly "
    ∷ join_counts (c ∷ counts)
    ∷ codes " in-transaction call(s), so this call is not covered)"
    ∷ [])

-- `quote` is what the verb %q prints of a string.
unfoldable pub violation_text : (Bytes → Bytes) → Violation → Bytes
unfolding format_int join_counts frame_lines
violation_text quote v = concat (
    codes "txnpure: side effect ["
    ∷ v.op.kind
    ∷ codes "] "
    ∷ v.op.name
    ∷ codes " ran while "
    ∷ format_int v.open_txs
    ∷ codes " transaction(s) were open in scope "
    ∷ quote v.scope
    ∷ allowed_line v.allowed_calls
    ∷ frame_lines v.stack
    ∷ [])
