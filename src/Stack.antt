-- ===== src/Stack.antt =====
-- stack.go: the captured stack.
pub mod Capture
use go_txnpure.Base.{
  leb, if◌then◌else◌, length, ℤ, pos, pos_part, leb_ℤ, nat_eq, Bytes, codes, bytes_Eq, ℕ, ◌+◌, Bool,
  true, false, ◌&&◌, ◌||◌, List, [], ◌∷◌, ◌++◌,
}
use go_txnpure.Classify.Scan.{has_prefix}
use mathlib.Core.List.{reverse}

pub record StackFrame : Type 0 where
  pub function : Bytes
  pub file : Bytes
  pub line : ℕ

-- strings.HasSuffix
unfoldable pub has_suffix : Bytes → Bytes → Bool
unfolding has_prefix
has_suffix s suffix = has_prefix (reverse s) (reverse suffix)

abbrev pub module_path : Bytes
module_path = codes "github.com/moznion/go-txnpure"

unfoldable pub is_internal_frame : StackFrame → Bool
unfolding has_suffix
is_internal_frame f =
    if has_suffix f.file (codes "_test.go")
    then false
    else has_prefix f.function (module_path ++ codes ".")
      || has_prefix f.function (module_path ++ codes "/")

-- The loop over the resolved frames; a list that ends is `!more`.
unfoldable pub capture_loop : ℕ → Bool → List StackFrame → List StackFrame → List StackFrame
capture_loop depth skipping out [] = out
capture_loop depth skipping out (f ∷ frames) = elim (skipping && is_internal_frame f) [
  | true ↦ capture_loop depth skipping out frames
  | false ↦ elim (leb depth (length (out ++ f ∷ []))) [
    | true ↦ out ++ f ∷ []
    | false ↦ capture_loop depth false (out ++ f ∷ []) frames
  ]
]

-- `callers n` is what the runtime resolves from at most `n` program counters, and is empty if
-- it has none.
unfoldable pub capture_stack : ℤ → (ℕ → List StackFrame) → List StackFrame
unfolding capture_loop is_internal_frame
capture_stack depth callers =
    if leb_ℤ depth (pos 0)
    then []
    else capture_loop (pos_part depth) true [] (callers (pos_part depth + 16))
