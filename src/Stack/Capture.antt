-- ===== src/Stack/Capture.antt =====
-- stack.go: the loop of captureStack against what it selects.
use go_txnpure.Base.{
  leb, if◌then◌else◌, length, take, length-append, ℤ, pos, negsuc, pos_part, leb_ℤ, nat_eq,
  bytes_Eq, ℕ, zero, suc, ◌+◌, ◌≡◌, refl, sym, ◌∙◌, Bool, true, false, List, [], ◌∷◌, ◌++◌, arith,
}
use mathlib.Core.List.{append_assoc, append-nil}
use go_txnpure.Stack.{StackFrame, is_internal_frame, capture_loop, capture_stack}

-- Without the internal frames in front.
abbrev pub outside_frames : List StackFrame → List StackFrame
outside_frames [] = []
outside_frames (f ∷ frames) = if is_internal_frame f then outside_frames frames else f ∷ frames

last-full :
    (depth : ℕ) (out : List StackFrame) (f : StackFrame)
    → depth ≡ length out + 1
    → leb depth (length (out ++ f ∷ [])) ≡ true
last-full depth out f h = rw (length-append out (f ∷ [])) (ground arith)

room-left :
    (depth k : ℕ) (out : List StackFrame) (f : StackFrame)
    → depth ≡ length out + suc (suc k)
    → leb depth (length (out ++ f ∷ [])) ≡ false
room-left depth k out f h = rw (length-append out (f ∷ [])) (ground arith)

-- With room for `k + 1` frames more.
capture_loop-take :
    (depth k : ℕ) (out frames : List StackFrame)
    → depth ≡ length out + suc k
    → capture_loop depth false out frames ≡ out ++ take (suc k) frames
unfolding capture_loop
capture_loop-take depth k out [] h = sym (append-nil out)
capture_loop-take depth zero out (f ∷ frames) h = rw (capture_loop, last-full depth out f h) refl
capture_loop-take depth (suc k) out (f ∷ frames) h =
    rw (capture_loop, room-left depth k out f h)
      (capture_loop-take depth k (out ++ f ∷ []) frames
          (omega (arith, h, length-append out (f ∷ [])))
        ∙ append_assoc out (f ∷ []) (take (suc k) frames))

capture_loop-outside_frames :
    (k : ℕ) (frames : List StackFrame)
    → capture_loop (suc k) true [] frames ≡ take (suc k) (outside_frames frames)
unfolding capture_loop
capture_loop-outside_frames k [] = refl
capture_loop-outside_frames k (f ∷ frames) =
    at (is_internal_frame f) (capture_loop-outside_frames k frames)
      (capture_loop-take (suc k) k [] (f ∷ frames) (omega arith))
  where
    at :
        (b : Bool)
        → capture_loop (suc k) true [] frames ≡ take (suc k) (outside_frames frames)
        → capture_loop (suc k) false [] (f ∷ frames) ≡ take (suc k) (f ∷ frames)
        → (elim b [
          | true ↦ capture_loop (suc k) true [] frames
          | false ↦ elim (leb (suc k) 1) [
            | true ↦ f ∷ []
            | false ↦ capture_loop (suc k) false (f ∷ []) frames
          ]
        ])
          ≡ take (suc k) (if b then outside_frames frames else f ∷ frames)
    at true skip keep = skip
    at false skip keep = keep

-- The captured stack is the first `depth` of the frames that follow the internal ones in front, and
-- empty if the depth is not positive.
pub capture_stack-take :
    (depth : ℤ) (callers : ℕ → List StackFrame)
    → capture_stack depth callers
      ≡ take (pos_part depth) (outside_frames (callers (pos_part depth + 16)))
unfolding capture_stack
capture_stack-take depth callers = at depth
  where
    positive : (k : ℕ) → leb_ℤ (pos (suc k)) (pos 0) ≡ false
    positive k = ground arith

    not_positive : (n : ℕ) → leb_ℤ (negsuc n) (pos 0) ≡ true
    not_positive n = ground arith

    at :
        (depth : ℤ)
        → (if leb_ℤ depth (pos 0)
            then []
            else capture_loop (pos_part depth) true [] (callers (pos_part depth + 16)))
          ≡ take (pos_part depth) (outside_frames (callers (pos_part depth + 16)))
    at (pos zero) = refl
    at (pos (suc k)) = rw (positive k) (capture_loop-outside_frames k (callers (suc k + 16)))
    at (negsuc n) = rw (not_positive n) refl
