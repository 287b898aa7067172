-- ===== src/Base/Heap.antt =====
-- Objects behind pointers: a heap is a function from addresses, and a write replaces one object.
use Prim.Native.Nat.{ℕ}
use go_txnpure.Base.Tests.{◌==◌, if◌then◌else◌}

abbrev pub update {ℓ} : {A : Type ℓ} → (ℕ → A) → ℕ → A → ℕ → A
update h i v j = if i == j then v else h j
