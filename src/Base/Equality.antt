-- ===== src/Base/Equality.antt =====
-- Decidable equality as an interface: a Boolean test with its law.
use Prim.Native.Nat.{ℕ}
use go_txnpure.Base.Tests.{◌==◌ as nat_beq, ==_iff}
use mathlib.Core.Bool.{Bool, true}
use mathlib.Core.Logic.{◌↔◌}
use mathlib.Core.Path.{◌≡◌}

pub record Eq {ℓ} (A : Type ℓ) : Type ℓ where
  pub beq : A → A → Bool
  pub beq_iff : (a b : A) → (beq a b ≡ true) ↔ (a ≡ b)

instance abbrev pub nat_eq : Eq ℕ
nat_eq = record { beq = nat_beq; beq_iff = ==_iff }
