-- ===== src/Prelude/Int.antt =====
-- Go's int where a negative value is possible, with the tests that the sources make on it.
use Prim.Native.Nat.{ℕ}
use mathlib.Core.Bool.{Bool, false}
use tunnelmanager.Prelude.Tests.{ltb}

-- `negsuc n` is -(n + 1).
pub data ℤ : Type 0 where
  pos : ℕ → ℤ
  negsuc : ℕ → ℤ

-- `k < z`.
abbrev pub exceeds : ℤ → ℕ → Bool
exceeds (pos n) k = ltb k n
exceeds (negsuc n) k = false

abbrev pub to_nat : ℤ → ℕ
to_nat (pos n) = n
to_nat (negsuc n) = 0
