-- ===== src/Base/Results.antt =====
-- What a C++ function of the program hands back: an `int` status, where -1 stands for failure.
use Prim.Native.Nat.{ℕ}

-- `int` results of the program: -1, or a non-negative code.
pub data Status : Type 0 where
  failed : Status
  code : ℕ → Status
