-- ===== src/Prelude/Bytes.antt =====
-- Python `bytes` as lists of numbers.
use Prim.Native.Nat.{ℕ}
use mathlib.Core.List.{List}

abbrev pub Bytes : Type 0
Bytes = List ℕ
