-- ===== src/Base/Ints.antt =====
-- Integers of int and int64: `negsuc n` is -1 - n.
use Prim.Native.Nat.{ℕ}
use mathlib.Core.Bool.{Bool, true, false}
use goblin_ftp.Base.Tests.{ltb}

pub data ℤ : Type 0 where
  pos : ℕ → ℤ
  negsuc : ℕ → ℤ

-- x > y
unfoldable pub gtb : ℤ → ℤ → Bool
gtb (pos m) (pos n) = ltb n m
gtb (pos m) (negsuc n) = true
gtb (negsuc m) (pos n) = false
gtb (negsuc m) (negsuc n) = ltb m n
