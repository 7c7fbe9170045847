-- ===== src/Base/Bytes.antt =====
-- Bytes in network order: `to_be_bytes`, and the reads of `byteorder::BigEndian`.
use Prim.Native.Nat.{ℕ, ◌+◌, ◌*◌, ◌/◌, ◌%◌, ◌^◌, ◌<◌}
use mathlib.Core.Path.{◌≡◌}
use mathlib.Core.List.{List, [], ◌∷◌}
use native.Mathlib.Omega.{arith}
use mania.Base.Lists.{All}

abbrev pub IsByte : ℕ → Type 0
IsByte b = b < 256

abbrev pub AreBytes : List ℕ → Type 0
AreBytes = All IsByte

abbrev pub be16 : ℕ → List ℕ
be16 v = (v / 2 ^ 8 % 256) ∷ (v % 256) ∷ []

abbrev pub be32 : ℕ → List ℕ
be32 v = (v / 2 ^ 24 % 256) ∷ (v / 2 ^ 16 % 256) ∷ (v / 2 ^ 8 % 256) ∷ (v % 256) ∷ []

abbrev pub be64 : ℕ → List ℕ
be64 v = (v / 2 ^ 56 % 256) ∷ (v / 2 ^ 48 % 256) ∷ (v / 2 ^ 40 % 256) ∷ (v / 2 ^ 32 % 256) ∷ be32 v

-- Most significant byte first.
abbrev pub from_be_acc : ℕ → List ℕ → ℕ
from_be_acc acc [] = acc
from_be_acc acc (b ∷ bs) = from_be_acc (acc * 256 + b) bs

abbrev pub from_be : List ℕ → ℕ
from_be = from_be_acc 0

pub from_be-be16 : (v : ℕ) → v < 2 ^ 16 → from_be (be16 v) ≡ v
from_be-be16 v h = omega arith

pub from_be-be32 : (v : ℕ) → v < 2 ^ 32 → from_be (be32 v) ≡ v
from_be-be32 v h = omega arith

pub from_be-be64 : (v : ℕ) → v < 2 ^ 64 → from_be (be64 v) ≡ v
from_be-be64 v h = omega arith

pub AreBytes-be16 : (v : ℕ) → AreBytes (be16 v)
AreBytes-be16 v = omega arith

pub AreBytes-be32 : (v : ℕ) → AreBytes (be32 v)
AreBytes-be32 v = omega arith

pub AreBytes-be64 : (v : ℕ) → AreBytes (be64 v)
AreBytes-be64 v = omega arith
