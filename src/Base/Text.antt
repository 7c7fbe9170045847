-- ===== src/Base/Text.antt =====
-- The bytes of an ASCII text literal, and numbers written in text.
use Prim.Native.Nat.{ℕ, zero, suc, ◌+◌, ◌/◌, ◌%◌}
use Prim.Native.Char.{code}
use Prim.Native.String.{String}
use mathlib.Core.List.{List, [], ◌∷◌}
use mania.Base.Tests.{ltb, ◌==◌, if◌then◌else◌}

abbrev pub codes : String → List ℕ
codes String.[] = []
codes (String.◌∷◌ first others) = code first ∷ codes others

unfoldable pub digit : ℕ → ℕ
digit d = if ltb d 10 then 48 + d else 87 + d

-- The digits of `n` in a base, put in front of `acc`.
unfoldable pub digits : ℕ → ℕ → ℕ → List ℕ → List ℕ
digits zero base n acc = acc
digits (suc fuel) base n acc =
    let more = digits fuel base (n / base) (digit (n % base) ∷ acc) in
    if n / base == 0 then digit (n % base) ∷ acc else more

-- `{}` and `{:x}` of a number below 2^64: twenty digits are enough.
unfoldable pub decimal : ℕ → List ℕ
decimal n = digits 20 10 n []

unfoldable pub hexadecimal : ℕ → List ℕ
hexadecimal n = digits 20 16 n []
