-- ===== src/Sso/Uin.antt =====
-- The number of an account, read from its digits: `str::parse::<u32>`.
use mania.Base.{
  ℕ, ◌+◌, ◌-◌, ◌*◌, ◌^◌, List, [], ◌∷◌, Option, none, some, if◌then◌else◌, ◌==◌, ltb, leb, Bool,
  ◌&&◌,
}

unfoldable pub is_digit : ℕ → Bool
is_digit c = leb b'0' c && leb c b'9'

-- The digits behind a number that is read already; 2^32 and above overflow.
unfoldable pub parse_digits : ℕ → List ℕ → Option ℕ
unfolding is_digit
parse_digits n [] = some n
parse_digits n (c ∷ cs) =
    let next = n * 10 + (c - 48) in
    let rest = parse_digits next cs in
    if is_digit c then if ltb next (2 ^ 32) then rest else none else none

-- An empty text and a sign alone are no number; a `+` in front is allowed.
unfoldable pub parse_u32 : List ℕ → Option ℕ
unfolding parse_digits
parse_u32 [] = none
parse_u32 (c ∷ []) = parse_digits 0 (c ∷ [])
parse_u32 (c ∷ d ∷ ds) = if c == b'+' then parse_digits 0 (d ∷ ds) else parse_digits 0 (c ∷ d ∷ ds)
