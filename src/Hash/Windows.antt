-- ===== src/Hash/Windows.antt =====
-- The ranges of a file that is known in part, and what a further chunk adds to them.
use mania.Base.{
  ℕ, zero, suc, ◌+◌, ◌-◌, ◌≤◌, min, max, List, [], ◌∷◌, ◌++◌, if◌then◌else◌, ltb, ltb→lt, ltb→le,
  length, take, drop, length-drop, Bool-cases, ◌≡◌, ◌∙◌, sym, ap, refl, inl, inr, arith,
}

pub take_nil : (n : ℕ) → take {A = ℕ} n [] ≡ []
take_nil zero = refl
take_nil (suc n) = refl

drop_nil : (n : ℕ) → drop {A = ℕ} n [] ≡ []
drop_nil zero = refl
drop_nil (suc n) = refl

pub take_past : (n : ℕ) (xs : List ℕ) → length xs ≤ n → take n xs ≡ xs
take_past n [] h = take_nil n
take_past zero (x ∷ xs) h = absurd (omega arith)
take_past (suc n) (x ∷ xs) h = ap (λ t. x ∷ t) (take_past n xs (omega arith))

pub drop_past : (n : ℕ) (xs : List ℕ) → length xs ≤ n → drop n xs ≡ []
drop_past n [] h = drop_nil n
drop_past zero (x ∷ xs) h = absurd (omega arith)
drop_past (suc n) (x ∷ xs) h = drop_past n xs (omega arith)

sub_zero : (n : ℕ) → n - 0 ≡ n
sub_zero n = omega arith

zero_sub : (n : ℕ) → 0 - n ≡ 0
zero_sub n = omega arith

take-append : (n : ℕ) (xs ys : List ℕ) → take n (xs ++ ys) ≡ take n xs ++ take (n - length xs) ys
take-append n [] ys = rw (take_nil n, sub_zero n) refl
take-append zero (x ∷ xs) ys = rw (zero_sub (suc (length xs))) refl
take-append (suc n) (x ∷ xs) ys =
    let same : n - length xs ≡ suc n - suc (length xs) = omega arith in
    ap (λ t. x ∷ t) (take-append n xs ys ∙ ap (λ k. take n xs ++ take k ys) same)

drop-append : (n : ℕ) (xs ys : List ℕ) → drop n (xs ++ ys) ≡ drop n xs ++ drop (n - length xs) ys
drop-append n [] ys = rw (drop_nil n, sub_zero n) refl
drop-append zero (x ∷ xs) ys = rw (zero_sub (suc (length xs))) refl
drop-append (suc n) (x ∷ xs) ys =
    let same : n - length xs ≡ suc n - suc (length xs) = omega arith in
    drop-append n xs ys ∙ ap (λ k. drop n xs ++ drop k ys) same

-- The bytes of `xs` in a range.
abbrev pub window : ℕ × ℕ → List ℕ → List ℕ
window range xs = take (range.1 + 1 - range.0) (drop range.0 xs)

-- What a chunk at `offset` has in a range.
abbrev pub piece : ℕ → List ℕ → ℕ × ℕ → List ℕ
piece offset bytes range =
    let from = max offset range.0 in
    let to = min (offset + length bytes) (range.1 + 1) in
    if ltb from to then take (to - from) (drop (from - offset) bytes) else []

piece_lem :
    (rs re : ℕ) (o : ℕ) (d : List ℕ)
    → piece o d (rs, re) ≡ take (re + 1 - rs - (o - rs)) (drop (rs - o) d)
piece_lem rs re o d = elim (Bool-cases (ltb (max o rs) (min (o + length d) (re + 1)))) [
  | inl some_bytes ↦
      let lt = ltb→lt (max o rs) (min (o + length d) (re + 1)) some_bytes in
      let same : max o rs - o ≡ rs - o = omega arith in
      let size = length-drop (rs - o) d in
      rw (some_bytes, same)
        (elim (Bool-cases (ltb (re + 1) (o + length d))) [
          | inl beyond ↦
              let below = ltb→lt (re + 1) (o + length d) beyond in
              ap (λ k. take k (drop (rs - o) d)) (omega (arith, below))
          | inr inside ↦
              let above = ltb→le (re + 1) (o + length d) inside in
              take_past (min (o + length d) (re + 1) - max o rs) (drop (rs - o) d)
                (omega (arith, size, above))
              ∙ sym (
                  take_past (re + 1 - rs - (o - rs)) (drop (rs - o) d) (omega (arith, size, above)))
        ])
  | inr no_bytes ↦
      let le = ltb→le (max o rs) (min (o + length d) (re + 1)) no_bytes in
      rw (no_bytes) (elim (Bool-cases (ltb (max o rs) (re + 1))) [
        | inl meets ↦
            let lt = ltb→lt (max o rs) (re + 1) meets in
            rw (drop_past (rs - o) d (omega (arith, lt, le)))
              (sym (take_nil (re + 1 - rs - (o - rs))))
        | inr shut ↦
            let ge = ltb→le (max o rs) (re + 1) shut in
            let none_left : re + 1 - rs - (o - rs) ≡ 0 = omega (arith, ge) in rw (none_left) refl
      ])
]

pub window-append :
    (rs re : ℕ) (xs d : List ℕ)
    → window (rs, re) (xs ++ d) ≡ window (rs, re) xs ++ piece (length xs) d (rs, re)
window-append rs re xs d =
    ap (take (re + 1 - rs)) (drop-append rs xs d)
    ∙ (take-append (re + 1 - rs) (drop rs xs) (drop (rs - length xs) d)
        ∙ rw (length-drop rs xs)
            (ap (λ t. take (re + 1 - rs) (drop rs xs) ++ t) (sym (piece_lem rs re (length xs) d))))
