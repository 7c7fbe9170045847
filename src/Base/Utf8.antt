-- ===== src/Base/Utf8.antt =====
-- `String::from_utf8_lossy`: a text is its UTF-8 bytes, and each maximal part of a broken
-- sequence is replaced by U+FFFD.
use Prim.Native.Nat.{ℕ}
use mathlib.Core.Path.{◌≡◌, refl, ap, sym, ◌∙◌}
use mathlib.Core.Bool.{Bool, true, false, ◌&&◌}
use mathlib.Core.List.{List, [], ◌∷◌, ◌++◌, append_assoc}
use mathlib.Core.Option.{Option, none, some}
use native.Mathlib.Omega.{arith}
use mania.Base.Tests.{if◌then◌else◌, leb, ltb, ◌==◌, Option-cases}
use mathlib.Core.Logic.{inl, inr}

abbrev in_range : ℕ → ℕ → ℕ → Bool
in_range lo hi b = leb lo b && leb b hi

abbrev is_continuation : ℕ → Bool
is_continuation = in_range 0x80 0xBF

-- The second byte of a sequence of three, after the head `a`.
abbrev second_of_three : ℕ → ℕ → Bool
second_of_three a b =
    in_range (if a == 0xE0 then 0xA0 else 0x80) (if a == 0xED then 0x9F else 0xBF) b

-- The second byte of a sequence of four, after the head `a`.
abbrev second_of_four : ℕ → ℕ → Bool
second_of_four a b =
    in_range (if a == 0xF0 then 0x90 else 0x80) (if a == 0xF4 then 0x8F else 0xBF) b

pub data Head : Type 0 where
  one two three four broken : Head

head : ℕ → Head
head a =
    if ltb a 0x80
    then one
    else if in_range 0xC2 0xDF a
    then two
    else if in_range 0xE0 0xEF a
    then three
    else if in_range 0xF0 0xF4 a
    then four
    else broken

-- The bytes of an unfinished sequence.
pub data Pending : Type 0 where
  start : Pending
  of_two of_three of_four : ℕ → Pending
  third_of_three third_of_four : ℕ → ℕ → Pending
  fourth : ℕ → ℕ → ℕ → Pending

abbrev held : Pending → List ℕ
held start = []
held (of_two a) = a ∷ []
held (of_three a) = a ∷ []
held (of_four a) = a ∷ []
held (third_of_three a b) = a ∷ b ∷ []
held (third_of_four a b) = a ∷ b ∷ []
held (fourth a b c) = a ∷ b ∷ c ∷ []

begin : Head → ℕ → Option (List ℕ × Pending)
begin one a = some (a ∷ [], start)
begin two a = some ([], of_two a)
begin three a = some ([], of_three a)
begin four a = some ([], of_four a)
begin broken a = none

-- The bytes let through and the state after one more byte; `none` if it does not fit.
accept : Pending → ℕ → Option (List ℕ × Pending)
unfolding begin head
accept start b = begin (head b) b
accept (of_two a) b = if is_continuation b then some (a ∷ b ∷ [], start) else none
accept (of_three a) b = if second_of_three a b then some ([], third_of_three a b) else none
accept (of_four a) b = if second_of_four a b then some ([], third_of_four a b) else none
accept (third_of_three a b) c = if is_continuation c then some (a ∷ b ∷ c ∷ [], start) else none
accept (third_of_four a b) c = if is_continuation c then some ([], fourth a b c) else none
accept (fourth a b c) d = if is_continuation d then some (a ∷ b ∷ c ∷ d ∷ [], start) else none

replacement : List ℕ
replacement = 0xEF ∷ 0xBF ∷ 0xBD ∷ []

-- A byte that does not fit ends the sequence before it, and may begin the next.
restart : Pending → ℕ → List ℕ × Pending
unfolding accept replacement
restart start b = (replacement, start)
restart _ b = elim (accept start b) [
  | none ↦ (replacement ++ replacement, start)
  | some (out, p) ↦ (replacement ++ out, p)
]

push : Pending → ℕ → List ℕ × Pending
push p b = elim (accept p b) [ some r ↦ r | none ↦ restart p b ]

-- What the end of the bytes gives.
flush : Pending → List ℕ
unfolding replacement
flush start = []
flush _ = replacement

is_start : Pending → Bool
is_start start = true
is_start _ = false

lossy_from : Pending → List ℕ → List ℕ
lossy_from p [] = flush p
lossy_from p (b ∷ bs) = let (out, p') = push p b in out ++ lossy_from p' bs

-- `String::from_utf8_lossy(bytes)`
unfoldable pub from_utf8_lossy : List ℕ → List ℕ
unfolding lossy_from push restart flush
from_utf8_lossy = lossy_from start

valid_from : Pending → List ℕ → Bool
valid_from p [] = is_start p
valid_from p (b ∷ bs) = elim (accept p b) [ none ↦ false | some (out, p') ↦ valid_from p' bs ]

-- What a Rust `String` is known to hold.
unfoldable pub is_utf8 : List ℕ → Bool
unfolding valid_from accept is_start
is_utf8 = valid_from start

accept-held :
    (p : Pending) (b : ℕ) (out : List ℕ) (p' : Pending)
    → accept p b ≡ some (out, p')
    → out ++ held p' ≡ held p ++ (b ∷ [])
unfolding accept
accept-held start b out p' h = ground arith
accept-held (of_two a) b out p' h = ground arith
accept-held _ b out p' h = ground arith

-- The empty rest, and one more byte.
lossy_from-nil : (p : Pending) → valid_from p [] ≡ true → lossy_from p [] ≡ held p ++ []
unfolding lossy_from valid_from flush is_start
lossy_from-nil start h = refl
lossy_from-nil _ h = cc

valid_from-cons :
    (p : Pending) (b : ℕ) (bs : List ℕ)
    → valid_from p (b ∷ bs) ≡ true
    → (r : List ℕ × Pending) × (accept p b ≡ some r)
      × (valid_from r.1 bs ≡ true)
      × (lossy_from p (b ∷ bs) ≡ r.0 ++ lossy_from r.1 bs)
unfolding lossy_from valid_from push
valid_from-cons p b bs h = elim (Option-cases (accept p b)) [
  | inl e ↦ cc (rw (e, valid_from) at h)
  | inr (r, e) ↦ (r, e, rw (e, valid_from) at h, rw (e, push))
]

lossy_from-eq : (p : Pending) (s : List ℕ) → valid_from p s ≡ true → lossy_from p s ≡ held p ++ s
lossy_from-eq p [] h = lossy_from-nil p h
lossy_from-eq p (b ∷ bs) h =
    let (r, e, v, l) = valid_from-cons p b bs h in
    l
    ∙ ap (λ t. r.0 ++ t) (lossy_from-eq r.1 bs v)
    ∙ sym (append_assoc r.0 (held r.1) bs)
    ∙ ap (λ t. t ++ bs) (accept-held p b r.0 r.1 e)
    ∙ append_assoc (held p) (b ∷ []) bs

-- A text that is UTF-8 is taken over as it is.
pub from_utf8_lossy-eq : (s : List ℕ) → is_utf8 s ≡ true → from_utf8_lossy s ≡ s
unfolding from_utf8_lossy is_utf8
from_utf8_lossy-eq s h = lossy_from-eq start s h
