-- ===== src/Sso/Build/Trace.antt =====
-- `random_trace` of mania/src/core/packet.rs, on the bytes that the random generator gave.
use mania.Base.{
  ℕ, ◌+◌, ◌*◌, ◌/◌, ◌≡◌, refl, sym, arith, List, [], ◌∷◌, ◌++◌, length, length-append,
  if◌then◌else◌, ◌==◌, Bool-cases, inl, inr, ltb, true, false,
}
use mania.Base.Bytes.{AreBytes, IsByte}
use mania.Base.Text.{codes, digits, hexadecimal}

-- `{:x}` of each byte, which writes no leading zero.
unfoldable pub write_digits : List ℕ → List ℕ
write_digits [] = []
write_digits (b ∷ bs) = hexadecimal b ++ write_digits bs

-- The sixteen bytes and the eight bytes of the two loops.
unfoldable pub random_trace : List ℕ → List ℕ → List ℕ
unfolding write_digits
random_trace trace_id span_id =
    codes "00-" ++ (write_digits trace_id ++ ((b'-' ∷ []) ++ (write_digits span_id ++ codes "-01")))

le_two : (b : ℕ) → IsByte b → (b / 16 / 16 == 0) ≡ true
le_two b h = ground arith

one_digit : (b : ℕ) → (b / 16 == 0) ≡ true → IsByte b → ◌≡◌ {A = ℕ} (if ltb b 16 then 1 else 2) 1
one_digit b e h = ground arith

two_digits : (b : ℕ) → (b / 16 == 0) ≡ false → IsByte b → ◌≡◌ {A = ℕ} (if ltb b 16 then 1 else 2) 2
two_digits b e h = ground arith

length-hexadecimal : (b : ℕ) → IsByte b → length (hexadecimal b) ≡ (if ltb b 16 then 1 else 2)
unfolding hexadecimal digits
length-hexadecimal b h = elim (Bool-cases (b / 16 == 0)) [
  | inl small ↦ rw (small) (sym (one_digit b small h))
  | inr large ↦ rw (large, le_two b h) (sym (two_digits b large h))
]

-- How many bytes of a list are below 16.
unfoldable pub small_bytes : List ℕ → ℕ
small_bytes [] = 0
small_bytes (b ∷ bs) = (if ltb b 16 then 1 else 0) + small_bytes bs

length-write_digits :
    (bs : List ℕ) → AreBytes bs → length (write_digits bs) + small_bytes bs ≡ 2 * length bs
unfolding write_digits small_bytes
length-write_digits [] h = refl
length-write_digits (b ∷ bs) (hb, hs) =
    let whole = length-append (hexadecimal b) (write_digits bs) in
    ground (arith, whole, length-hexadecimal b hb, length-write_digits bs hs)

-- A trace has 32 and 16 hexadecimal digits only if no random byte is below 16: each such byte is
-- written with one digit, and the trace is one character short of 55 for it.
pub length-random_trace :
    (trace_id span_id : List ℕ)
    → AreBytes trace_id
    → AreBytes span_id
    → length trace_id ≡ 16
    → length span_id ≡ 8
    → length (random_trace trace_id span_id) + (small_bytes trace_id + small_bytes span_id) ≡ 55
unfolding random_trace
length-random_trace trace_id span_id ht hs n k =
    let tail = write_digits span_id ++ codes "-01" in
    omega (
      arith,
      length-append (write_digits trace_id) ((b'-' ∷ []) ++ tail),
      length-append (write_digits span_id) (codes "-01"),
      length-write_digits trace_id ht,
      length-write_digits span_id hs,
      n,
      k,
    )
