-- ===== src/Highway/Frame/Laws.antt =====
-- `decode` against the frames that `encode` writes.
use mania.Base.{
  ℕ, ◌+◌, ◌^◌, ◌<◌, ◌≤◌, ◌≡◌, ◌≢◌, refl, ◌∙◌, arith, some, none, List, [], ◌∷◌, ◌++◌, if◌then◌else◌,
  ltb, ◌==◌, ◌&&◌, length, length-append, append_assoc, le→ltb, lt→ltb, le→leb, ltb→le, take, drop,
  length-drop, Bool-cases, inl, inr, Bool, true, false,
}
use mania.Base.Bytes.{be32, from_be}
use mania.Base.Fault.{Fault, ok, err, done, panic}
use mania.Packet.Reader.{pure, u8, u32, split_to, get_uint}
use mania.Packet.Reader.Reads.{Reads-u8, Reads-u32, Reads-split_to}
use mania.Highway.Frame.{HighwayFrame, invalid_frame, encode, decode, header, stage_2, read_frame}

-- Nine bytes of start and lengths, and the result behind them.
header_read :
    (start h b : ℕ) (rest : List ℕ)
    → h < 2 ^ 32
    → b < 2 ^ 32
    → header (start ∷ (be32 h ++ (be32 b ++ rest))) ≡ stage_2 start h b rest
unfolding header
header_read start h b rest ph pb =
    rw ((Reads-u8 start).at (be32 h ++ (be32 b ++ rest)))
      (rw ((Reads-u32 h ph).at (be32 b ++ rest)) (rw ((Reads-u32 b pb).at rest)))

decode_header :
    (start h b : ℕ) (x : ℕ) (rest : List ℕ)
    → h < 2 ^ 32
    → b < 2 ^ 32
    → decode (start ∷ (be32 h ++ (be32 b ++ (x ∷ rest)))) ≡ stage_2 start h b (x ∷ rest)
unfolding decode
decode_header start h b x rest ph pb =
    rw (le→ltb (length (start ∷ (be32 h ++ (be32 b ++ (x ∷ rest))))) 10 (omega arith))
      (header_read start h b (x ∷ rest) ph pb)

abbrev framed : ℕ → List ℕ → List ℕ → ℕ → List ℕ → List ℕ
framed start head body end rest =
    start ∷ (be32 (length head) ++ (be32 (length body) ++ (head ++ (body ++ (end ∷ rest)))))

if_pure {ℓ} :
    {A : Type ℓ} (c : Bool) (a b : A) (rest : List ℕ)
    → ◌≡◌ {A = Fault (A × List ℕ)}
        ((if c then pure a else pure b) rest)
        (done (if c then a else b, rest))
if_pure true a b rest = refl
if_pure false a b rest = refl

stage_2_complete :
    (start end : ℕ) (head body rest : List ℕ)
    → stage_2 start (length head) (length body) (head ++ (body ++ (end ∷ rest)))
      ≡ done (
        if start == 0x28 && end == 0x29
            then ok (some (record { head = head; body = body }))
            else err invalid_frame,
        rest,
      )
unfolding stage_2 read_frame
stage_2_complete start end head body rest =
    let tail = end ∷ rest in
    rw
      (le→ltb (length (head ++ (body ++ tail))) (length head + length body + 1)
        (omega (arith, length-append head (body ++ tail), length-append body tail)))
      (rw ((Reads-split_to (length head) head refl).at (body ++ tail)) (
        rw ((Reads-split_to (length body) body refl).at tail)
          (rw ((Reads-u8 end).at rest) (if_pure (start == 0x28 && end == 0x29) _ _ rest))))

-- A whole frame is taken off the buffer. It is returned if it starts with 0x28 and ends with 0x29,
-- and an error otherwise.
pub decode-framed :
    (start end : ℕ) (head body rest : List ℕ)
    → length head < 2 ^ 32
    → length body < 2 ^ 32
    → decode (framed start head body end rest)
      ≡ done (
        if start == 0x28 && end == 0x29
            then ok (some (record { head = head; body = body }))
            else err invalid_frame,
        rest,
      )
unfolding decode
decode-framed start end head body rest ph pb =
    let tail = head ++ (body ++ (end ∷ rest)) in
    rw
      (le→ltb (length (framed start head body end rest)) 10
        (omega (arith, length-append head (body ++ (end ∷ rest)), length-append body (end ∷ rest))))
      (header_read start (length head) (length body) tail ph pb
        ∙ stage_2_complete start end head body rest)

-- A frame that `encode` writes is decoded to itself, and what follows it stays in the buffer.
pub decode-encode :
    (frame : HighwayFrame) (rest : List ℕ)
    → length frame.head < 2 ^ 32
    → length frame.body < 2 ^ 32
    → decode (encode frame [] ++ rest) ≡ done (ok (some frame), rest)
unfolding encode
decode-encode frame rest ph pb = rw (append_assoc frame.head (frame.body ++ (0x29 ∷ [])) rest) (
    rw (append_assoc frame.body (0x29 ∷ []) rest)
      (decode-framed 0x28 0x29 frame.head frame.body rest ph pb))

-- When the header and at least one more byte have arrived, but not the whole frame, `decode` asks
-- for more data, but the nine bytes of the header are gone from the buffer.
pub decode_partial :
    (start h b x : ℕ) (rest : List ℕ)
    → h < 2 ^ 32
    → b < 2 ^ 32
    → length rest < h + b
    → decode (start ∷ (be32 h ++ (be32 b ++ (x ∷ rest)))) ≡ done (ok none, x ∷ rest)
unfolding stage_2
decode_partial start h b x rest ph pb short =
    decode_header start h b x rest ph pb ∙ rw (lt→ltb (length (x ∷ rest)) (h + b + 1) (omega arith))

-- Below ten bytes `decode` waits, and keeps the buffer.
pub decode_short : (src : List ℕ) → length src < 10 → decode src ≡ done (ok none, src)
unfolding decode
decode_short src h = rw (lt→ltb (length src) 10 h)

split_to_done : (n : ℕ) (r : List ℕ) → n ≤ length r → split_to n r ≡ done (take n r, drop n r)
unfolding split_to
split_to_done n r h = rw (le→leb n (length r) h)

read_uint_done :
    (n : ℕ) (r : List ℕ) → n ≤ length r → get_uint n r ≡ done (from_be (take n r), drop n r)
unfolding get_uint
read_uint_done n r h = rw (split_to_done n r h)

stage_2-ne-panic : (start h b : ℕ) (src : List ℕ) → stage_2 start h b src ≢ panic
unfolding stage_2 read_frame u8
stage_2-ne-panic start h b src = elim (Bool-cases (ltb (length src) (h + b + 1))) [
  | inl short ↦ rw short (λ p. cc)
  | inr long ↦
      let enough = ltb→le (length src) (h + b + 1) long in
      let after_head = length-drop h src in
      rw long (
        rw (split_to_done h src (omega arith)) (
          rw (split_to_done b (drop h src) (omega (arith, after_head))) (
            rw
              (read_uint_done 1 (drop b (drop h src))
                (omega (arith, after_head, length-drop b (drop h src))))
              (rw (if_pure _ _ _ _) (λ p. cc)))))
]

-- Whatever has arrived, `decode` does not panic.
pub decode-ne-panic : (src : List ℕ) → decode src ≢ panic
unfolding decode header u8 u32
decode-ne-panic src = elim (Bool-cases (ltb (length src) 10)) [
  | inl short ↦ rw short (λ p. cc)
  | inr long ↦
      let enough = ltb→le (length src) 10 long in
      let size = length-drop 1 src in
      let size' = length-drop 4 (drop 1 src) in
      rw long (
        rw (read_uint_done 1 src (omega arith)) (
          rw (read_uint_done 4 (drop 1 src) (omega arith))
            (rw (read_uint_done 4 (drop 4 (drop 1 src)) (omega arith)) (stage_2-ne-panic _ _ _ _))))
]
