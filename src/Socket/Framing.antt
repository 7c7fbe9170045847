-- ===== src/Socket/Framing.antt =====
-- What `recv_loop` makes of a stream of packets.
use mania.Base.{
  ℕ, zero, suc, ◌+◌, ◌-◌, ◌^◌, ◌<◌, ◌≤◌, ◌≡◌, ◌≢◌, refl, ap, ◌∙◌, arith, List, [], ◌∷◌, ◌++◌,
  length, take, drop, length-append, length-drop, append_assoc, append-nil, le→ltb, lt→ltb, ltb→le,
  ltb, Bool-cases, inl, inr, All, map, take-append_length, drop-append_length,
}
use mania.Base.Bytes.{be32, from_be, from_be-be32}
use mania.Socket.{
  Round, packet, skipped, closed, panicked, receive, round, End, connection_error, task_panic,
  unfinished, recv_loop_fuel, recv_loop, max_packet,
}

-- A packet on the wire: the length of the whole, and the payload.
abbrev pub wire : List ℕ → List ℕ
wire payload = be32 (length payload + 4) ++ payload

abbrev pub stream_of : List (List ℕ) → List ℕ
stream_of [] = []
stream_of (p ∷ ps) = wire p ++ stream_of ps

abbrev pub Fits : List ℕ → Type 0
Fits p = length p + 4 ≤ max_packet

round_header : (n : ℕ) (rest : List ℕ) → n < 2 ^ 32 → round (be32 n ++ rest) ≡ receive n rest
unfolding round
round_header n rest h =
    rw (le→ltb (length (be32 n ++ rest)) 4 (omega arith))
      (ap (λ k. receive k rest) (from_be-be32 n h))

minus_four : (a : ℕ) → a + 4 - 4 ≡ a
minus_four a = omega arith

receive-wire :
    (p rest : List ℕ) → Fits p → receive (length p + 4) (p ++ rest) ≡ packet (wire p) rest
unfolding receive
receive-wire p rest h = rw (le→ltb max_packet (length p + 4) h) (
    rw (le→ltb (length p + 4) 4 (omega arith)) (
      rw (minus_four (length p)) (
        rw (le→ltb (length (p ++ rest)) (length p) (omega (arith, length-append p rest)))
          (rw (take-append_length p rest) (rw (drop-append_length p rest))))))

round-wire : (p rest : List ℕ) → Fits p → round (wire p ++ rest) ≡ packet (wire p) rest
round-wire p rest h = round_header (length p + 4) (p ++ rest) (omega arith) ∙ receive-wire p rest h

-- One turn of the loop, by what the turn does.
loop_packet :
    (fuel : ℕ) (stream p rest : List ℕ)
    → round stream ≡ packet p rest
    → recv_loop_fuel (suc fuel) stream
      ≡ (p ∷ (recv_loop_fuel fuel rest).0, (recv_loop_fuel fuel rest).1)
unfolding recv_loop_fuel
loop_packet fuel stream p rest e = rw (e, recv_loop_fuel)

loop_skipped :
    (fuel : ℕ) (stream rest : List ℕ)
    → round stream ≡ skipped rest
    → recv_loop_fuel (suc fuel) stream ≡ recv_loop_fuel fuel rest
unfolding recv_loop_fuel
loop_skipped fuel stream rest e = rw (e, recv_loop_fuel)

loop_end : (fuel : ℕ) → recv_loop_fuel (suc fuel) [] ≡ ([], connection_error)
unfolding recv_loop_fuel round
loop_end fuel = refl

-- Packets in front of a tail at which the loop ends at once.
module _ (tail : List ℕ) (e : End) (stop : (k : ℕ) → recv_loop_fuel (suc k) tail ≡ ([], e)) where
  loop_packets :
      (fuel : ℕ) (ps : List (List ℕ))
      → All Fits ps
      → length ps < fuel
      → recv_loop_fuel fuel (stream_of ps ++ tail) ≡ (map wire ps, e)
  loop_packets zero ps h f = absurd (omega arith)
  loop_packets (suc fuel) [] h f = stop fuel
  loop_packets (suc fuel) (p ∷ ps) (hp, hs) f =
      let rest = stream_of ps ++ tail in
      ap (recv_loop_fuel (suc fuel)) (append_assoc (wire p) (stream_of ps) tail)
      ∙ loop_packet fuel (wire p ++ rest) (wire p) rest (round-wire p rest hp)
      ∙ rw (loop_packets fuel ps hs (omega arith))

length-stream_of : (ps : List (List ℕ)) → length ps ≤ length (stream_of ps)
length-stream_of [] = omega arith
length-stream_of (p ∷ ps) =
    omega (arith, length-append (wire p) (stream_of ps), length-stream_of ps)

-- Packets of at most 64 MiB, one behind another, are all sent on the channel in order, each with
-- its length field in front, and the task ends when the connection does.
pub recv_loop-stream_of :
    (ps : List (List ℕ)) → All Fits ps → recv_loop (stream_of ps) ≡ (map wire ps, connection_error)
unfolding recv_loop
recv_loop-stream_of ps h = rw (append-nil) at (
    loop_packets [] connection_error loop_end (suc (length (stream_of ps))) ps h
      (omega (arith, length-stream_of ps)))

-- The rest of the stream after a turn that goes on.
abbrev Shrinks : List ℕ → Round → Type 0
Shrinks stream (packet p rest) = length rest < length stream
Shrinks stream (skipped rest) = length rest < length stream
Shrinks stream closed = Unit {0}
Shrinks stream panicked = Unit {0}

receive-Shrinks :
    (stream : List ℕ) (n : ℕ) (rest : List ℕ)
    → length rest < length stream
    → Shrinks stream (receive n rest)
unfolding receive
receive-Shrinks stream n rest h = elim (Bool-cases (ltb max_packet n)) [
  | inl e ↦ rw e h
  | inr e ↦ rw e (elim (Bool-cases (ltb n 4)) [
    | inl e' ↦ rw e' tt
    | inr e' ↦ rw e' (elim (Bool-cases (ltb (length rest) (n - 4))) [
      | inl e'' ↦ rw e'' tt
      | inr e'' ↦ rw e'' (omega (arith, length-drop (n - 4) rest))
    ])
  ])
]

round-Shrinks : (stream : List ℕ) → Shrinks stream (round stream)
unfolding round
round-Shrinks stream = elim (Bool-cases (ltb (length stream) 4)) [
  | inl e ↦ rw e tt
  | inr e ↦ rw e (
      receive-Shrinks stream (from_be (take 4 stream)) (drop 4 stream)
        (omega (arith, length-drop 4 stream, ltb→le (length stream) 4 e)))
]

recv_loop_fuel-ne-unfinished :
    (fuel : ℕ) (stream : List ℕ)
    → length stream < fuel
    → (recv_loop_fuel fuel stream).1 ≢ unfinished
unfolding recv_loop_fuel
recv_loop_fuel-ne-unfinished zero stream h = absurd (omega arith)
recv_loop_fuel-ne-unfinished (suc fuel) stream h =
    go (recv_loop_fuel-ne-unfinished fuel) (round stream) (round-Shrinks stream) refl
  where
    go :
        ((rest : List ℕ) → length rest < fuel → (recv_loop_fuel fuel rest).1 ≢ unfinished)
        → (r : Round) → Shrinks stream r
        → round stream ≡ r
        → (recv_loop_fuel (suc fuel) stream).1 ≢ unfinished
    go ih (packet p rest) s e = rw (loop_packet fuel stream p rest e) (ih rest (omega arith))
    go ih (skipped rest) s e = rw (loop_skipped fuel stream rest e) (ih rest (omega arith))
    go ih closed s e = rw (e, recv_loop_fuel) (λ p. cc)
    go ih panicked s e = rw (e, recv_loop_fuel) (λ p. cc)

-- On every stream the loop comes to an end: the fuel of one turn for each byte, and one more, is
-- enough.
pub recv_loop-ne-unfinished : (stream : List ℕ) → (recv_loop stream).1 ≢ unfinished
unfolding recv_loop
recv_loop-ne-unfinished stream =
    recv_loop_fuel-ne-unfinished (suc (length stream)) stream (omega arith)

-- An announced length above the limit is skipped without the bytes that it announces: what stands
-- behind it is read as the next length.
pub round_oversized :
    (n : ℕ) (rest : List ℕ) → n < 2 ^ 32 → max_packet < n → round (be32 n ++ rest) ≡ skipped rest
unfolding receive
round_oversized n rest h big = round_header n rest h ∙ rw (lt→ltb max_packet n big)

round_undersized : (n : ℕ) (rest : List ℕ) → n < 4 → round (be32 n ++ rest) ≡ panicked
unfolding receive
round_undersized n rest small =
    round_header n rest (omega arith)
    ∙ rw (le→ltb max_packet n (omega arith)) (rw (lt→ltb n 4 small))

-- A length below 4 panics the task: the channel then ends, and nothing behind it is received.
pub recv_loop_undersized :
    (ps : List (List ℕ)) (n : ℕ) (rest : List ℕ)
    → All Fits ps
    → n < 4
    → recv_loop (stream_of ps ++ (be32 n ++ rest)) ≡ (map wire ps, task_panic)
unfolding recv_loop recv_loop_fuel
recv_loop_undersized ps n rest h small =
    loop_packets (be32 n ++ rest) task_panic
      (λ k. rw (round_undersized n rest small, recv_loop_fuel))
      (suc (length (stream_of ps ++ (be32 n ++ rest)))) ps h
      (omega (arith, length-stream_of ps, length-append (stream_of ps) (be32 n ++ rest)))
