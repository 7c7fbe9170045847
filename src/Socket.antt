-- ===== src/Socket.antt =====
-- mania/src/core/socket.rs: the receiving half of the connection. The bytes that the server sends
-- until it closes the connection are a list. The task's channel is the list of packets sent on it,
-- whose receiver is not dropped.
pub mod Framing
mod Tests
use mania.Base.{
  ℕ, zero, suc, ◌*◌, ◌-◌, List, [], ◌∷◌, ◌++◌, if◌then◌else◌, ltb, leb, length, take, drop,
}
use mania.Base.Bytes.{be32, from_be}

-- How `recv_loop` goes on after one round.
pub data Round : Type 0 where
  packet : List ℕ → List ℕ → Round
  skipped : List ℕ → Round
  closed : Round
  panicked : Round

abbrev pub max_packet : ℕ
max_packet = 1024 * 1024 * 64

-- `BigEndian::write_u32(&mut buffer, packet_length)` panics on a buffer of less than four bytes;
-- `read_exact` fails when the connection closes before it has its bytes.
unfoldable pub receive : ℕ → List ℕ → Round
receive packet_length rest =
    if ltb max_packet packet_length
    then skipped rest
    else if ltb packet_length 4
    then panicked
    else if ltb (length rest) (packet_length - 4)
    then closed
    else packet (be32 packet_length ++ take (packet_length - 4) rest)
        (drop (packet_length - 4) rest)

-- One turn of the loop of `recv_loop`.
unfoldable pub round : List ℕ → Round
round stream =
    if ltb (length stream) 4 then closed else receive (from_be (take 4 stream)) (drop 4 stream)

-- How the task ends: by an error of the connection, or by a panic. `unfinished` is no result of the
-- program: the fuel ran out.
pub data End : Type 0 where
  connection_error : End
  task_panic : End
  unfinished : End

-- The packets sent on the channel, and the end. A turn takes four bytes at least.
unfoldable pub recv_loop_fuel : ℕ → List ℕ → List (List ℕ) × End
recv_loop_fuel zero stream = ([], unfinished)
recv_loop_fuel (suc fuel) stream = elim (round stream) [
  | packet p rest ↦ let (ps, end) = recv_loop_fuel fuel rest in (p ∷ ps, end)
  | skipped rest ↦ recv_loop_fuel fuel rest
  | closed ↦ ([], connection_error)
  | panicked ↦ ([], task_panic)
]

unfoldable pub recv_loop : List ℕ → List (List ℕ) × End
recv_loop stream = recv_loop_fuel (suc (length stream)) stream
