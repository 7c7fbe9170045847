-- ===== src/Socket/Tests.antt =====
-- The receiving loop at concrete streams.
use mania.Base.{◌≡◌, ◌≢◌, arith, List, [], ◌∷◌, ◌++◌, map, ℕ}
use mania.Base.Bytes.{be32}
use mania.Socket.{recv_loop, connection_error, task_panic, unfinished}
use mania.Socket.Framing.{
  wire, stream_of, recv_loop-stream_of, recv_loop-ne-unfinished, recv_loop_undersized,
}

abbrev two_payloads : List (List ℕ)
two_payloads = (1 ∷ 2 ∷ []) ∷ [] ∷ []

recv_loop-stream_of_example :
    recv_loop (stream_of two_payloads) ≡ (map wire two_payloads, connection_error)
recv_loop-stream_of_example = recv_loop-stream_of two_payloads (omega arith)

recv_loop-ne-unfinished_example : (recv_loop (0 ∷ 0 ∷ 0 ∷ 9 ∷ 1 ∷ [])).1 ≢ unfinished
recv_loop-ne-unfinished_example = recv_loop-ne-unfinished (0 ∷ 0 ∷ 0 ∷ 9 ∷ 1 ∷ [])

recv_loop_undersized_example :
    recv_loop (stream_of two_payloads ++ (be32 3 ++ (9 ∷ []))) ≡ (map wire two_payloads, task_panic)
recv_loop_undersized_example =
    recv_loop_undersized two_payloads 3 (9 ∷ []) (omega arith) (omega arith)
