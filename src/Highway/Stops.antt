-- ===== src/Highway/Stops.antt =====
-- mania/src/core/highway/hw_client.rs: an upload that comes to a stop in one of its turns.
use mania.Base.{
  ℕ, zero, suc, ◌+◌, ◌<◌, ◌≡◌, ◌∙◌, ap, refl, subst, Option, none, some, List, [], ◌∷◌, ◌++◌,
  append_assoc, length, take, drop, take-append-drop, arith,
}
use mania.Base.Fault.{done, Result, ok, err}
use mania.Highway.Client.{
  RequestHead, ResponseHead, HighwayClient, Upload, Round, TcpTurn, replied, waiting, build_frame,
  frame_of, await_response, tcp_round,
}
use mania.Highway.Covers.{bodies, Accepting}
use mania.Highway.Frame.{HighwayFrame, HighwayError}
use mania.Highway.Upload.{UploadEnd, after_round, upload_loop}

-- Polls that all give nothing are repeated for as long as there is fuel.
await_response-closed :
    (fuel : ℕ) (next : ℕ → Option (Result HighwayError HighwayFrame)) (k : ℕ)
    → ((i : ℕ) → next i ≡ none)
    → await_response fuel next k ≡ none
unfolding await_response
await_response-closed zero next k closed = refl
await_response-closed (suc fuel) next k closed =
    rw (closed k, await_response) (await_response-closed fuel next (suc k) closed)

module _ (encode_head : RequestHead → List ℕ) (decode_head : List ℕ → Option ResponseHead)
    (digest : List ℕ → List ℕ) where
  pub closed_round :
      (fuel : ℕ) (turns : ℕ → TcpTurn) (n : ℕ)
      → (turns n).send ≡ ok tt
      → ((i : ℕ) → (turns n).next i ≡ none)
      → tcp_round encode_head decode_head digest fuel turns n ≡ waiting
  unfolding tcp_round
  closed_round fuel turns n sent closed =
      rw (sent, await_response-closed fuel (turns n).next 0 closed) refl

  pub unsent_round :
      (fuel : ℕ) (turns : ℕ → TcpTurn) (n : ℕ) (e : HighwayError)
      → (turns n).send ≡ err e
      → tcp_round encode_head decode_head digest fuel turns n ≡ replied (done (err e))
  unfolding tcp_round
  unsent_round fuel turns n e unsent = rw (unsent) refl

  pub cut_round :
      (fuel : ℕ) (turns : ℕ → TcpTurn) (n : ℕ) (e : HighwayError)
      → (turns n).send ≡ ok tt
      → (turns n).next 0 ≡ some (err e)
      → tcp_round encode_head decode_head digest (suc fuel) turns n ≡ replied (done (err e))
  unfolding tcp_round
  cut_round fuel turns n e sent cut = rw (sent, cut, await_response) refl

  -- A round that does not go on to the next turn.
  abbrev pub Ends : Round → UploadEnd → Type 0
  Ends round end =
      (rest : UploadEnd × List HighwayFrame) (sent : List HighwayFrame)
      → after_round encode_head decode_head digest rest sent round ≡ (end, sent)

  module _ (client : HighwayClient) (upload : Upload) (exchange : ℕ → Round) where
    -- What has been sent where `n` turns are accepted and the next one is the last.
    abbrev pub StopsAfter : ℕ → UploadEnd → List ℕ → List ℕ → ℕ → List HighwayFrame → Type 0
    StopsAfter n end offsets rest turn sent =
        (more : List HighwayFrame) × (left : List ℕ) × (upload_loop encode_head decode_head digest
            exchange client upload offsets rest turn sent
          ≡ (end, sent ++ more))
        × (length more ≡ suc n)
        × (bodies more ++ left ≡ rest)

    abbrev frame_at : ℕ → List ℕ → HighwayFrame
    frame_at offset rest =
        frame_of encode_head decode_head digest client upload offset (take client.chunk_size rest)

    last_turn :
        (round : Round) (end : UploadEnd) (offset : ℕ) (offsets rest : List ℕ) (turn : ℕ)
        (sent : List HighwayFrame)
        → Ends round end
        → exchange turn ≡ round
        → StopsAfter 0 end (offset ∷ offsets) rest turn sent
    unfolding upload_loop build_frame frame_of
    last_turn round end offset offsets rest turn sent ends e = (
      frame_at offset rest ∷ [],
      drop client.chunk_size rest,
      rw (e) (ends _ _),
      refl,
      simp (append_assoc) (take-append-drop client.chunk_size rest),
    )

    pub upload_loop-StopsAfter :
        (n : ℕ) (round : Round) (end : UploadEnd) (offsets rest : List ℕ) (turn : ℕ)
        (sent : List HighwayFrame)
        → Ends round end
        → n < length offsets
        → Accepting encode_head decode_head digest client upload exchange n turn
        → exchange (turn + n) ≡ round
        → StopsAfter n end offsets rest turn sent
    unfolding upload_loop build_frame frame_of
    upload_loop-StopsAfter n round end [] rest turn sent ends m a e = absurd (omega arith)
    upload_loop-StopsAfter zero round end (offset ∷ offsets) rest turn sent ends m a e =
        last_turn round end offset offsets rest turn sent ends
          (let same : turn + zero ≡ turn = omega arith in subst (λ t. exchange t ≡ round) same e)
    upload_loop-StopsAfter (suc n) round end (offset ∷ offsets) rest turn sent ends m (p, a) e =
        let frame = frame_at offset rest in
        let same : turn + suc n ≡ suc turn + n = omega arith in
        let later =
          upload_loop-StopsAfter n round end offsets (drop client.chunk_size rest) (suc turn)
            (sent ++ (frame ∷ [])) ends (omega arith) a (subst (λ t. exchange t ≡ round) same e) in
        (
          frame ∷ later.0,
          later.1,
          rw (p.1) (later.2 ∙ ap (λ s. (end, s)) (append_assoc sent (frame ∷ []) later.0)),
          omega (arith, later.3),
          append_assoc frame.body (bodies later.0) later.1
              ∙ (ap (λ xs. take client.chunk_size rest ++ xs) later.4
                  ∙ take-append-drop client.chunk_size rest),
        )
