-- ===== src/Highway/Sent.antt =====
-- mania/src/core/highway/hw_client.rs: what an upload sends, and where it never ends.
use mania.Base.{
  subst, sym, ◌++◌, ◌+◌, ◌<◌, ℕ, suc, ◌≤◌, Option, none, some, ◌⊎◌, inl, inr, List, [], ne→==,
  length, ◌≡◌, refl, arith,
}
use mania.Base.Fault.{done, Result, ok, err}
use mania.Highway.Client.{
  RequestHead, ResponseHead, HighwayClient, Upload, Round, TcpServer, tcp_round, waiting, replied,
}
use mania.Highway.Frame.{HighwayFrame, HighwayError}
use mania.Highway.Upload.{
  UploadEnd, returned, unfinished, step_by, upload_by, tcp_upload, http_upload,
}
use mania.Highway.Upload.{upload_file}
use mania.Highway.Covers.{bodies, Consecutive, Accepting, loop-Sends}
use mania.Highway.Stops.{Ends, upload_loop-StopsAfter, closed_round, unsent_round, cut_round}

module _ (encode_head : RequestHead → List ℕ) (decode_head : List ℕ → Option ResponseHead)
    (digest : List ℕ → List ℕ) (client : HighwayClient) (upload : Upload) where
  upload_by_whole :
      (exchange : ℕ → Round) (stream : List ℕ)
      → 1 ≤ client.chunk_size
      → length stream ≡ upload.size
      → Accepting encode_head decode_head digest client upload exchange
          (length (step_by upload.size 0 upload.size client.chunk_size))
          0
      → (sent : List HighwayFrame) × (upload_by encode_head decode_head digest exchange client
            upload stream
          ≡ (returned (ok tt), sent))
        × (bodies sent ≡ stream)
        × Consecutive encode_head decode_head digest client upload 0 sent
  unfolding upload_by
  upload_by_whole exchange stream n e a =
      let nonzero = ne→== client.chunk_size 0 (λ z. omega (arith, z, n)) in
      let all =
        loop-Sends encode_head decode_head digest client upload exchange upload.size 0 stream 0 [] n
          (omega (arith, e)) (omega (arith, e)) a in
      (all.0, rw (nonzero) all.1, all.2, all.3)

  -- Where the connection is made, the chunks are not empty, the size is that of the file and the
  -- server accepts the frame of each turn within the polls that the fuel allows, the upload succeeds;
  -- the bodies of the frames, in the order in which they were sent, are the file, no body is empty or
  -- longer than a chunk, and each frame's head is the encoding of one that has the offset at which its
  -- body starts, the length and the digest of its body, the size and the digest of the file, and the
  -- command, the extension, the account and the ticket of the upload.
  pub tcp_upload-Consecutive :
      (fuel : ℕ) (stream : List ℕ) (server : TcpServer)
      → 1 ≤ client.chunk_size
      → length stream ≡ upload.size
      → server.connect ≡ ok tt
      → Accepting encode_head decode_head digest client upload
          (tcp_round encode_head decode_head digest fuel server.turns)
          (length (step_by upload.size 0 upload.size client.chunk_size))
          0
      → (sent : List HighwayFrame) × (tcp_upload encode_head decode_head digest fuel client upload
            stream server
          ≡ (returned (ok tt), sent))
        × (bodies sent ≡ stream)
        × Consecutive encode_head decode_head digest client upload 0 sent
  unfolding tcp_upload
  tcp_upload-Consecutive fuel stream server n e connected a =
      rw (connected)
        (upload_by_whole (tcp_round encode_head decode_head digest fuel server.turns) stream n e a)

  abbrev offsets : List ℕ
  offsets = step_by upload.size 0 upload.size client.chunk_size

  abbrev pub exchange_with : ℕ → TcpServer → ℕ → Round
  exchange_with fuel server = tcp_round encode_head decode_head digest fuel server.turns

  tcp_upload-stops :
      (fuel : ℕ) (stream : List ℕ) (server : TcpServer) (n : ℕ) (round : Round) (end : UploadEnd)
      → 1 ≤ client.chunk_size
      → n < length offsets
      → server.connect ≡ ok tt
      → Accepting encode_head decode_head digest client upload (exchange_with fuel server) n 0
      → exchange_with fuel server n ≡ round
      → Ends encode_head decode_head digest round end
      → (sent : List HighwayFrame) × (left : List ℕ) × (tcp_upload encode_head decode_head digest
            fuel client upload stream server
          ≡ (end, sent))
        × (length sent ≡ suc n)
        × (bodies sent ++ left ≡ stream)
  unfolding tcp_upload upload_by
  tcp_upload-stops fuel stream server n round end size more connected a e ends =
      let nonzero = ne→== client.chunk_size 0 (λ z. omega (arith, z, size)) in
      let from_start : 0 + n ≡ n = omega arith in
      let stopped =
        upload_loop-StopsAfter encode_head decode_head digest client upload
          (exchange_with fuel server) n round end offsets stream 0 [] ends more a
          (subst (λ t. exchange_with fuel server t ≡ round) (sym from_start) e) in
      (stopped.0, stopped.1, rw (connected, nonzero) stopped.2, stopped.3, stopped.4)

  -- No connection is made; or after `n` accepted turns the frame of the next is not sent, or the first
  -- poll for its answer gives an error, such as a reset or an answer that the end has cut short.
  abbrev pub FailsAfter : ℕ → ℕ → TcpServer → HighwayError → Type 0
  FailsAfter n fuel server e =
      (server.connect ≡ err e)
      ⊎ ((server.connect ≡ ok tt)
          × Accepting encode_head decode_head digest client upload (exchange_with fuel server) n 0
          × (((server.turns n).send ≡ err e)
              ⊎ (((server.turns n).send ≡ ok tt) × ((server.turns n).next 0 ≡ some (err e)))))

  failed_after :
      (fuel : ℕ) (stream : List ℕ) (server : TcpServer) (n : ℕ) (e : HighwayError)
      → 1 ≤ client.chunk_size
      → n < length offsets
      → FailsAfter n (suc fuel) server e
      → (sent : List HighwayFrame) × (tcp_upload encode_head decode_head digest
            (suc fuel)
            client
            upload
            stream
            server
          ≡ (returned (err e), sent))
  unfolding tcp_upload
  failed_after fuel stream server n e size more (inl unconnected) = ([], rw (unconnected) refl)
  failed_after fuel stream server n e size more (inr (connected, a, inl unsent)) =
      let stopped =
        tcp_upload-stops (suc fuel) stream server n (replied (done (err e))) (returned (err e)) size
          more connected a
          (unsent_round encode_head decode_head digest (suc fuel) server.turns n e unsent)
          (λ rest sent. refl) in
      (stopped.0, stopped.2)
  failed_after fuel stream server n e size more (inr (connected, a, inr (sent, cut))) =
      let stopped =
        tcp_upload-stops (suc fuel) stream server n (replied (done (err e))) (returned (err e)) size
          more connected a (cut_round encode_head decode_head digest fuel server.turns n e sent cut)
          (λ rest sent. refl) in
      (stopped.0, stopped.2)

  -- For chunks that are not empty: a server that accepts the first `n` frames of a file with more,
  -- within the polls that the fuel allows, takes the next one and then closes
  -- the connection, so that each poll gives `None`, keeps the upload polling for as long as there is
  -- fuel for it: the `n + 1` frames are a first part of the file, no error is returned, and HTTP is
  -- never tried. Where the connection is not made, or after `n` accepted frames the next one is not
  -- sent or the first poll gives an error, the upload is exactly the one over HTTP.
  pub upload_file_closed :
      (fuel : ℕ) (stream : List ℕ) (closed broken : TcpServer) (n : ℕ) (e : HighwayError)
      (http : ℕ → Result HighwayError (List ℕ))
      → 1 ≤ client.chunk_size
      → n < length offsets
      → closed.connect ≡ ok tt
      → Accepting encode_head decode_head digest client upload (exchange_with fuel closed) n 0
      → (closed.turns n).send ≡ ok tt
      → ((i : ℕ) → (closed.turns n).next i ≡ none)
      → FailsAfter n (suc fuel) broken e
      → ((sent : List HighwayFrame) × (left : List ℕ) × (upload_file encode_head decode_head digest
              fuel client upload stream closed http
            ≡ (unfinished, sent))
          × (length sent ≡ suc n)
          × (bodies sent ++ left ≡ stream))
        × (upload_file encode_head decode_head digest (suc fuel) client upload stream broken http
            ≡ http_upload encode_head decode_head digest client upload stream http)
  unfolding upload_file
  upload_file_closed fuel stream closed broken n e http size more connected a sent ended fails =
      let stopped =
        tcp_upload-stops fuel stream closed n waiting unfinished size more connected a
          (closed_round encode_head decode_head digest fuel closed.turns n sent ended)
          (λ rest sent. refl) in
      (
        (stopped.0, stopped.1, rw (stopped.2) refl, stopped.3, stopped.4),
        rw ((failed_after fuel stream broken n e size more fails).1) refl,
      )
