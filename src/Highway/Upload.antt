-- ===== src/Highway/Upload.antt =====
-- mania/src/core/highway/hw_client.rs: the loops of tcp_upload and http_upload, which are one here, and
-- the second way after an error of the first.
use mania.Base.{ℕ, zero, suc, ◌+◌, Option, List, [], ◌∷◌, ◌++◌, if◌then◌else◌, ltb, ◌==◌}
use mania.Base.Fault.{done, panic, Result, ok, err}
use mania.Highway.Frame.{HighwayFrame, HighwayError}
use mania.Highway.Client.{
  RequestHead, ResponseHead, HighwayClient, Upload, Round, replied, waiting, TcpServer, build_frame,
  tcp_round, http_round,
}

-- How an upload ends; `unfinished` is one that still polls for an answer when the fuel is used up.
pub data UploadEnd : Type 0 where
  returned : Result HighwayError (Unit {0}) → UploadEnd
  panicked : UploadEnd
  unfinished : UploadEnd

-- `(lo..hi).step_by(step)`, on fuel.
unfoldable pub step_by : ℕ → ℕ → ℕ → ℕ → List ℕ
step_by zero lo hi step = []
step_by (suc fuel) lo hi step = if ltb lo hi then lo ∷ step_by fuel (lo + step) hi step else []

-- The codecs that prost generates, and the MD5 digest.
module _ (encode_head : RequestHead → List ℕ) (decode_head : List ℕ → Option ResponseHead)
    (digest : List ℕ → List ℕ) where
  abbrev pub after_round :
      UploadEnd × List HighwayFrame → List HighwayFrame → Round → UploadEnd × List HighwayFrame
  after_round rest sent waiting = (unfinished, sent)
  after_round rest sent (replied panic) = (panicked, sent)
  after_round rest sent (replied (done (err e))) = (returned (err e), sent)
  after_round rest sent (replied (done (ok percent))) = rest

  -- The loop over the offsets, which both uploads have; `exchange` says what comes of each turn, and
  -- `sent` lists the frames in their order.
  module _ (exchange : ℕ → Round) (client : HighwayClient) (upload : Upload) where
    unfoldable pub upload_loop :
        List ℕ → List ℕ → ℕ → List HighwayFrame → UploadEnd × List HighwayFrame
    unfolding build_frame
    upload_loop [] rest turn sent = (returned (ok tt), sent)
    upload_loop (offset ∷ offsets) rest turn sent =
        let built = build_frame encode_head decode_head digest client upload offset rest in
        let sent' = sent ++ (built.0 ∷ []) in
        after_round (upload_loop offsets built.1 (suc turn) sent') sent' (exchange turn)

    -- `step_by(0)` panics.
    unfoldable pub upload_by : List ℕ → UploadEnd × List HighwayFrame
    unfolding upload_loop step_by
    upload_by stream =
        if client.chunk_size == 0
        then (panicked, [])
        else upload_loop (step_by upload.size 0 upload.size client.chunk_size) stream 0 []

  abbrev pub after_connect :
      Result HighwayError (Unit {0}) → UploadEnd × List HighwayFrame → UploadEnd × List HighwayFrame
  after_connect (err e) rest = (returned (err e), [])
  after_connect (ok _) rest = rest

  -- `fuel` bounds the polls for each answer.
  unfoldable pub tcp_upload :
      ℕ → HighwayClient → Upload → List ℕ → TcpServer → UploadEnd × List HighwayFrame
  unfolding upload_by tcp_round
  tcp_upload fuel client upload stream server =
      after_connect server.connect (
        upload_by (tcp_round encode_head decode_head digest fuel server.turns) client upload stream)

  unfoldable pub http_upload :
      HighwayClient
      → Upload
      → List ℕ
      → (ℕ → Result HighwayError (List ℕ))
      → UploadEnd × List HighwayFrame
  unfolding upload_by http_round
  http_upload client upload stream replies =
      upload_by (http_round encode_head decode_head digest replies) client upload stream

  abbrev pub or_else :
      UploadEnd × List HighwayFrame → UploadEnd × List HighwayFrame → UploadEnd × List HighwayFrame
  or_else (returned (err e), sent) second = second
  or_else (returned (ok u), sent) second = (returned (ok u), sent)
  or_else (panicked, sent) second = (panicked, sent)
  or_else (unfinished, sent) second = (unfinished, sent)

  -- TCP first; after an error the stream is read again from its start, and goes over HTTP.
  unfoldable pub upload_file :
      ℕ
      → HighwayClient
      → Upload
      → List ℕ
      → TcpServer
      → (ℕ → Result HighwayError (List ℕ))
      → UploadEnd × List HighwayFrame
  unfolding tcp_upload http_upload
  upload_file fuel client upload stream tcp http =
      or_else (tcp_upload fuel client upload stream tcp) (http_upload client upload stream http)
