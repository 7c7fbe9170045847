-- ===== src/Highway/Tests.antt =====
-- The frame codec at concrete buffers, and an upload of three bytes in two frames.
use mania.Base.{
  inr, suc, ◌<◌, if◌then◌else◌, ◌==◌, ℕ, List, Option, length, refl, ◌≡◌, arith, [], ◌∷◌, ◌++◌,
  some, none,
}
use mania.Base.Fault.{done, ok, err, Result}
use mania.Base.Text.{codes}
use mania.Highway.Client.{
  RequestHead, ResponseHead, HighwayClient, Upload, TcpServer, parse_frame, tcp_round,
  await_response,
}
use mania.Highway.Covers.{bodies, Consecutive, Accepting}
use mania.Highway.Frame.{
  HighwayFrame, encode, decode, header, stage_2, read_frame, invalid_frame, HighwayError,
  other_error,
}
use mania.Highway.Sent.{tcp_upload-Consecutive, upload_file_closed}
use mania.Highway.Upload.{step_by, tcp_upload, upload_file, returned, unfinished, http_upload}
use mania.Packet.Reader.{u8, u32, get_uint, split_to}
use mania.Highway.Frame.Laws.{decode-encode, decode-framed, decode_partial}

abbrev sample_frame : HighwayFrame
sample_frame = record { head = 1 ∷ 2 ∷ []; body = 3 ∷ [] }

decode-encode_example :
    decode (encode sample_frame [] ++ (9 ∷ [])) ≡ done (ok (some sample_frame), 9 ∷ [])
decode-encode_example = decode-encode sample_frame (9 ∷ []) (omega arith) (omega arith)

decode-framed_example :
    decode (0x28 ∷ 0 ∷ 0 ∷ 0 ∷ 1 ∷ 0 ∷ 0 ∷ 0 ∷ 0 ∷ 5 ∷ 0x30 ∷ 8 ∷ [])
    ≡ done (err invalid_frame, 8 ∷ [])
decode-framed_example = decode-framed 0x28 0x30 (5 ∷ []) [] (8 ∷ []) (omega arith) (omega arith)

decode_partial_example :
    decode (0x28 ∷ 0 ∷ 0 ∷ 0 ∷ 2 ∷ 0 ∷ 0 ∷ 0 ∷ 1 ∷ 1 ∷ []) ≡ done (ok none, 1 ∷ [])
decode_partial_example = decode_partial 0x28 2 1 1 [] (omega arith) (omega arith) (omega arith)

abbrev small_client : HighwayClient
small_client = record { uin = codes "10001"; ticket = []; chunk_size = 2 }

abbrev small_upload : Upload
small_upload = record { cmd = 1004; size = 3; md5 = []; ext_info = [] }

abbrev head_bytes : RequestHead → List ℕ
head_bytes head = head.data_offset ∷ head.data_length ∷ []

-- Every answer says that three bytes of three have arrived.
abbrev all_arrived : List ℕ → Option ResponseHead
all_arrived bytes = some (record {
  error_code = 0;
  msg_seg_head = some (record { data_offset = some 0; data_length = 3; filesize = 3 });
})

abbrev no_digest : List ℕ → List ℕ
no_digest bytes = []

-- A connection whose first poll of each turn gives this.
abbrev server_with : Result HighwayError HighwayFrame → TcpServer
server_with response = record {
  connect = ok tt;
  turns = λ turn. record { send = ok tt; next = λ poll. some response };
}

abbrev accepting : TcpServer
accepting = server_with (ok (record { head = 7 ∷ []; body = [] }))

accepted_twice :
    Accepting head_bytes all_arrived no_digest small_client small_upload
      (tcp_round head_bytes all_arrived no_digest 1 accepting.turns)
      (length (step_by 3 0 3 2))
      0
unfolding step_by tcp_round parse_frame await_response encode decode header u8 u32 get_uint split_to
    stage_2 read_frame
accepted_twice = (((3, 3), refl), (((3, 3), refl), tt))

tcp_upload-Consecutive_example :
    (sent : List HighwayFrame) × (tcp_upload head_bytes all_arrived no_digest 1 small_client
        small_upload
        (1 ∷ 2 ∷ 3 ∷ [])
        accepting
      ≡ (returned (ok tt), sent))
    × (bodies sent ≡ 1 ∷ 2 ∷ 3 ∷ [])
    × Consecutive head_bytes all_arrived no_digest small_client small_upload 0 sent
tcp_upload-Consecutive_example =
    tcp_upload-Consecutive head_bytes all_arrived no_digest small_client small_upload 1
      (1 ∷ 2 ∷ 3 ∷ []) accepting (omega arith) refl refl accepted_twice

-- Of three bytes in chunks of two, the first two are accepted before the connection is closed.
abbrev closing_later : TcpServer
closing_later = record {
  connect = ok tt;
  turns = λ turn. record {
    send = ok tt;
    next = λ poll. if turn == 0 then (accepting.turns 0).next poll else none;
  };
}

abbrev cutting_later : TcpServer
cutting_later = record {
  connect = ok tt;
  turns = λ turn. record {
    send = ok tt;
    next = λ poll. if turn == 0 then (accepting.turns 0).next poll else some (err other_error);
  };
}

accepted_once :
    (server : TcpServer)
    → server.turns 0 ≡ accepting.turns 0
    → (fuel : ℕ)
    → Accepting head_bytes all_arrived no_digest small_client small_upload
        (tcp_round head_bytes all_arrived no_digest (suc fuel) server.turns)
        1
        0
unfolding tcp_round parse_frame await_response encode decode header u8 u32 get_uint split_to stage_2
    read_frame
accepted_once server same fuel = (((3, 3), rw (same) refl), tt)

two_chunks : 1 < length (step_by 3 0 3 2)
unfolding step_by
two_chunks = omega arith

upload_file_closed_example :
    ((sent : List HighwayFrame) × (left : List ℕ) × (upload_file head_bytes all_arrived no_digest 5
          small_client small_upload
          (1 ∷ 2 ∷ 3 ∷ [])
          closing_later
          (λ turn. ok [])
        ≡ (unfinished, sent))
      × (length sent ≡ 2)
      × (bodies sent ++ left ≡ 1 ∷ 2 ∷ 3 ∷ []))
    × (upload_file head_bytes all_arrived no_digest 6 small_client small_upload
          (1 ∷ 2 ∷ 3 ∷ [])
          cutting_later
          (λ turn. ok [])
        ≡ http_upload head_bytes all_arrived no_digest small_client small_upload
            (1 ∷ 2 ∷ 3 ∷ [])
            (λ turn. ok []))
upload_file_closed_example =
    upload_file_closed head_bytes all_arrived no_digest small_client small_upload 5 (1 ∷ 2 ∷ 3 ∷ [])
      closing_later cutting_later 1 other_error (λ turn. ok []) (omega arith) two_chunks refl
      (accepted_once closing_later refl 4) refl (λ i. refl)
      (inr (refl, accepted_once cutting_later refl 5, inr (refl, refl)))
