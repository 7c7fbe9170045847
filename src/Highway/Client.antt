-- ===== src/Highway/Client.antt =====
-- mania/src/core/highway/hw_client.rs: a file goes up in frames of `chunk_size` bytes, each of which is
-- answered. The stream is read whole from memory; what the server does is given for each turn of the loop.
use mania.Base.{
  ℕ, zero, suc, ◌+◌, ◌^◌, Option, some, none, List, [], if◌then◌else◌, ltb, ◌==◌, length, take,
  drop,
}
use mania.Base.Fault.{Fault, done, panic, Result, ok, err}
use mania.Base.Fault
use mania.Base.Text.{codes}
use mania.Highway.Frame.{HighwayFrame, HighwayError, upload_error, other_error, encode, decode}

-- ReqDataHighwayHead, as build_pic_up_head fills it.
pub record RequestHead : Type 0 where
  pub version : ℕ
  pub uin : List ℕ
  pub command : List ℕ
  pub seq : ℕ
  pub retry_times : ℕ
  pub app_id : ℕ
  pub data_flag : ℕ
  pub command_id : ℕ
  pub service_id : ℕ
  pub filesize : ℕ
  pub data_offset : ℕ
  pub data_length : ℕ
  pub service_ticket : List ℕ
  pub md5 : List ℕ
  pub file_md5 : List ℕ
  pub cache_addr : ℕ
  pub cache_port : ℕ
  pub extend_info : List ℕ
  pub timestamp : ℕ
  pub login_sig_type : ℕ
  pub login_app_id : ℕ

-- SegHead and RespDataHighwayHead, of an answer.
pub record SegmentHead : Type 0 where
  pub data_offset : Option ℕ
  pub data_length : ℕ
  pub filesize : ℕ

pub record ResponseHead : Type 0 where
  pub error_code : ℕ
  pub msg_seg_head : Option SegmentHead

pub record HighwaySession : Type 0 where
  pub ticket : List ℕ
  pub uin : List ℕ
  pub cmd : ℕ
  pub command : List ℕ
  pub file_md5 : List ℕ
  pub file_size : ℕ
  pub ext : List ℕ

pub record HighwayClient : Type 0 where
  pub uin : List ℕ
  pub ticket : List ℕ
  pub chunk_size : ℕ

-- The arguments of an upload.
pub record Upload : Type 0 where
  pub cmd : ℕ
  pub size : ℕ
  pub md5 : List ℕ
  pub ext_info : List ℕ

unfoldable pub build_pic_up_head : HighwaySession → ℕ → ℕ → List ℕ → RequestHead
build_pic_up_head session offset body_length body_md5 = record {
  version = 1;
  uin = session.uin;
  command = session.command;
  seq = 0;
  retry_times = 0;
  app_id = 1600001604;
  data_flag = 16;
  command_id = session.cmd;
  service_id = 0;
  filesize = session.file_size;
  data_offset = offset;
  data_length = body_length;
  service_ticket = session.ticket;
  md5 = body_md5;
  file_md5 = session.file_md5;
  cache_addr = 0;
  cache_port = 0;
  extend_info = session.ext;
  timestamp = 0;
  login_sig_type = 8;
  login_app_id = 1600001604;
}

-- What the exchange of one frame comes to: what parse_frame says of the answer, or `waiting`, when the
-- polls that are looked at have all given `None`.
pub data Round : Type 0 where
  replied : Fault (Result HighwayError (ℕ × ℕ)) → Round
  waiting : Round

-- One frame on a TCP connection: what `stream.send` gives, and then each poll of `stream.next`.
pub record TcpTurn : Type 0 where
  pub send : Result HighwayError (Unit {0})
  pub next : ℕ → Option (Result HighwayError HighwayFrame)

-- What the address and the connection give, and then each turn of the loop.
pub record TcpServer : Type 0 where
  pub connect : Result HighwayError (Unit {0})
  pub turns : ℕ → TcpTurn

-- `loop { if let Some(resp) = stream.next().await { break resp; } }`, on fuel for the polls.
unfoldable pub await_response :
    ℕ
    → (ℕ → Option (Result HighwayError HighwayFrame))
    → ℕ
    → Option (Result HighwayError HighwayFrame)
await_response zero next k = none
await_response (suc fuel) next k = elim (next k) [
  | some resp ↦ some resp
  | none ↦ await_response fuel next (suc k)
]

-- The codecs that prost generates, and the MD5 digest.
module _ (encode_head : RequestHead → List ℕ) (decode_head : List ℕ → Option ResponseHead)
    (digest : List ℕ → List ℕ) where
  -- The frame for the chunk that `read_stream` has read.
  unfoldable pub frame_of : HighwayClient → Upload → ℕ → List ℕ → HighwayFrame
  unfolding build_pic_up_head
  frame_of client upload offset chunk =
      let session : HighwaySession = record {
        ticket = client.ticket;
        uin = client.uin;
        cmd = upload.cmd;
        command = codes "PicUp.DataUp";
        file_md5 = upload.md5;
        file_size = upload.size;
        ext = upload.ext_info;
      } in
      record {
        head = encode_head (build_pic_up_head session offset (length chunk) (digest chunk));
        body = chunk;
      }

  -- The frame, and what is left of the stream.
  unfoldable pub build_frame : HighwayClient → Upload → ℕ → List ℕ → HighwayFrame × List ℕ
  unfolding frame_of
  build_frame client upload offset rest =
      (frame_of client upload offset (take client.chunk_size rest), drop client.chunk_size rest)

  -- The end of the part that has arrived, and the size of the file. The sum of two u64 may overflow.
  abbrev pub progress : SegmentHead → Option ℕ → Fault (Result HighwayError (ℕ × ℕ))
  progress seg none = done (err other_error)
  progress seg (some data_offset) =
      if ltb (data_offset + seg.data_length) (2 ^ 64)
      then done (ok (data_offset + seg.data_length, seg.filesize))
      else panic

  abbrev pub progress_of : Option SegmentHead → Fault (Result HighwayError (ℕ × ℕ))
  progress_of none = done (err other_error)
  progress_of (some seg) = progress seg seg.data_offset

  abbrev pub check_head : Option ResponseHead → Fault (Result HighwayError (ℕ × ℕ))
  check_head none = panic
  check_head (some head) =
      if head.error_code == 0
      then progress_of head.msg_seg_head
      else done (err (upload_error head.error_code))

  abbrev pub check_frame :
      Result HighwayError (Option HighwayFrame) → Fault (Result HighwayError (ℕ × ℕ))
  check_frame (err e) = done (err e)
  check_frame (ok none) = done (err other_error)
  check_frame (ok (some frame)) = check_head (decode_head frame.head)

  -- The frame is written and read once more.
  unfoldable pub parse_frame : HighwayFrame → Fault (Result HighwayError (ℕ × ℕ))
  unfolding encode decode
  parse_frame frame = Fault.◌>>=◌ (decode (encode frame [])) λ (decoded, rest). check_frame decoded

  abbrev pub after_response : Option (Result HighwayError HighwayFrame) → Round
  after_response none = waiting
  after_response (some (err e)) = replied (done (err e))
  after_response (some (ok frame)) = replied (parse_frame frame)

  abbrev pub after_send :
      ℕ → (ℕ → Option (Result HighwayError HighwayFrame)) → Result HighwayError (Unit {0}) → Round
  after_send fuel next (err e) = replied (done (err e))
  after_send fuel next (ok _) = after_response (await_response fuel next 0)

  unfoldable pub tcp_round : ℕ → (ℕ → TcpTurn) → ℕ → Round
  unfolding parse_frame await_response
  tcp_round fuel turns turn = after_send fuel (turns turn).next (turns turn).send

  abbrev pub parse_decoded :
      Result HighwayError (Option HighwayFrame) → Fault (Result HighwayError (ℕ × ℕ))
  parse_decoded (err e) = done (err e)
  parse_decoded (ok none) = done (err other_error)
  parse_decoded (ok (some frame)) = parse_frame frame

  abbrev pub after_post : Result HighwayError (List ℕ) → Fault (Result HighwayError (ℕ × ℕ))
  after_post (err e) = done (err e)
  after_post (ok res) = Fault.◌>>=◌ (decode res) λ (decoded, rest). parse_decoded decoded

  unfoldable pub http_round : (ℕ → Result HighwayError (List ℕ)) → ℕ → Round
  unfolding parse_frame decode
  http_round replies turn = replied (after_post (replies turn))
