-- ===== src/Tlv/Set.antt =====
-- The TLVs that are read, and the set that collects them by tag.
pub mod Entries
pub mod Tags
use mania.Base.{ℕ, zero, suc, List, [], ◌∷◌, Option, none, some, if◌then◌else◌, ◌==◌}
use mania.Base.Fault.{Fault, done, panic, Result, ok, err}
use mania.Base.Fault
use mania.Base.Int.{pos}
use mania.Packet.Reader.{
  Reader, ◌>>=◌, ◌>>◌, pure, u8, u16, u32, bytes, string, read_packet, read_with_length,
  section_16_with_addition,
}
use mania.Packet.Builder.{prefix_u8}
use mania.Tlv.Writer.{TlvProtos, QrCodeD1Resp}

-- The objects behind `Box<dyn TlvDe>`, with the fields that `deserialize` reads.
pub data TlvDe : Type 0 where
  t017q : List ℕ → TlvDe
  t018q : List ℕ → TlvDe
  t019q : List ℕ → TlvDe
  t01cq : ℕ → ℕ → TlvDe
  t01eq : List ℕ → TlvDe
  t0d1_resp : QrCodeD1Resp → TlvDe
  t106 : List ℕ → TlvDe
  t10a : List ℕ → TlvDe
  t119 : List ℕ → TlvDe
  t143 : List ℕ → TlvDe
  t146 : ℕ → List ℕ → List ℕ → ℕ → TlvDe
  t305 : List ℕ → TlvDe
  t543 : List ℕ → TlvDe
  t11a : ℕ → ℕ → ℕ → List ℕ → TlvDe

pub data TlvError : Type 0 where
  unsupported_tag : ℕ → TlvError
  protobuf_decode_error : TlvError
  missing_tlv : ℕ → TlvError

-- `tag()`, by the literals given to `impl_tlv_de!`.
unfoldable pub tag_of : TlvDe → ℕ
tag_of (t017q v) = 0x017
tag_of (t018q v) = 0x018
tag_of (t019q v) = 0x019
tag_of (t01cq s m) = 0x01c
tag_of (t01eq v) = 0x01e
tag_of (t0d1_resp v) = 0x0d1
tag_of (t106 v) = 0x106
tag_of (t10a v) = 0x10A
tag_of (t119 v) = 0x119
tag_of (t143 v) = 0x143
tag_of (t146 s t m f) = 0x146
tag_of (t305 v) = 0x305
tag_of (t543 v) = 0x543
tag_of (t11a f a g n) = 0x11A

-- What a `deserialize` does with its value, inside `length_value`.
abbrev pub Body : Type 0
Body = Reader (Result TlvError TlvDe)

-- The TLVs whose value is bytes and no more.
unfoldable pub whole : (List ℕ → TlvDe) → Body
whole make = do bs ← bytes; pure (ok (make bs))

unfoldable pub body_017q : Body
unfolding whole
body_017q = whole t017q

unfoldable pub body_018q : Body
unfolding whole
body_018q = whole t018q

unfoldable pub body_019q : Body
unfolding whole
body_019q = whole t019q

unfoldable pub body_01eq : Body
unfolding whole
body_01eq = whole t01eq

unfoldable pub body_106 : Body
unfolding whole
body_106 = whole t106

unfoldable pub body_10a : Body
unfolding whole
body_10a = whole t10a

unfoldable pub body_119 : Body
unfolding whole
body_119 = whole t119

unfoldable pub body_143 : Body
unfolding whole
body_143 = whole t143

unfoldable pub body_305 : Body
unfolding whole
body_305 = whole t305

unfoldable pub body_01cq : Body
body_01cq = do sec ← u32; min ← u16; pure (ok (t01cq sec min))

unfoldable pub body_146 : Body
body_146 = do
  state ← u32
  tag ← section_16_with_addition (pos 0) string
  message ← section_16_with_addition (pos 0) string
  field0 ← u32
  pure (ok (t146 state tag message field0))

unfoldable pub body_11a : Body
body_11a = do
  face_id ← u16
  age ← u8
  gender ← u8
  nick_name ← read_with_length prefix_u8 string
  pure (ok (t11a face_id age gender nick_name))

module _ (protos : TlvProtos) where
  unfoldable pub body_0d1 : Body
  body_0d1 = do
    bs ← bytes
    elim (protos.decode_d1_resp bs) [
      | none ↦ pure (err protobuf_decode_error)
      | some resp ↦ pure (ok (t0d1_resp resp))
    ]

  -- `expect` and the two `unwrap`s panic on a message without the text.
  unfoldable pub body_543 : Body
  body_543 = do
    bs ← bytes
    elim (protos.decode_543 bs) [ some (some (some uid)) ↦ pure (ok (t543 uid)) | _ ↦ λ r. panic ]

  -- `TLV_QR_DE_MAP`
  unfoldable pub qrcode_body : ℕ → Option Body
  unfolding body_017q body_018q body_019q body_01cq body_01eq body_0d1
  qrcode_body tag =
      if tag == 0x017
      then some body_017q
      else if tag == 0x018
      then some body_018q
      else if tag == 0x019
      then some body_019q
      else if tag == 0x01c
      then some body_01cq
      else if tag == 0x01e
      then some body_01eq
      else if tag == 0x0d1
      then some body_0d1
      else none

  -- `TLV_DE_MAP`
  unfoldable pub login_body : ℕ → Option Body
  unfolding body_106 body_10a body_119 body_143 body_146 body_305 body_543 body_11a
  login_body tag =
      if tag == 0x106
      then some body_106
      else if tag == 0x10A
      then some body_10a
      else if tag == 0x119
      then some body_119
      else if tag == 0x143
      then some body_143
      else if tag == 0x146
      then some body_146
      else if tag == 0x305
      then some body_305
      else if tag == 0x543
      then some body_543
      else if tag == 0x11A
      then some body_11a
      else none

-- `length_value`
unfoldable pub length_value {ℓ} : {T : Type ℓ} → Reader T → Reader T
length_value f = section_16_with_addition (pos 0) f

-- After the tag: an unknown TLV is skipped by its length.
unfoldable pub dispatch : ℕ → Option Body → Body
dispatch tag none = do len ← u16; read_packet len; pure (err (unsupported_tag tag))
dispatch tag (some body) = length_value body

-- `deserialize_tlv` and `deserialize_qrcode_tlv`, which differ in the table.
unfoldable pub deserialize_one : (ℕ → Option Body) → Body
deserialize_one table = do tag ← u16; dispatch tag (table tag)

-- `HashMap<u16, Box<dyn TlvDe>>`
abbrev pub TlvSet : Type 0
TlvSet = List (ℕ × TlvDe)

unfoldable pub insert : ℕ → TlvDe → TlvSet → TlvSet
insert tag v [] = (tag, v) ∷ []
insert tag v ((t, w) ∷ m) = if t == tag then (tag, v) ∷ m else (t, w) ∷ insert tag v m

unfoldable pub lookup : ℕ → TlvSet → Option TlvDe
lookup tag [] = none
lookup tag ((t, w) ∷ m) = if t == tag then some w else lookup tag m

-- An error is logged, and the loop goes on.
unfoldable pub collect : Result TlvError TlvDe → TlvSet → TlvSet
collect (ok tlv) m = insert (tag_of tlv) tlv m
collect (err e) m = m

unfoldable pub deserialize_count : (ℕ → Option Body) → ℕ → TlvSet → Reader TlvSet
deserialize_count table zero m = pure m
deserialize_count table (suc count) m = do
  r ← deserialize_one table
  deserialize_count table count (collect r m)

unfoldable pub deserialize_set : (ℕ → Option Body) → List ℕ → Fault TlvSet
deserialize_set table packet =
    Fault.◌>>=◌ ((do count ← u16; deserialize_count table count []) packet) λ (m, rest). done m

-- `TlvSet::deserialize_qrcode` and `TlvSet::deserialize`.
unfoldable pub deserialize_qrcode : TlvProtos → List ℕ → Fault TlvSet
deserialize_qrcode protos = deserialize_set (qrcode_body protos)

unfoldable pub deserialize : TlvProtos → List ℕ → Fault TlvSet
deserialize protos = deserialize_set (login_body protos)

-- `get::<T>()`: the tag of `T`, and the downcast to it.
unfoldable pub get {ℓ} : {A : Type ℓ} → ℕ → (TlvDe → Option A) → TlvSet → Result ℕ A
get tag downcast m = elim (lookup tag m) [
  | none ↦ err tag
  | some tlv ↦ elim (downcast tlv) [ none ↦ err tag | some a ↦ ok a ]
]
