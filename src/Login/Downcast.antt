-- ===== src/Login/Downcast.antt =====
-- `downcast_ref` to each type of TLV that a login asks for.
use mania.Base.{ℕ, List, Option, none, some}
use mania.Tlv.Set.{
  TlvDe, t017q, t018q, t019q, t01cq, t01eq, t0d1_resp, t106, t10a, t119, t143, t146, t305, t543,
  t11a,
}
use mania.Tlv.Writer.{QrCodeD1Resp}
use mania.Context.{AccountInfo}

unfoldable pub as_t017q : TlvDe → Option (List ℕ)
as_t017q (t017q v) = some v
as_t017q _ = none

unfoldable pub as_t018q : TlvDe → Option (List ℕ)
as_t018q (t018q v) = some v
as_t018q _ = none

unfoldable pub as_t019q : TlvDe → Option (List ℕ)
as_t019q (t019q v) = some v
as_t019q _ = none

unfoldable pub as_t01eq : TlvDe → Option (List ℕ)
as_t01eq (t01eq v) = some v
as_t01eq _ = none

unfoldable pub as_t106 : TlvDe → Option (List ℕ)
as_t106 (t106 v) = some v
as_t106 _ = none

unfoldable pub as_t10a : TlvDe → Option (List ℕ)
as_t10a (t10a v) = some v
as_t10a _ = none

unfoldable pub as_t119 : TlvDe → Option (List ℕ)
as_t119 (t119 v) = some v
as_t119 _ = none

unfoldable pub as_t143 : TlvDe → Option (List ℕ)
as_t143 (t143 v) = some v
as_t143 _ = none

unfoldable pub as_t305 : TlvDe → Option (List ℕ)
as_t305 (t305 v) = some v
as_t305 _ = none

unfoldable pub as_t543 : TlvDe → Option (List ℕ)
as_t543 (t543 v) = some v
as_t543 _ = none

-- The seconds to the expiry, which is all that is read of it.
unfoldable pub as_t01cq : TlvDe → Option ℕ
as_t01cq (t01cq sec min) = some sec
as_t01cq _ = none

unfoldable pub as_t0d1 : TlvDe → Option QrCodeD1Resp
as_t0d1 (t0d1_resp resp) = some resp
as_t0d1 _ = none

-- The message of a refused login.
unfoldable pub as_t146 : TlvDe → Option (List ℕ)
as_t146 (t146 state tag message field0) = some message
as_t146 _ = none

unfoldable pub as_t11a : TlvDe → Option AccountInfo
as_t11a (t11a face_id age gender nick_name) =
    some (record { age = age; gender = gender; name = nick_name })
as_t11a _ = none
