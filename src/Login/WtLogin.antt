-- ===== src/Login/WtLogin.antt =====
-- mania/src/core/event/login/wtlogin.rs: the login itself, and what it stores.
pub mod Fields
pub mod Atomic
pub mod Stored
mod Tests
use mania.Base.{ℕ, List, [], ◌∷◌, Option, none, some, if◌then◌else◌, ◌==◌, length}
use mania.Base.Fault.{Fault, done, panic, Result, ok, err}
use mania.Base.Fault
use mania.Context.{Context, AccountInfo}
use mania.Event.{call, found, from_packet}
use mania.Login.Downcast.{as_t106, as_t10a, as_t119, as_t143, as_t146, as_t305, as_t543, as_t11a}
use mania.Login.Step.{Step, ◌>>=◌, ◌>>◌, pure, load, lift, store}
use mania.Login.Types.{WtLogin}
use mania.Login.WtLogin.Fields.{type_fields}
use mania.Login.Wrapper.{build_wtlogin_packet, parse_wtlogin_packet}
use mania.Packet.Builder.{Build, ◌⨾◌, build, u16}
use mania.Tea.{tea_decrypt}
use mania.Tlv.Login.{serialize_tlv_set}
use mania.Tlv.Set.{TlvSet, deserialize, get}
use mania.Tlv.Writer.{TlvProtos}

abbrev pub build_tlvs : List ℕ
build_tlvs =
    0x106 ∷ 0x144 ∷ 0x116 ∷ 0x142 ∷ 0x145 ∷ 0x018 ∷ 0x141 ∷ 0x177 ∷ 0x191 ∷ 0x100 ∷ 0x107 ∷ 0x318
    ∷ 0x16A ∷ 0x166 ∷ 0x521 ∷ []

-- `build`
unfoldable pub build_wtlogin : (ℕ → List ℕ) → Context → Fault (List ℕ × Context)
build_wtlogin fill ctx =
    Fault.◌>>=◌ (build (u16 0x09 ⨾ serialize_tlv_set fill ctx build_tlvs))
      λ body. build_wtlogin_packet fill ctx 2064 body

-- `try_into().expect("d2_key is not 16 bytes long")`
unfoldable pub sixteen_bytes : List ℕ → Fault (List ℕ)
sixteen_bytes d2_key = if length d2_key == 16 then done d2_key else panic

-- The stores to the key store and the session, each of one field.
unfoldable pub store_tgtgt_key : List ℕ → Context → Context
store_tgtgt_key key ctx = record ctx {
  session = record ctx.session { stub = record ctx.session.stub { tgtgt_key = key } };
}

unfoldable pub store_tgt : List ℕ → Context → Context
store_tgt tgt ctx = record ctx {
  key_store = record ctx.key_store { session = record ctx.key_store.session { tgt = tgt } };
}

unfoldable pub store_d2 : List ℕ → Context → Context
store_d2 d2 ctx = record ctx {
  key_store = record ctx.key_store { session = record ctx.key_store.session { d2 = d2 } };
}

unfoldable pub store_d2_key : List ℕ → Context → Context
store_d2_key key ctx = record ctx {
  key_store = record ctx.key_store { session = record ctx.key_store.session { d2_key = key } };
}

unfoldable pub store_uid : List ℕ → Context → Context
store_uid uid ctx = record ctx { key_store = record ctx.key_store { uid = some uid } }

unfoldable pub store_temp_password : List ℕ → Context → Context
store_temp_password password ctx = record ctx {
  key_store = record ctx.key_store {
    session = record ctx.key_store.session { temp_password = some password };
  };
}

unfoldable pub store_session_date : ℕ → Context → Context
store_session_date now ctx = record ctx {
  key_store = record ctx.key_store {
    session = record ctx.key_store.session { session_date = now };
  };
}

unfoldable pub store_info : AccountInfo → Context → Context
store_info info ctx = record ctx { key_store = record ctx.key_store { info = info } }

-- The messages that prost decodes, the digest and the time of the call in nanoseconds.
module _ (protos : TlvProtos) (md5 : List ℕ → List ℕ) (now : ℕ) where
  -- The inner set is encrypted with the key of the session.
  unfoldable pub parse_accepted : TlvSet → Step WtLogin
  parse_accepted original_tlvs = do
    ctx ← load
    enc_tlvs_data ← lift (found (get 0x119 as_t119 original_tlvs))
    dec_tlvs_data ← lift (call (tea_decrypt enc_tlvs_data ctx.session.stub.tgtgt_key))
    tlvs ← lift (call (deserialize protos dec_tlvs_data))
    tgt ← lift (found (get 0x10A as_t10a tlvs))
    d2 ← lift (found (get 0x143 as_t143 tlvs))
    d2_key ← lift (found (get 0x305 as_t305 tlvs))
    trans_d2_key ← lift (call (sixteen_bytes d2_key))
    temp_pwd ← lift (found (get 0x106 as_t106 tlvs))
    uid ← lift (found (get 0x543 as_t543 tlvs))
    self_info ← lift (found (get 0x11A as_t11a tlvs))
    store (store_tgtgt_key (md5 d2_key))
    store (store_tgt tgt)
    store (store_d2 d2)
    store (store_d2_key trans_d2_key)
    store (store_uid uid)
    store (store_temp_password temp_pwd)
    store (store_session_date now)
    store (store_info self_info)
    pure (record { code = 0; msg = none })

  unfoldable pub parse_refused : ℕ → TlvSet → Step WtLogin
  parse_refused typ original_tlvs = do
    message ← lift (found (get 0x146 as_t146 original_tlvs))
    pure (record { code = typ; msg = some message })

  unfoldable pub parse_answer : ℕ → TlvSet → Step WtLogin
  parse_answer typ original_tlvs =
      if typ == 0 then parse_accepted original_tlvs else parse_refused typ original_tlvs

  unfoldable pub parse_wtlogin : List ℕ → Step WtLogin
  parse_wtlogin packet = do
    ctx ← load
    body ← lift (Fault.◌>>=◌ (parse_wtlogin_packet ctx packet) λ r. done (from_packet r))
    ((typ, rest), left) ← lift (call (type_fields body))
    original_tlvs ← lift (call (deserialize protos rest))
    parse_answer typ original_tlvs
