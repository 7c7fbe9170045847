-- ===== src/Login/WtLogin/Stored.antt =====
-- What a login that succeeds has stored.
use mania.Base.{ℕ, ◌≡◌, refl, List, length, ◌==◌, none, subst, Bool-cases, inl, inr, ==_iff}
use mania.Base.Fault.{Fault, done, Result, ok}
use mania.Context.{Context, AccountInfo}
use mania.Event.{EventError, call}
use mania.Login.Step.{◌>>◌, pure, store}
use mania.Login.Step.Ensures.{Ensures, Returns, pass-Ensures, load-Ensures, lift-Ensures}
use mania.Login.Types.{WtLogin}
use mania.Login.WtLogin.{
  parse_accepted, sixteen_bytes, store_tgtgt_key, store_tgt, store_d2, store_d2_key, store_uid,
  store_temp_password, store_session_date, store_info,
}
use mania.Tlv.Set.{TlvSet}
use mania.Tlv.Writer.{TlvProtos}

-- The keys belong together, and the date is that of the login.
pub AreFresh : (List ℕ → List ℕ) → ℕ → Context → Type 0
AreFresh md5 now ctx =
    (length ctx.key_store.session.d2_key ≡ 16)
    × ((ctx.session.stub.tgtgt_key ≡ md5 ctx.key_store.session.d2_key)
        × (ctx.key_store.session.session_date ≡ now))

-- The key is what was read, and has sixteen bytes.
sixteen_bytes-Returns :
    (d2_key : List ℕ)
    → Returns (λ key. (key ≡ d2_key) × (length key ≡ 16)) (call (sixteen_bytes d2_key))
unfolding Returns sixteen_bytes
sixteen_bytes-Returns d2_key key = elim (Bool-cases (length d2_key == 16)) [
  | inl sixteen ↦ rw (sixteen) (λ e.
      let same : key ≡ d2_key = cc (e) in (same, rw (same) ((==_iff (length d2_key) 16).0 sixteen)))
  | inr other ↦ rw (other) (λ e. cc (e))
]

same_context :
    {r r' : WtLogin} {ctx ctx' : Context}
    → ◌≡◌ {A = Fault (Result EventError WtLogin × Context)} (done (ok r, ctx)) (done (ok r', ctx'))
    → ctx ≡ ctx'
same_context e = cc

module _ (protos : TlvProtos) (md5 : List ℕ → List ℕ) (now : ℕ) where
  stores_fresh :
      (d2_key key tgt d2 uid temp_pwd : List ℕ) (info : AccountInfo)
      → (key ≡ d2_key) × (length key ≡ 16)
      → Ensures {A = WtLogin} (AreFresh md5 now) (do
        store (store_tgtgt_key (md5 d2_key))
        store (store_tgt tgt)
        store (store_d2 d2)
        store (store_d2_key key)
        store (store_uid uid)
        store (store_temp_password temp_pwd)
        store (store_session_date now)
        store (store_info info)
        pure (record { code = 0; msg = none }))
  unfolding Ensures store store_tgtgt_key store_tgt store_d2 store_d2_key store_uid
      store_temp_password store_session_date store_info AreFresh
  stores_fresh d2_key key tgt d2 uid temp_pwd info (same, n) ctx ctx' a e =
      subst (AreFresh md5 now) (same_context e) (n, (rw (same), refl))

  parse_accepted-Ensures :
      (original_tlvs : TlvSet)
      → Ensures (AreFresh md5 now) (parse_accepted protos md5 now original_tlvs)
  unfolding parse_accepted
  parse_accepted-Ensures original_tlvs =
      let P : Context → Type 0 = AreFresh md5 now in
      load-Ensures P _ λ before. pass-Ensures P _ _ λ enc_tlvs_data.
        pass-Ensures P _ _ λ dec_tlvs_data. pass-Ensures P _ _ λ tlvs. pass-Ensures P _ _ λ tgt.
          pass-Ensures P _ _ λ d2. pass-Ensures P _ _ λ d2_key.
            lift-Ensures P _ _ _ (sixteen_bytes-Returns d2_key) λ trans_d2_key known.
              pass-Ensures P _ _ λ temp_pwd. pass-Ensures P _ _ λ uid.
                pass-Ensures P _ _
                  λ self_info. stores_fresh d2_key trans_d2_key tgt d2 uid temp_pwd self_info known

  -- When the TLVs of an accepted login are stored without an error, the key of the session has
  -- sixteen bytes, the tgtgt key is its digest, and the session is dated now.
  pub parse_accepted_stored :
      (original_tlvs : TlvSet) (ctx ctx' : Context) (r : WtLogin)
      → parse_accepted protos md5 now original_tlvs ctx ≡ done (ok r, ctx')
      → AreFresh md5 now ctx'
  unfolding Ensures
  parse_accepted_stored original_tlvs ctx ctx' r e =
      parse_accepted-Ensures original_tlvs ctx ctx' r e
