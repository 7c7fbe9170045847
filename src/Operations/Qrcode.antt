-- ===== src/Operations/Qrcode.antt =====
-- mania/src/core/operation/wt_op.rs: the QR code, and the loop that waits until it is confirmed. What
-- the server answers, and when, is given for each turn of the loop; times are in milliseconds.
use mania.Base.{ℕ, zero, suc, ◌+◌, List, Option, some, none, if◌then◌else◌, ◌==◌, ltb, length}
use mania.Base.Fault.{Fault, done, panic, Result, ok, err}
use mania.Base.Int.{to_unsigned}
use mania.Base.Text.{codes}
use mania.Context.{Context, QrSign}
use mania.Errors.{BusinessError, ManiaError, internal_event_downcast_error, internal_business_error}
use mania.Login.Types.{
  TransEmp, TransEmpResult, emp12, emp31, TransEmp12Res, TransEmp12ConfirmedData, WtLogin,
  confirmed, code_expired, waiting_for_scan, waiting_for_confirm, canceled,
}
use Prim.Native.String.{String}

-- What `send_event` and `downcast_major_event` give.
pub data Answer (A : Type 0) : Type 0 where
  refused : BusinessError → Answer A
  other_event : Answer A
  answered : A → Answer A

abbrev pub Operation : Type 0 → Type 0
Operation A = Context → Fault (Result ManiaError A × Context)

abbrev pub generic : {A : Type 0} → String → Result ManiaError A
generic text = err (ManiaError.generic_error (codes text))

-- `.send_event(..).await?` and the downcast, before the answer is looked at.
abbrev pub event_of : {A : Type 0} → Answer A → Result ManiaError A
event_of (refused e) = err (internal_business_error e)
event_of other_event = err internal_event_downcast_error
event_of (answered event) = ok event

abbrev pub result_of : Result ManiaError TransEmp → Result ManiaError TransEmpResult
result_of (err e) = err e
result_of (ok event) = elim event.result [
  | none ↦ generic "Emp result not found"
  | some result ↦ ok result
]

unfoldable pub store_qr_sign : QrSign → Context → Context
store_qr_sign qr_sign ctx = record ctx { session = record ctx.session { qr_sign = some qr_sign } }

unfoldable pub take_qrcode : Result ManiaError TransEmpResult → Operation (List ℕ × List ℕ)
unfolding store_qr_sign
take_qrcode (err e) ctx = done (err e, ctx)
take_qrcode (ok (emp12 _)) ctx = panic
take_qrcode (ok (emp31 e)) ctx =
    if length e.signature == 24
    then done (
      ok (e.url, e.qr_code),
      store_qr_sign (record { sign = e.signature; string = e.qr_sig; url = e.url }) ctx,
    )
    else done (generic "invalid QR signature", ctx)

-- `stores` is what parsing the answer does to the context.
unfoldable pub fetch_qrcode : Answer TransEmp → (Context → Context) → Operation (List ℕ × List ℕ)
unfolding take_qrcode
fetch_qrcode answer stores ctx = take_qrcode (result_of (event_of answer)) (stores ctx)

-- One turn: what the HTTP service says of a QR string, what the query is answered, and how long both
-- take, `none` where they never end; the same of the login, if there is one.
pub record Turn : Type 0 where
  pub face : ℕ → List ℕ → Result ManiaError ℕ
  pub query : Answer TransEmp
  pub query_stores : Context → Context
  pub took : Option ℕ
  pub login : Answer WtLogin
  pub login_stores : Context → Context
  pub login_took : Option ℕ

unfoldable pub store_uin : ℕ → Context → Context
store_uin uin ctx = record ctx { key_store = record ctx.key_store { uin = uin } }

abbrev pub take_status : Result ManiaError TransEmpResult → Operation TransEmp12Res
take_status (err e) ctx = done (err e, ctx)
take_status (ok (emp12 status)) ctx = done (ok status, ctx)
take_status (ok (emp31 _)) ctx = panic

unfoldable pub query_with_uin : Turn → Result ManiaError ℕ → Operation TransEmp12Res
unfolding store_uin
query_with_uin turn (err e) ctx = done (err e, ctx)
query_with_uin turn (ok uin) ctx =
    take_status (result_of (event_of turn.query)) (turn.query_stores (store_uin uin ctx))

unfoldable pub query_with_sign : Turn → Option QrSign → Operation TransEmp12Res
unfolding query_with_uin
query_with_sign turn none ctx = done (generic "QR code not fetched", ctx)
query_with_sign turn (some qr_sign) ctx =
    query_with_uin turn (turn.face (to_unsigned 64 ctx.app_info.app_id) qr_sign.string) ctx

unfoldable pub query_trans_tmp_status : Turn → Operation TransEmp12Res
unfolding query_with_sign
query_trans_tmp_status turn ctx = query_with_sign turn ctx.session.qr_sign ctx

unfoldable pub store_confirmed : TransEmp12ConfirmedData → Context → Context
store_confirmed d ctx = record ctx {
  session = record ctx.session { stub = record ctx.session.stub { tgtgt_key = d.tgtgt_key } };
  key_store = record ctx.key_store {
    session = record ctx.key_store.session {
      temp_password = some d.temp_password;
      no_pic_sig = some d.no_pic_sig;
    };
  };
}

-- How a login ends: at a time, with a result and a context; at the deadline, when it is cut off
-- wherever it stands; or by a panic. `unfinished` is a loop that has run out of fuel.
pub data LoginEnd : Type 0 where
  finished : ℕ → Result ManiaError (Unit {0}) → Context → LoginEnd
  cut_off : Result ManiaError (Unit {0}) → LoginEnd
  panicked : LoginEnd
  unfinished : LoginEnd

-- The text of a code and a message, which `format!` writes.
module _ (failed_text : ℕ → Option (List ℕ) → List ℕ) where
  abbrev pub check_code : Result ManiaError WtLogin → Result ManiaError (Unit {0})
  check_code (err e) = err e
  check_code (ok event) =
      if event.code == 0
      then ok tt
      else err (ManiaError.generic_error (failed_text event.code event.msg))

  unfoldable pub do_wt_login : Answer WtLogin → Result ManiaError (Unit {0})
  do_wt_login answer = check_code (event_of answer)

  -- A wait under the timeout of 120 seconds.
  unfoldable pub within : ℕ → Option ℕ → (ℕ → LoginEnd) → LoginEnd
  within now none rest = cut_off (generic "QR code scan timed out after 120s!")
  within now (some took) rest =
      if ltb 120000 (now + took)
      then cut_off (generic "QR code scan timed out after 120s!")
      else rest (now + took)

  -- The match on the status. `again` is the next turn of the loop.
  unfoldable pub on_status :
      Turn
      → (ℕ → Context → LoginEnd)
      → ℕ
      → Fault (Result ManiaError TransEmp12Res × Context)
      → LoginEnd
  unfolding within do_wt_login store_confirmed
  on_status turn again now panic = panicked
  on_status turn again now (done (err e, ctx)) = finished now (err e) ctx
  on_status turn again now (done (ok waiting_for_scan, ctx)) =
      within now (some 2000) λ now. again now ctx
  on_status turn again now (done (ok waiting_for_confirm, ctx)) =
      within now (some 2000) λ now. again now ctx
  on_status turn again now (done (ok (confirmed d), ctx)) =
      within now turn.login_took
        λ now. finished now (do_wt_login turn.login) (turn.login_stores (store_confirmed d ctx))
  on_status turn again now (done (ok code_expired, ctx)) =
      finished now (generic "QR code expired") ctx
  on_status turn again now (done (ok canceled, ctx)) =
      finished now (generic "QR code login canceled by user") ctx

  -- The loop, on fuel for its turns.
  unfoldable pub scan : (ℕ → Turn) → ℕ → ℕ → ℕ → Context → LoginEnd
  unfolding within on_status query_trans_tmp_status
  scan turns zero k now ctx = unfinished
  scan turns (suc fuel) k now ctx = within now (turns k).took λ now.
      on_status (turns k) (scan turns fuel (k + 1)) now (query_trans_tmp_status (turns k) ctx)

  unfoldable pub login_by_qrcode : (ℕ → Turn) → Context → LoginEnd
  unfolding scan
  login_by_qrcode turns ctx = scan turns 61 0 0 ctx
