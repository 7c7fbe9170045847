-- ===== src/Operations/Tests.antt =====
-- Tests of the login by QR code, and the witnesses of its theorems.
use mania.Base.{ℕ, zero, suc, List, [], ◌∷◌, Option, some, none, ◌≡◌, refl, replicate}
use mania.Base.Fault.{done, ok}
use mania.Base.Text.{codes}
use mania.Context.{Context}
use mania.Context.Example.{fresh}
use mania.Login.Types.{
  TransEmp12Res, TransEmp12ConfirmedData, WtLogin, emp12, query_result, confirmed, waiting_for_scan,
}
use mania.Operations.Confirmed.{login_by_qrcode-Confirmed, KeysStored}
use mania.Operations.Deadline.{EndsInTime, login_by_qrcode-EndsInTime}
use mania.Operations.Qrcode.{
  answered, Turn, finished, login_by_qrcode, scan, within, on_status, query_trans_tmp_status,
  query_with_sign, query_with_uin, store_uin, store_confirmed, do_wt_login, store_qr_sign,
}

abbrev says : ℕ → Option (List ℕ) → List ℕ
says code msg = code ∷ []

abbrev key_data : TransEmp12ConfirmedData
key_data = record { tgtgt_key = 1 ∷ []; temp_password = 2 ∷ []; no_pic_sig = 3 ∷ [] }

abbrev turn_with : TransEmp12Res → Turn
turn_with status = record {
  face = λ app_id qr_sig. ok 10001;
  query = answered (record { status = query_result; result = some (emp12 status) });
  query_stores = λ ctx. ctx;
  took = some 100;
  login = answered (record { code = 0; msg = none });
  login_stores = λ ctx. ctx;
  login_took = some 300;
}

-- The code is confirmed at the second turn.
abbrev turns : ℕ → Turn
turns zero = turn_with waiting_for_scan
turns (suc k) = turn_with (confirmed key_data)

abbrev ready_to_scan : Context
unfolding store_qr_sign
ready_to_scan = store_qr_sign (record { sign = replicate 24 0; string = codes "q"; url = [] }) fresh

abbrev logged_in : Context
unfolding store_confirmed store_uin store_qr_sign
logged_in = store_confirmed key_data (store_uin 10001 (store_uin 10001 ready_to_scan))

succeeds : login_by_qrcode says turns ready_to_scan ≡ finished 2500 (ok tt) logged_in
unfolding login_by_qrcode scan within on_status query_trans_tmp_status query_with_sign
    query_with_uin store_uin store_confirmed do_wt_login store_qr_sign
succeeds = refl

login_by_qrcode-EndsInTime_example : EndsInTime (login_by_qrcode says turns ready_to_scan)
login_by_qrcode-EndsInTime_example = login_by_qrcode-EndsInTime says turns ready_to_scan

login_by_qrcode-Confirmed_example :
    (k : ℕ) × (before : Context) × (after : Context) × (d : TransEmp12ConfirmedData)
    × (event : WtLogin) × (stored : Context) × (query_trans_tmp_status (turns k) before
        ≡ done (ok (confirmed d), after))
    × ((turns k).login ≡ answered event)
    × (event.code ≡ 0)
    × KeysStored d after stored
    × (logged_in ≡ (turns k).login_stores stored)
login_by_qrcode-Confirmed_example =
    login_by_qrcode-Confirmed says turns ready_to_scan logged_in 2500 succeeds
