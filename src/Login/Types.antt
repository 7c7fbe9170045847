-- ===== src/Login/Types.antt =====
-- The events of a login, and what a QR code says.
use mania.Base.{ℕ, List, Option}

pub data TransEmpStatus : Type 0 where
  query_result fetch_qr_code : TransEmpStatus

pub record TransEmp12ConfirmedData : Type 0 where
  pub tgtgt_key : List ℕ
  pub temp_password : List ℕ
  pub no_pic_sig : List ℕ

pub data TransEmp12Res : Type 0 where
  confirmed : TransEmp12ConfirmedData → TransEmp12Res
  code_expired waiting_for_scan waiting_for_confirm canceled : TransEmp12Res

pub record TransEmp31Res : Type 0 where
  pub qr_code : List ℕ
  pub expiration : ℕ
  pub url : List ℕ
  pub qr_sig : List ℕ
  pub signature : List ℕ

pub data TransEmpResult : Type 0 where
  emp12 : TransEmp12Res → TransEmpResult
  emp31 : TransEmp31Res → TransEmpResult

pub record TransEmp : Type 0 where
  pub status : TransEmpStatus
  pub result : Option TransEmpResult

pub record WtLogin : Type 0 where
  pub code : ℕ
  pub msg : Option (List ℕ)
