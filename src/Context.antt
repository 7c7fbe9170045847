-- ===== src/Context.antt =====
-- mania/src/core/context.rs, key_store.rs and session.rs: what the events and the packets read, and
-- what a login changes. A text is its UTF-8 bytes; an `ArcSwap` is a field that is replaced whole.
pub mod Keys
pub mod Example
use mania.Base.{ℕ, ◌+◌, ◌%◌, ◌^◌, List, [], ◌∷◌, Option, none, some, replicate}
use mania.Base.Int.{ℤ, pos}
use mania.Base.Text.{codes}

pub data Protocol : Type 0 where
  windows mac_os linux : Protocol

pub record AppInfo : Type 0 where
  pub os : List ℕ
  pub vendor_os : List ℕ
  pub kernel : List ℕ
  pub current_version : List ℕ
  pub build_version : ℤ
  pub misc_bitmap : ℤ
  pub pt_version : List ℕ
  pub pt_os_version : ℤ
  pub package_name : List ℕ
  pub wt_login_sdk : List ℕ
  pub package_sign : List ℕ
  pub app_id : ℤ
  pub sub_app_id : ℤ
  pub app_id_qr_code : ℤ
  pub app_client_version : ℕ
  pub main_sig_map : ℕ
  pub sub_sig_map : ℕ
  pub nt_login_type : ℕ

abbrev pub linux_info : AppInfo
linux_info = record {
  os = codes "Linux";
  vendor_os = codes "linux";
  kernel = codes "Linux";
  current_version = codes "3.2.15-30366";
  build_version = pos 30366;
  misc_bitmap = pos 32764;
  pt_version = codes "2.0.0";
  pt_os_version = pos 19;
  package_name = codes "com.tencent.qq";
  wt_login_sdk = codes "nt.wtlogin.0.0.1";
  package_sign = codes "V1_LNX_NQ_3.2.15-30366_RDM_B";
  app_id = pos 1600001615;
  sub_app_id = pos 537258424;
  app_id_qr_code = pos 13697054;
  app_client_version = 30366;
  main_sig_map = 169742560;
  sub_sig_map = 0;
  nt_login_type = 1;
}

abbrev pub mac_os_info : AppInfo
mac_os_info = record {
  os = codes "Mac";
  vendor_os = codes "mac";
  kernel = codes "Darwin";
  current_version = codes "6.9.23-20139";
  build_version = pos 20139;
  misc_bitmap = pos 32764;
  pt_version = codes "2.0.0";
  pt_os_version = pos 23;
  package_name = codes "com.tencent.qq";
  wt_login_sdk = codes "nt.wtlogin.0.0.1";
  package_sign = codes "V1_MAC_NQ_6.9.23-20139_RDM_B";
  app_id = pos 1600001602;
  sub_app_id = pos 537200848;
  app_id_qr_code = pos 537200848;
  app_client_version = 13172;
  main_sig_map = 169742560;
  sub_sig_map = 0;
  nt_login_type = 5;
}

abbrev pub windows_info : AppInfo
windows_info = record {
  os = codes "Windows";
  vendor_os = codes "win32";
  kernel = codes "Windows_NT";
  current_version = codes "9.9.2-15962";
  build_version = pos 15962;
  misc_bitmap = pos 32764;
  pt_version = codes "2.0.0";
  pt_os_version = pos 23;
  package_name = codes "com.tencent.qq";
  wt_login_sdk = codes "nt.wtlogin.0.0.1";
  package_sign = codes "V1_WIN_NQ_9.9.2-15962_RDM_B";
  app_id = pos 1600001604;
  sub_app_id = pos 537138217;
  app_id_qr_code = pos 537138217;
  app_client_version = 13172;
  main_sig_map = 169742560;
  sub_sig_map = 0;
  nt_login_type = 5;
}

unfoldable pub app_info_of : Protocol → AppInfo
app_info_of windows = windows_info
app_info_of linux = linux_info
app_info_of mac_os = mac_os_info

-- A `Uuid` is its sixteen bytes.
pub record DeviceInfo : Type 0 where
  pub uuid : List ℕ
  pub mac_address : List ℕ
  pub device_name : List ℕ
  pub system_kernel : List ℕ
  pub kernel_version : List ℕ

pub record AccountInfo : Type 0 where
  pub age : ℕ
  pub gender : ℕ
  pub name : List ℕ

-- `session_date` is in nanoseconds.
pub record WtLoginSession : Type 0 where
  pub d2_key : List ℕ
  pub d2 : List ℕ
  pub tgt : List ℕ
  pub session_date : ℕ
  pub qr_sign : Option (List ℕ)
  pub qr_string : Option (List ℕ)
  pub qr_url : Option (List ℕ)
  pub exchange_key : Option (List ℕ)
  pub key_sign : Option (List ℕ)
  pub unusual_sign : Option (List ℕ)
  pub unusual_cookie : Option (List ℕ)
  pub temp_password : Option (List ℕ)
  pub no_pic_sig : Option (List ℕ)

pub record KeyStore : Type 0 where
  pub uin : ℕ
  pub uid : Option (List ℕ)
  pub password_md5 : List ℕ
  pub session : WtLoginSession
  pub info : AccountInfo

pub record KeyCollection : Type 0 where
  pub random_key : List ℕ
  pub tgtgt_key : List ℕ

pub record QrSign : Type 0 where
  pub sign : List ℕ
  pub string : List ℕ
  pub url : List ℕ

pub record Session : Type 0 where
  pub stub : KeyCollection
  pub qr_sign : Option QrSign
  pub unusual_sign : Option (List ℕ)
  pub sequence : ℕ

-- mania/src/core/crypto/ecdh.rs: the client's public key, and the key agreed on with the server.
pub record P256 : Type 0 where
  pub public_key : List ℕ
  pub shared_key : List ℕ

-- mania/src/core/sign.rs
pub record SignResult : Type 0 where
  pub sign : List ℕ
  pub extra : List ℕ
  pub token : List ℕ

pub record Context : Type 0 where
  pub app_info : AppInfo
  pub device : DeviceInfo
  pub key_store : KeyStore
  pub login_p256 : P256
  pub session : Session
  -- `sign_impl` of the provider: the command, the sequence and the body.
  pub sign_impl : List ℕ → ℕ → List ℕ → Option SignResult

unfoldable pub new_session : Session
new_session = record {
  stub = record { random_key = replicate 16 0; tgtgt_key = replicate 16 0 };
  qr_sign = some (record { sign = replicate 24 0; string = []; url = [] });
  unusual_sign = none;
  sequence = 0;
}
