-- ===== src/Context/Example.antt =====
-- A context for the tests: a Linux client that has not logged in yet.
use mania.Base.{ℕ, List, [], ◌∷◌, none, some, replicate}
use mania.Base.Text.{codes}
use mania.Context.{linux_info, Context}

abbrev pub uuid : List ℕ
uuid = 0 ∷ 1 ∷ 2 ∷ 3 ∷ 4 ∷ 5 ∷ 6 ∷ 7 ∷ 8 ∷ 9 ∷ 10 ∷ 11 ∷ 12 ∷ 13 ∷ 14 ∷ 15 ∷ []

abbrev pub fresh : Context
fresh = record {
  app_info = linux_info;
  device = record {
    uuid = uuid;
    mac_address = replicate 6 0;
    device_name = codes "host";
    system_kernel = codes "Linux";
    kernel_version = codes "6";
  };
  key_store = record {
    uin = 0;
    uid = none;
    password_md5 = [];
    session = record {
      d2_key = replicate 16 0;
      d2 = [];
      tgt = [];
      session_date = 0;
      qr_sign = none;
      qr_string = none;
      qr_url = none;
      exchange_key = none;
      key_sign = none;
      unusual_sign = none;
      unusual_cookie = none;
      temp_password = none;
      no_pic_sig = none;
    };
    info = record { age = 0; gender = 0; name = [] };
  };
  login_p256 = record { public_key = 4 ∷ 5 ∷ []; shared_key = replicate 16 1 };
  session = record {
    stub = record { random_key = replicate 16 0; tgtgt_key = replicate 16 0 };
    qr_sign = some (record { sign = replicate 24 0; string = []; url = [] });
    unusual_sign = none;
    sequence = 0;
  };
  sign_impl = λ command sequence body. none;
}
