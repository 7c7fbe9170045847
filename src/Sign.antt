-- ===== src/Sign.antt =====
-- mania/src/core/sign.rs: the commands that are signed.
use mania.Base.{ℕ, List, [], ◌∷◌, Option, none, Bool, true, false, if◌then◌else◌, ◌==◌, ◌||◌, ◌&&◌}
use mania.Base.Text.{codes}
use mania.Context.{Context, SignResult}

unfoldable pub same_text : List ℕ → List ℕ → Bool
same_text [] [] = true
same_text [] (c ∷ cs) = false
same_text (c ∷ cs) [] = false
same_text (c ∷ cs) (d ∷ ds) = c == d && same_text cs ds

unfoldable pub contains : List (List ℕ) → List ℕ → Bool
unfolding same_text
contains [] command = false
contains (c ∷ cs) command = same_text c command || contains cs command

abbrev pub whitelist : List (List ℕ)
whitelist =
    codes "trpc.o3.ecdh_access.EcdhAccess.SsoEstablishShareKey"
    ∷ codes "trpc.o3.ecdh_access.EcdhAccess.SsoSecureAccess"
    ∷ codes "trpc.o3.report.Report.SsoReport"
    ∷ codes "MessageSvc.PbSendMsg"
    ∷ codes "wtlogin.trans_emp"
    ∷ codes "wtlogin.login"
    ∷ codes "trpc.login.ecdh.EcdhService.SsoKeyExchange"
    ∷ codes "trpc.login.ecdh.EcdhService.SsoNTLoginPasswordLogin"
    ∷ codes "trpc.login.ecdh.EcdhService.SsoNTLoginEasyLogin"
    ∷ codes "trpc.login.ecdh.EcdhService.SsoNTLoginPasswordLoginNewDevice"
    ∷ codes "trpc.login.ecdh.EcdhService.SsoNTLoginEasyLoginUnusualDevice"
    ∷ codes "trpc.login.ecdh.EcdhService.SsoNTLoginPasswordLoginUnusualDevice"
    ∷ codes "OidbSvcTrpcTcp.0x11ec_1"
    ∷ codes "OidbSvcTrpcTcp.0x758_1"
    ∷ codes "OidbSvcTrpcTcp.0x7c1_1"
    ∷ codes "OidbSvcTrpcTcp.0x7c2_5"
    ∷ codes "OidbSvcTrpcTcp.0x10db_1"
    ∷ codes "OidbSvcTrpcTcp.0x8a1_7"
    ∷ codes "OidbSvcTrpcTcp.0x89a_0"
    ∷ codes "OidbSvcTrpcTcp.0x89a_15"
    ∷ codes "OidbSvcTrpcTcp.0x88d_0"
    ∷ codes "OidbSvcTrpcTcp.0x88d_14"
    ∷ codes "OidbSvcTrpcTcp.0x112a_1"
    ∷ codes "OidbSvcTrpcTcp.0x587_74"
    ∷ codes "OidbSvcTrpcTcp.0x1100_1"
    ∷ codes "OidbSvcTrpcTcp.0x1102_1"
    ∷ codes "OidbSvcTrpcTcp.0x1103_1"
    ∷ codes "OidbSvcTrpcTcp.0x1107_1"
    ∷ codes "OidbSvcTrpcTcp.0x1105_1"
    ∷ codes "OidbSvcTrpcTcp.0xf88_1"
    ∷ codes "OidbSvcTrpcTcp.0xf89_1"
    ∷ codes "OidbSvcTrpcTcp.0xf57_1"
    ∷ codes "OidbSvcTrpcTcp.0xf57_106"
    ∷ codes "OidbSvcTrpcTcp.0xf57_9"
    ∷ codes "OidbSvcTrpcTcp.0xf55_1"
    ∷ codes "OidbSvcTrpcTcp.0xf67_1"
    ∷ codes "OidbSvcTrpcTcp.0xf67_5"
    ∷ codes "OidbSvcTrpcTcp.0x6d9_4"
    ∷ []

-- `sign` of a provider: only what is on the list is handed to `sign_impl`.
unfoldable pub sign : Context → List ℕ → ℕ → List ℕ → Option SignResult
unfolding contains
sign ctx command sequence body =
    if contains whitelist command then ctx.sign_impl command sequence body else none
