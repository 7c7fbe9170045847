-- ===== src/Sso/Build/Tests.antt =====
-- Packets of a fresh client at concrete bytes.
use mania.Base.{ℕ, ◌+◌, ◌≡◌, refl, List, [], ◌∷◌, ◌++◌, length, replicate, some, arith, Option}
use mania.Base.Fault.{done}
use mania.Base.Text.{codes, digit}
use mania.Context.Example.{fresh}
use mania.Sso.{SsoPacket, t13}
use mania.Sso.Answer.{counted}
use mania.Sso.Build.{SsoProtos, build_protocol12, hex}
use mania.Sso.Build.Layout.{bytes12, build_protocol12-layout}
use mania.Sso.Build.Trace.{random_trace, small_bytes, length-random_trace}
use mania.Tea.Runs.{fill_220, sso_request_encrypted, sso_request_run}

abbrev protos : SsoProtos
protos = record { encode_device_sign = λ trace uid sign. trace; encode_packet_uid = λ uid. uid }

abbrev ping : SsoPacket
ping = record {
  packet_type = t13;
  command = codes "Heartbeat.Alive";
  sequence = 5000001;
  payload = 0 ∷ 0 ∷ 0 ∷ 4 ∷ [];
}

length-random_trace_example :
    length (random_trace (3 ∷ replicate 15 200) (replicate 8 200))
      + (small_bytes (3 ∷ replicate 15 200) + small_bytes (replicate 8 200))
    ≡ 55
length-random_trace_example =
    length-random_trace (3 ∷ replicate 15 200) (replicate 8 200) (omega arith) (omega arith) refl
      refl

build_protocol12-layout_example :
    build_protocol12 protos ping fresh fill_220 (codes "tr")
    ≡ done (counted (bytes12 protos ping fresh sso_request_encrypted))
unfolding hex digit mania.Base.Int.to_unsigned
build_protocol12-layout_example =
    build_protocol12-layout protos ping fresh fill_220 (codes "tr") sso_request_encrypted
      (omega arith) sso_request_run
