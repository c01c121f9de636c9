-- ===== src/Tests/Octets.antt =====
-- Samples of bytes, and the packets built from them.
use jlu_drcom_win.Base.{refl, [], ◌∷◌, replicate, arith}
use jlu_drcom_win.Protocol.Types.{Bytes}
use jlu_drcom_win.Protocol.Challenge.{build_login_challenge, build_logout_challenge}
use jlu_drcom_win.Protocol.Crypto.Laws.{AreBytes}
use jlu_drcom_win.Protocol.Login.{login_size, build_login_packet}
use jlu_drcom_win.Protocol.Heartbeat.{
  build_keep_alive_auth, build_first_heartbeat, build_extra_heartbeat, build_heartbeat_step1,
  build_heartbeat_step2,
}
use jlu_drcom_win.Protocol.Logout.{build_logout_packet}
use jlu_drcom_win.Protocol.Octets.{IsByteConfig, IsByteSession}
use jlu_drcom_win.Protocol.Sent.{Gives, GivesLogin, GivesOnly, builders-IsPacket}
use jlu_drcom_win.Tests.Samples.{sevens, config, session}

abbrev nines : Bytes → Bytes
nines bytes = replicate 16 9

nines-AreBytes : (bytes : Bytes) → AreBytes (nines bytes)
nines-AreBytes bytes = omega arith

config-IsByteConfig : IsByteConfig config
config-IsByteConfig = record {
  username = omega arith;
  password = omega arith;
  ip = omega arith;
  mac = omega arith;
  host_name = omega arith;
  os_info = omega arith;
  primary_dns = omega arith;
  dhcp_server = omega arith;
  auth_version = omega arith;
  keep_alive_version = omega arith;
  first_heartbeat_version = omega arith;
  extra_heartbeat_version = omega arith;
}

session-IsByteSession : IsByteSession session
session-IsByteSession = record {
  md5_password = omega arith;
  indicator = omega arith;
  token = omega arith;
}

builders-IsPacket_example :
    Gives 20 (build_login_challenge config.auth_version sevens 0)
    × Gives 20 (build_logout_challenge config.auth_version sevens 0)
    × GivesLogin (login_size config.password) (build_login_packet nines config session sevens 0)
    × Gives 40 (build_first_heartbeat config session sevens 0)
    × Gives 40 (build_extra_heartbeat config session sevens 0)
    × Gives 40 (build_heartbeat_step1 config session sevens 0)
    × GivesOnly 40 (build_heartbeat_step2 config session (1 ∷ 2 ∷ 3 ∷ 4 ∷ []))
    × GivesOnly 38 (build_keep_alive_auth session 1700000000)
    × GivesOnly 80 (build_logout_packet nines config session)
builders-IsPacket_example =
    builders-IsPacket nines nines-AreBytes config config-IsByteConfig session session-IsByteSession
      sevens 0 1 1 (7 ∷ 7 ∷ []) (7 ∷ 7 ∷ 7 ∷ 7 ∷ []) (omega arith) (omega arith) 1700000000
      (1 ∷ 2 ∷ 3 ∷ 4 ∷ []) (omega arith) refl refl refl
