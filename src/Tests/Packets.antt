-- ===== src/Tests/Packets.antt =====
-- The packet theorems on the sample configuration and session.
use jlu_drcom_win.Base.{◌+◌, ◌≡◌, refl, ◌++◌, some, map, take, arith, [], ◌∷◌}
use jlu_drcom_win.Protocol.Types.{Bytes, Session}
use jlu_drcom_win.Protocol.Buffer.{slice, overwrite}
use jlu_drcom_win.Protocol.Layout.{render}
use jlu_drcom_win.Protocol.Crypto.{xor}
use jlu_drcom_win.Protocol.Crypto.Laws.{AreBytes, unror_byte}
use jlu_drcom_win.Protocol.Login.{ror_len, login_size, md5a_plain, build_login_packet}
use jlu_drcom_win.Protocol.Login.Packet.{login_rows, build_login_packet-table}
use jlu_drcom_win.Protocol.Login.Recover.{recover-build}
use jlu_drcom_win.Protocol.Heartbeat.{build_keep_alive_auth, build_heartbeat_step2}
use jlu_drcom_win.Protocol.Heartbeat.Packets.{keep_alive_rows, step2_rows, check_rows}
use jlu_drcom_win.Protocol.Logout.{build_logout_packet}
use jlu_drcom_win.Protocol.Logout.Packet.{logout_rows}
use jlu_drcom_win.Protocol.Packets.{ChallengeTables, HeartbeatTables, build_packets-tables}
use jlu_drcom_win.Tests.Samples.{sevens, first16, config, session}

abbrev drawn2 : Bytes
drawn2 = 7 ∷ 7 ∷ []

abbrev drawn4 : Bytes
drawn4 = 7 ∷ 7 ∷ 7 ∷ 7 ∷ []

abbrev login_packet : Bytes
login_packet = render 0 (login_size config.password) (login_rows first16 config session drawn2)

abbrev logged_in : Session
logged_in = record session {
  md5_password = overwrite session.md5_password (first16 (md5a_plain config session));
}

build_login_packet-table_example :
    build_login_packet first16 config session sevens 0 ≡ some (login_packet, logged_in, 1)
build_login_packet-table_example =
    build_login_packet-table first16 config session sevens 0 1 drawn2 refl refl

digest-AreBytes : AreBytes (first16 (md5a_plain config session))
digest-AreBytes = omega arith

password-AreBytes : AreBytes config.password
password-AreBytes = omega arith

recover-build_example :
    (xor (slice 58 64 login_packet) (slice 4 20 login_packet) 6 ≡ config.mac)
    × (xor
          (map unror_byte (slice 314 (314 + ror_len config.password) login_packet))
          (slice 4 20 login_packet)
          (ror_len config.password)
        ≡ take 16 config.password)
recover-build_example =
    recover-build first16 config session sevens 0 1 drawn2 login_packet logged_in refl
      digest-AreBytes password-AreBytes refl refl refl build_login_packet-table_example

build_packets-tables_example :
    ChallengeTables first16 config session sevens 0 drawn2 1
    × HeartbeatTables first16 config session sevens 0 drawn4 1
    × (build_heartbeat_step2 config session drawn4
        ≡ some (
            render 0 40 (
              step2_rows config session drawn4
              ++ check_rows config (render 0 24 (step2_rows config session drawn4)))))
    × (build_keep_alive_auth session 1700000000
        ≡ some (render 0 38 (keep_alive_rows session 1700000000)))
    × (build_logout_packet first16 config session
        ≡ some (render 0 80 (logout_rows first16 config session)))
build_packets-tables_example =
    build_packets-tables first16 config session sevens 0 1700000000 drawn4 drawn2 drawn4 1 1 refl
      refl
