-- ===== src/Protocol/Sent.antt =====
-- The packets that the runner sends: what their builders return is a packet of bytes.
pub mod Rows
use jlu_drcom_win.Base.{ℕ, ◌<◌, ◌≡◌, List, [], ◌++◌, Option, some, length, arith}
use jlu_drcom_win.Protocol.Types.{Bytes, Config, Session}
use jlu_drcom_win.Protocol.Buffer.{Reader}
use jlu_drcom_win.Protocol.Layout.{Row, render}
use jlu_drcom_win.Protocol.Crypto.{xor}
use jlu_drcom_win.Protocol.Crypto.Laws.{AreBytes, xor-AreBytes}
use jlu_drcom_win.Protocol.Octets.{
  IsByteConfig, IsByteSession, IsPacket, RowsAreBytes, take-AreBytes, render-IsPacket, crc-AreBytes,
  checksum-AreBytes, ror-AreBytes,
}
use jlu_drcom_win.Protocol.Challenge.{build_login_challenge, build_logout_challenge}
use jlu_drcom_win.Protocol.Challenge.Packets.{challenge_rows}
use jlu_drcom_win.Protocol.Login.{login_size, ror_len, md5a_plain, build_login_packet}
use jlu_drcom_win.Protocol.Login.Packet.{
  md5b_input, login_rows, room_for_random, build_login_packet-table,
}
use jlu_drcom_win.Protocol.Heartbeat.{
  build_keep_alive_auth, build_first_heartbeat, build_extra_heartbeat, build_heartbeat_step1,
  build_heartbeat_step2,
}
use jlu_drcom_win.Protocol.Heartbeat.Packets.{
  keep_alive_rows, base_rows, token_row, check_rows, step2_rows,
}
use jlu_drcom_win.Protocol.Logout.{logout_plain, build_logout_packet}
use jlu_drcom_win.Protocol.Logout.Packet.{logout_rows}
use jlu_drcom_win.Protocol.Packets.{ChallengeTables, HeartbeatTables, build_packets-tables}
use jlu_drcom_win.Protocol.Sent.Rows.{
  challenge-IsPacket, first-IsPacket, token-IsPacket, step2-IsPacket, keep_alive-IsPacket,
  logout-IsPacket, login-IsPacket,
}

-- The builder returns a packet of so many bytes, and what it returns beside it.
abbrev pub Gives : {R : Type 0} → ℕ → Option (Bytes × R) → Type 0
Gives {R} n o = (p : Bytes) × (r : R) × (o ≡ some (p, r)) × IsPacket n p

-- A builder that draws nothing.
abbrev pub GivesOnly : ℕ → Option Bytes → Type 0
GivesOnly n o = (p : Bytes) × (o ≡ some p) × IsPacket n p

-- For the login packet: the session with the digest as well.
abbrev pub GivesLogin : {R : Type 0} → ℕ → Option (Bytes × Session × R) → Type 0
GivesLogin {R} n o = (p : Bytes) × (t : Session) × (r : R) × (o ≡ some (p, t, r)) × IsPacket n p

module _ (md5 : Bytes → Bytes) (md5_bytes : (m : Bytes) → AreBytes (md5 m)) (config : Config)
    (c : IsByteConfig config) (session : Session) (s : IsByteSession session) where
  module _ {R : Type 0} (read : Reader R) (rng next2 next4 : R) (drawn2 drawn4 : Bytes)
      (d2 : AreBytes drawn2) (d4 : AreBytes drawn4) where
    -- Every builder of a packet returns bytes, and so many as its packet has: 20 for a challenge, 334
    -- or more for the login by the length of the password, 40 for a heartbeat, 38 for the keepalive
    -- and 80 for the logout. (MD5, the settings, the session, the token and what the random reader
    -- gives are of bytes, the salt has four, and the reader does not fail.)
    pub builders-IsPacket :
        (unix_time : ℕ) (token : Bytes)
        → AreBytes token
        → length session.login_salt ≡ 4
        → read 2 rng ≡ some (drawn2, next2)
        → read 4 rng ≡ some (drawn4, next4)
        → Gives 20 (build_login_challenge config.auth_version read rng)
          × Gives 20 (build_logout_challenge config.auth_version read rng)
          × GivesLogin (login_size config.password) (build_login_packet md5 config session read rng)
          × Gives 40 (build_first_heartbeat config session read rng)
          × Gives 40 (build_extra_heartbeat config session read rng)
          × Gives 40 (build_heartbeat_step1 config session read rng)
          × GivesOnly 40 (build_heartbeat_step2 config session token)
          × GivesOnly 38 (build_keep_alive_auth session unix_time)
          × GivesOnly 80 (build_logout_packet md5 config session)
    builders-IsPacket unix_time token t salt e f = tables (
        build_packets-tables md5 config session read rng unix_time token drawn2 drawn4 next2 next4 e
          f)
      where
        tables :
            ChallengeTables md5 config session read rng drawn2 next2
              × HeartbeatTables md5 config session read rng drawn4 next4
              × (build_heartbeat_step2 config session token
                  ≡ some (
                      render 0 40 (
                        step2_rows config session token
                        ++ check_rows config (render 0 24 (step2_rows config session token)))))
              × (build_keep_alive_auth session unix_time
                  ≡ some (render 0 38 (keep_alive_rows session unix_time)))
              × (build_logout_packet md5 config session
                  ≡ some (render 0 80 (logout_rows md5 config session)))
            → Gives 20 (build_login_challenge config.auth_version read rng)
              × Gives 20 (build_logout_challenge config.auth_version read rng)
              × GivesLogin
                  (login_size config.password)
                  (build_login_packet md5 config session read rng)
              × Gives 40 (build_first_heartbeat config session read rng)
              × Gives 40 (build_extra_heartbeat config session read rng)
              × Gives 40 (build_heartbeat_step1 config session read rng)
              × GivesOnly 40 (build_heartbeat_step2 config session token)
              × GivesOnly 38 (build_keep_alive_auth session unix_time)
              × GivesOnly 80 (build_logout_packet md5 config session)
        tables (challenges, heartbeats, step2, keep_alive, logout) = (
          (
            _,
            _,
            challenges.0,
            challenge-IsPacket md5 md5_bytes config c session s 0x02 drawn2 (omega arith) d2,
          ),
          (
            _,
            _,
            challenges.1,
            challenge-IsPacket md5 md5_bytes config c session s 0x03 drawn2 (omega arith) d2,
          ),
          (
            _,
            _,
            _,
            build_login_packet-table md5 config session read rng next2 drawn2 e salt,
            login-IsPacket md5 md5_bytes config c session s drawn2 d2,
          ),
          (
            _,
            _,
            heartbeats.0,
            first-IsPacket md5 md5_bytes config c session s config.first_heartbeat_version drawn4
                c.first_heartbeat_version d4,
          ),
          (
            _,
            _,
            heartbeats.1,
            token-IsPacket md5 md5_bytes config c session s config.extra_heartbeat_version drawn4
                c.extra_heartbeat_version d4,
          ),
          (
            _,
            _,
            heartbeats.2,
            token-IsPacket md5 md5_bytes config c session s config.keep_alive_version drawn4
                c.keep_alive_version d4,
          ),
          (
            _,
            step2,
            step2-IsPacket md5 md5_bytes config c session s token
                (render 0 24 (step2_rows config session token)) t,
          ),
          (_, keep_alive, keep_alive-IsPacket md5 md5_bytes config c session s unix_time),
          (_, logout, logout-IsPacket md5 md5_bytes config c session s),
        )
