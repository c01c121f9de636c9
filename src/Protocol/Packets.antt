-- ===== src/Protocol/Packets.antt =====
-- The packets of a session but the login's, each with its table: challenges, keepalive, heartbeats
-- and logout.
use jlu_drcom_win.Base.{ℕ, ◌≡◌, ◌++◌, some}
use jlu_drcom_win.Protocol.Types.{Bytes, Config, Session}
use jlu_drcom_win.Protocol.Buffer.{Reader}
use jlu_drcom_win.Protocol.Layout.{render}
use jlu_drcom_win.Protocol.Challenge.{build_login_challenge, build_logout_challenge}
use jlu_drcom_win.Protocol.Challenge.Packets.{challenge_rows, build_challenge-table}
use jlu_drcom_win.Protocol.Heartbeat.{
  build_keep_alive_auth, build_first_heartbeat, build_extra_heartbeat, build_heartbeat_step1,
  build_heartbeat_step2,
}
use jlu_drcom_win.Protocol.Heartbeat.Packets.{
  keep_alive_rows, base_rows, token_row, check_rows, step2_rows, build_keep_alive_auth-table,
  build_heartbeats-table, build_heartbeat_step2-table,
}
use jlu_drcom_win.Protocol.Logout.{build_logout_packet}
use jlu_drcom_win.Protocol.Logout.Packet.{logout_rows, build_logout_packet-table}

module _ {R : Type 0} (md5 : Bytes → Bytes) (config : Config) (session : Session) (read : Reader R)
    (rng : R) where
  -- BuildLoginChallenge and BuildLogoutChallenge.
  abbrev pub ChallengeTables : Bytes → R → Type 0
  ChallengeTables drawn next =
      (build_login_challenge config.auth_version read rng
        ≡ some (render 0 20 (challenge_rows 0x02 drawn config.auth_version), next))
      × (build_logout_challenge config.auth_version read rng
          ≡ some (render 0 20 (challenge_rows 0x03 drawn config.auth_version), next))

  -- The heartbeats of phase 1.
  abbrev pub HeartbeatTables : Bytes → R → Type 0
  HeartbeatTables drawn next =
      (build_first_heartbeat config session read rng
        ≡ some (render 0 40 (base_rows session 0x01 config.first_heartbeat_version drawn), next))
      × (build_extra_heartbeat config session read rng
          ≡ some (
            render 0 40
                (base_rows session 0x01 config.extra_heartbeat_version drawn ++ token_row session),
            next,
          ))
      × (build_heartbeat_step1 config session read rng
          ≡ some (
            render 0 40
                (base_rows session 0x01 config.keep_alive_version drawn ++ token_row session),
            next,
          ))

  -- Where the random reader gives two bytes, and four, no packet of a session but the login's panics:
  -- each is written as the rows of its table, of 20 bytes for the challenges, 40 for the heartbeats
  -- (where step 2 has the CRC over its first 24 bytes and the client's address), 38 for the keepalive
  -- and 80 for the logout.
  pub build_packets-tables :
      (unix_time : ℕ) (random_token drawn2 drawn4 : Bytes) (next2 next4 : R)
      → read 2 rng ≡ some (drawn2, next2)
      → read 4 rng ≡ some (drawn4, next4)
      → ChallengeTables drawn2 next2
        × HeartbeatTables drawn4 next4
        × (let rows = step2_rows config session random_token in
            build_heartbeat_step2 config session random_token
            ≡ some (render 0 40 (rows ++ check_rows config (render 0 24 rows))))
        × (build_keep_alive_auth session unix_time
            ≡ some (render 0 38 (keep_alive_rows session unix_time)))
        × (build_logout_packet md5 config session
            ≡ some (render 0 80 (logout_rows md5 config session)))
  build_packets-tables unix_time random_token drawn2 drawn4 next2 next4 e f = (
    build_challenge-table config.auth_version read rng next2 drawn2 e,
    build_heartbeats-table config session read rng next4 drawn4 f,
    build_heartbeat_step2-table config session random_token,
    build_keep_alive_auth-table session unix_time,
    build_logout_packet-table md5 config session,
  )
