-- ===== src/Protocol/Sent/Rows.antt =====
-- The rows of each table are bytes, and so is the packet.
use jlu_drcom_win.Base.{ℕ, ◌<◌, List, [], ◌++◌, arith}
use jlu_drcom_win.Protocol.Types.{Bytes, Config, Session}
use jlu_drcom_win.Protocol.Layout.{Row, render}
use jlu_drcom_win.Protocol.Crypto.{xor}
use jlu_drcom_win.Protocol.Crypto.Laws.{AreBytes, xor-AreBytes}
use jlu_drcom_win.Protocol.Octets.{
  IsByteConfig, IsByteSession, IsPacket, RowsAreBytes, take-AreBytes, render-IsPacket, crc-AreBytes,
  checksum-AreBytes, ror-AreBytes,
}
use jlu_drcom_win.Protocol.Challenge.Packets.{challenge_rows}
use jlu_drcom_win.Protocol.Login.{login_size, ror_len, md5a_plain}
use jlu_drcom_win.Protocol.Login.Packet.{md5b_input, login_rows, room_for_random}
use jlu_drcom_win.Protocol.Heartbeat.Packets.{
  keep_alive_rows, base_rows, token_row, check_rows, step2_rows,
}
use jlu_drcom_win.Protocol.Logout.{logout_plain}
use jlu_drcom_win.Protocol.Logout.Packet.{logout_rows}

infixr 4 ◌⊗◌
abbrev ◌⊗◌ : {A B : Type 0} → A → B → A × B
a ⊗ b = (a, b)

module _ (md5 : Bytes → Bytes) (md5_bytes : (m : Bytes) → AreBytes (md5 m)) (config : Config)
    (c : IsByteConfig config) (session : Session) (s : IsByteSession session) where
  pub challenge-IsPacket :
      (subtype : ℕ) (drawn : Bytes)
      → subtype < 256
      → AreBytes drawn
      → IsPacket 20 (render 0 20 (challenge_rows subtype drawn config.auth_version))
  challenge-IsPacket subtype drawn l d =
      render-IsPacket 20 (challenge_rows subtype drawn config.auth_version) (omega arith)
        (omega arith ⊗ omega (arith, l) ⊗ d ⊗ c.auth_version ⊗ tt)

  -- The rows that all heartbeats share, and more rows.
  base-RowsAreBytes :
      (phase : ℕ) (version drawn : Bytes) (more : List Row)
      → phase < 256
      → AreBytes version
      → AreBytes drawn
      → RowsAreBytes more
      → RowsAreBytes (base_rows session phase version drawn ++ more)
  base-RowsAreBytes phase version drawn more l v d m =
      omega arith
      ⊗ omega arith
      ⊗ omega arith
      ⊗ omega arith
      ⊗ omega arith
      ⊗ omega (arith, l)
      ⊗ v
      ⊗ d
      ⊗ m

  pub first-IsPacket :
      (version drawn : Bytes)
      → AreBytes version
      → AreBytes drawn
      → IsPacket 40 (render 0 40 (base_rows session 0x01 version drawn))
  first-IsPacket version drawn v d =
      render-IsPacket 40 (base_rows session 0x01 version drawn) (omega arith)
        (base-RowsAreBytes 0x01 version drawn [] (omega arith) v d tt)

  pub token-IsPacket :
      (version drawn : Bytes)
      → AreBytes version
      → AreBytes drawn
      → IsPacket 40 (render 0 40 (base_rows session 0x01 version drawn ++ token_row session))
  token-IsPacket version drawn v d =
      render-IsPacket 40 (base_rows session 0x01 version drawn ++ token_row session) (omega arith)
        (base-RowsAreBytes 0x01 version drawn (token_row session) (omega arith) v d (s.token, tt))

  pub step2-IsPacket :
      (token prefix : Bytes)
      → AreBytes token
      → IsPacket 40 (render 0 40 (step2_rows config session token ++ check_rows config prefix))
  step2-IsPacket token prefix d =
      render-IsPacket 40 (step2_rows config session token ++ check_rows config prefix) (omega arith)
        (base-RowsAreBytes 0x03 config.keep_alive_version token
          (token_row session ++ check_rows config prefix) (omega arith) c.keep_alive_version d
          (s.token ⊗ crc-AreBytes (prefix ++ config.ip) ⊗ c.ip ⊗ tt))

  pub keep_alive-IsPacket :
      (unix_time : ℕ) → IsPacket 38 (render 0 38 (keep_alive_rows session unix_time))
  keep_alive-IsPacket unix_time =
      render-IsPacket 38 (keep_alive_rows session unix_time) (omega arith)
        (omega arith ⊗ s.md5_password ⊗ s.indicator ⊗ omega arith ⊗ omega arith ⊗ tt)

  pub logout-IsPacket : IsPacket 80 (render 0 80 (logout_rows md5 config session))
  logout-IsPacket = render-IsPacket 80 (logout_rows md5 config session) (omega arith) (
      omega arith
      ⊗ omega arith
      ⊗ omega arith
      ⊗ omega arith
      ⊗ md5_bytes (logout_plain config session)
      ⊗ c.username
      ⊗ omega arith
      ⊗ omega arith
      ⊗ xor-AreBytes config.mac (md5 (logout_plain config session)) 6 c.mac
          (md5_bytes (logout_plain config session))
      ⊗ s.indicator
      ⊗ tt)

  login-RowsAreBytes :
      (drawn : Bytes) → AreBytes drawn → RowsAreBytes (login_rows md5 config session drawn)
  login-RowsAreBytes drawn d =
      omega arith
      ⊗ omega arith
      ⊗ omega arith
      ⊗ omega arith
      ⊗ md5_bytes (md5a_plain config session)
      ⊗ c.username
      ⊗ omega arith
      ⊗ omega arith
      ⊗ xor-AreBytes config.mac (md5 (md5a_plain config session)) 6 c.mac
          (md5_bytes (md5a_plain config session))
      ⊗ md5_bytes (md5b_input config session)
      ⊗ omega arith
      ⊗ c.ip
      ⊗ take-AreBytes 8 (md5 _) (md5_bytes _)
      ⊗ omega arith
      ⊗ c.host_name
      ⊗ c.primary_dns
      ⊗ c.dhcp_server
      ⊗ omega arith
      ⊗ omega arith
      ⊗ c.auth_version
      ⊗ c.os_info
      ⊗ omega arith
      ⊗ c.auth_version
      ⊗ omega arith
      ⊗ ror-AreBytes
          (xor (md5 (md5a_plain config session)) config.password (ror_len config.password))
      ⊗ omega arith
      ⊗ omega arith
      ⊗ checksum-AreBytes _
      ⊗ c.mac
      ⊗ d
      ⊗ tt

  pub login-IsPacket :
      (drawn : Bytes)
      → AreBytes drawn
      → IsPacket
          (login_size config.password)
          (render 0 (login_size config.password) (login_rows md5 config session drawn))
  login-IsPacket drawn d =
      render-IsPacket (login_size config.password) (login_rows md5 config session drawn)
        (omega (arith, room_for_random config.password)) (login-RowsAreBytes drawn d)
