-- ===== src/Protocol/Logout/Packet.antt =====
-- The logout packet is the table of docs/PROTOCOL_FIELDS.md.
use jlu_drcom_win.Base.{◌+◌, ◌%◌, ◌≡◌, ◌∙◌, List, [], ◌∷◌, some, length, arith}
use jlu_drcom_win.Protocol.Types.{Bytes, Config, Session}
use jlu_drcom_win.Protocol.Buffer.{make_bytes, copy_rules}
use jlu_drcom_win.Protocol.Layout.{Row, render, copies, copies-render}
use jlu_drcom_win.Protocol.Crypto.{xor}
use jlu_drcom_win.Protocol.Logout.{logout_plain, build_logout_packet}

abbrev pub logout_rows : (Bytes → Bytes) → Config → Session → List Row
logout_rows md5 config session =
    let md5a = md5 (logout_plain config session) in
    (0, 1, 0x06 ∷ [])
    ∷ (1, 2, 0x01 ∷ [])
    ∷ (2, 3, 0x00 ∷ [])
    ∷ (3, 4, ((length config.username + 20) % 256) ∷ [])
    ∷ (4, 20, md5a)
    ∷ (20, 56, config.username)
    ∷ (56, 57, 0x00 ∷ [])
    ∷ (57, 58, 0x00 ∷ [])
    ∷ (58, 64, xor config.mac md5a 6)
    ∷ (64, 80, session.server_drcom_indicator)
    ∷ []

-- BuildLogoutPacket does not panic, and writes the 80 bytes of the table.
pub build_logout_packet-table :
    (md5 : Bytes → Bytes) (config : Config) (session : Session)
    → build_logout_packet md5 config session ≡ some (render 0 80 (logout_rows md5 config session))
unfolding build_logout_packet
build_logout_packet-table md5 config session =
    written ∙ copies-render 80 (logout_rows md5 config session) (omega arith)
  where
    written :
        build_logout_packet md5 config session
        ≡ copies (logout_rows md5 config session) (make_bytes 80)
    written = simp copy_rules
