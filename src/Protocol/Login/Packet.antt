-- ===== src/Protocol/Login/Packet.antt =====
-- The login packet is the table of docs/PROTOCOL_FIELDS.md.
use jlu_drcom_win.Base.{
  ℕ, ◌+◌, ◌-◌, ◌%◌, ◌≤◌, ◌≡◌, refl, sym, ap, ◌∙◌, List, [], ◌∷◌, ◌++◌, Option, some, length, take,
  arith, le→leb, append_assoc,
}
use jlu_drcom_win.Protocol.Types.{Bytes, Config, Session}
use jlu_drcom_win.Protocol.Buffer.{
  make_bytes, overwrite, copy_rules, bind-some, Reader, copy_to, ◌>>=◌,
}
use jlu_drcom_win.Protocol.Layout.{
  Row, fit, render, copies, copies-render, copy_behind, length-render,
}
use jlu_drcom_win.Protocol.Layout.Fields.{copies-more, slice?-render}
use jlu_drcom_win.Protocol.Crypto.{xor, ror, checksum}
use jlu_drcom_win.Protocol.Login.{
  drcom_indicator, unknown_login_indicator, ror_len, login_size, padding_len, md5a_plain,
  md5b_plain, write_identity, write_host, write_trailer, write_random, checksum_plain,
  build_login_packet,
}

-- The random bytes always fit: the test before they are drawn holds for every password.
pub room_for_random :
    (password : Bytes) → 328 + ror_len password + padding_len password + 2 ≤ login_size password
unfolding login_size padding_len
room_for_random password = ground arith

-- The second digest is over a marker, the password, the salt and four zeros.
abbrev pub md5b_input : Config → Session → Bytes
md5b_input config session = 0x01 ∷ (config.password ++ (session.login_salt ++ 0 ∷ 0 ∷ 0 ∷ 0 ∷ []))

md5b_plain-eq :
    (config : Config) (session : Session)
    → length session.login_salt ≡ 4
    → md5b_plain config session ≡ some (md5b_input config session)
unfolding md5b_plain render fit
md5b_plain-eq config session e =
    ap (λ o. o >>= then_password)
      (sym (bind-some (copy_to 0 1 (0x01 ∷ []) (make_bytes total)))
        ∙ copies-render total ((0, 1, 0x01 ∷ []) ∷ []) (omega arith))
    ∙ ap (λ o. o >>= then_salt)
        (copy_behind (0x01 ∷ []) config.password 1 total (total - 1) refl (omega arith)
          (omega arith))
    ∙ copy_behind (0x01 ∷ config.password) session.login_salt (1 + n) total (total - 1 - n)
        (omega arith) (omega arith) (omega arith)
    ∙ ap some (rw four (append_assoc (0x01 ∷ config.password) session.login_salt (make_bytes 4)))
  where
    n : ℕ
    n = length config.password

    total : ℕ
    total = 1 + n + 4 + 4

    then_salt : Bytes → Option Bytes
    then_salt plain = copy_to (1 + n) total session.login_salt plain

    then_password : Bytes → Option Bytes
    then_password plain = copy_to 1 total config.password plain >>= then_salt

    four : total - 1 - n - length session.login_salt ≡ 4
    four = omega arith

module _ (md5 : Bytes → Bytes) (config : Config) (session : Session) where
  abbrev pub identity_rows : List Row
  identity_rows =
      let md5a = md5 (md5a_plain config session) in
      (0, 1, 0x03 ∷ [])
      ∷ (1, 2, 0x01 ∷ [])
      ∷ (2, 3, 0x00 ∷ [])
      ∷ (3, 4, ((length config.username + 20) % 256) ∷ [])
      ∷ (4, 20, md5a)
      ∷ (20, 56, config.username)
      ∷ (56, 57, 0x00 ∷ [])
      ∷ (57, 58, 0x00 ∷ [])
      ∷ (58, 64, xor config.mac md5a 6)
      ∷ (64, 80, md5 (md5b_input config session))
      ∷ (80, 81, 0x01 ∷ [])
      ∷ (81, 85, config.ip)
      ∷ []

  abbrev pub host_rows : Bytes → List Row
  host_rows prefix =
      let n = ror_len config.password in
      (97, 105, take 8 (md5 (prefix ++ 0x14 ∷ 0x00 ∷ 0x07 ∷ 0x0b ∷ [])))
      ∷ (105, 106, 0x01 ∷ [])
      ∷ (110, 142, config.host_name)
      ∷ (142, 146, config.primary_dns)
      ∷ (146, 150, config.dhcp_server)
      ∷ (181, 182, 0x01 ∷ [])
      ∷ (182, 190, drcom_indicator)
      ∷ (190, 192, config.auth_version)
      ∷ (192, 246, config.os_info)
      ∷ (246, 286, unknown_login_indicator)
      ∷ (310, 312, config.auth_version)
      ∷ (313, 314, (length config.password % 256) ∷ [])
      ∷ (314, 314 + n, ror (xor (md5 (md5a_plain config session)) config.password n))
      ∷ (314 + n, 314 + n + 1, 0x02 ∷ [])
      ∷ (314 + n + 1, 314 + n + 1 + 1, 0x0c ∷ [])
      ∷ []

  abbrev pub trailer_rows : Bytes → List Row
  trailer_rows prefix =
      let n = ror_len config.password in
      (316 + n, 316 + n + 4, checksum (checksum_plain config prefix))
      ∷ (322 + n, 322 + n + 6, config.mac)
      ∷ []

  abbrev pub random_rows : Bytes → List Row
  random_rows drawn =
      let offset = 328 + ror_len config.password + padding_len config.password in
      (offset, offset + 2, drawn) ∷ []

  -- The parts of the table that the digests are over.
  abbrev pub digest_rows : List Row
  digest_rows = identity_rows ++ host_rows (render 0 97 identity_rows)

  abbrev pub login_rows : Bytes → List Row
  login_rows drawn =
      digest_rows
      ++ (trailer_rows (render 0 (316 + ror_len config.password) digest_rows) ++ random_rows drawn)

  size : ℕ
  size = login_size config.password

  room : 328 + ror_len config.password + padding_len config.password + 2 ≤ size
  unfolding size
  room = room_for_random config.password

  write_identity-rows :
      length session.login_salt ≡ 4
      → write_identity md5 config session (make_bytes size) ≡ some (render 0 size identity_rows)
  unfolding write_identity
  write_identity-rows e = written ∙ copies-render size identity_rows (omega (arith, room))
    where
      written :
          write_identity md5 config session (make_bytes size)
          ≡ copies identity_rows (make_bytes size)
      written = rw (md5b_plain-eq config session e) (simp copy_rules)

  write_host-rows :
      write_host md5 config session (render 0 size identity_rows) ≡ some (render 0 size digest_rows)
  unfolding write_host
  write_host-rows =
      written
      ∙ copies-more size identity_rows (host_rows (render 0 97 identity_rows)) (omega (arith, room))
    where
      written :
          write_host md5 config session (render 0 size identity_rows)
          ≡ copies (host_rows (render 0 97 identity_rows)) (render 0 size identity_rows)
      written =
          rw (slice?-render 97 size identity_rows (omega arith) (omega (arith, room)))
            (simp copy_rules)

  prefix : Bytes
  prefix = render 0 (316 + ror_len config.password) digest_rows

  write_trailer-rows :
      write_trailer config (render 0 size digest_rows)
      ≡ some (render 0 size (digest_rows ++ trailer_rows prefix))
  unfolding write_trailer prefix
  write_trailer-rows =
      written ∙ copies-more size digest_rows (trailer_rows prefix) (omega (arith, room))
    where
      written :
          write_trailer config (render 0 size digest_rows)
          ≡ copies (trailer_rows prefix) (render 0 size digest_rows)
      written =
          rw
            (slice?-render (316 + ror_len config.password) size digest_rows (omega arith)
              (omega (arith, room)))
            (simp copy_rules)

  module _ {R : Type 0} (read : Reader R) (rng next : R) (drawn : Bytes)
      (e : read 2 rng ≡ some (drawn, next)) where
    trailed : List Row
    trailed = digest_rows ++ trailer_rows prefix

    write_random-rows :
        write_random config read rng (render 0 size trailed)
        ≡ some (render 0 size (trailed ++ random_rows drawn), next)
    unfolding write_random trailed
    write_random-rows =
        rw
          (le→leb (offset + 2) (length (render 0 size trailed)) (omega (arith, long, room)), two, e)
          (ap (λ o. o >>= λ q. some (q, next)) copied)
      where
        offset : ℕ
        offset = 328 + ror_len config.password + padding_len config.password

        two : offset + 2 - offset ≡ 2
        two = omega arith

        long : length (render 0 size trailed) ≡ size - 0
        long = length-render 0 size trailed (omega (arith, room))

        copied :
            copy_to offset (offset + 2) drawn (render 0 size trailed)
            ≡ some (render 0 size (trailed ++ random_rows drawn))
        copied =
            sym (bind-some (copy_to offset (offset + 2) drawn (render 0 size trailed)))
            ∙ copies-more size trailed (random_rows drawn) (omega (arith, room))

    -- With two random bytes drawn and a salt of 4 bytes, BuildLoginPacket does not panic: it writes
    -- the table of the packet, of 334 bytes and four more for each whole group of four behind the
    -- first byte of the password, and copies the first digest into the session.
    pub build_login_packet-table :
        length session.login_salt ≡ 4
        → build_login_packet md5 config session read rng
          ≡ some (
            render 0 (login_size config.password) (login_rows drawn),
            record session {
              md5_password = overwrite session.md5_password (md5 (md5a_plain config session));
            },
            next,
          )
    unfolding build_login_packet size trailed prefix
    build_login_packet-table salt =
        rw (write_identity-rows salt, write_host-rows, write_trailer-rows, write_random-rows)
