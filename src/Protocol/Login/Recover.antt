-- ===== src/Protocol/Login/Recover.antt =====
-- What the server reads back from a login packet: the masks of the password and of the adapter's
-- address come off with the digest that stands in the packet itself.
use mathlib.Core.Option.{some-injective}
use jlu_drcom_win.Base.{
  ℕ, ◌+◌, ◌-◌, ◌≡◌, refl, sym, ap, ap₂, ◌∙◌, List, some, length, take, map, arith, take-min,
  take_of_length_le,
}
use jlu_drcom_win.Protocol.Types.{Bytes, Config, Session}
use jlu_drcom_win.Protocol.Buffer.{Reader, slice}
use jlu_drcom_win.Protocol.Layout.{Row, render, InOrder}
use jlu_drcom_win.Protocol.Layout.Fields.{row-render, fit-eq}
use jlu_drcom_win.Protocol.Crypto.{xor, ror}
use jlu_drcom_win.Protocol.Crypto.Laws.{
  AreBytes, length-xor, length-ror, xor-AreBytes, xor-xor_key, xor-xor_data, unror_byte, unror-ror,
}
use jlu_drcom_win.Protocol.Login.{ror_len, login_size, md5a_plain, build_login_packet}
use jlu_drcom_win.Protocol.Login.Packet.{room_for_random, login_rows, build_login_packet-table}

-- Masking and unmasking of the bytes of a password.
unmask-mask :
    (md5a password : Bytes)
    → length md5a ≡ 16
    → AreBytes md5a
    → AreBytes password
    → xor (map unror_byte (ror (xor md5a password (ror_len password)))) md5a (ror_len password)
      ≡ take 16 password
unmask-mask md5a password e a b =
    ap (λ bytes. xor bytes md5a n)
      (unror-ror (xor md5a password n) (xor-AreBytes md5a password n a b))
    ∙ xor-xor_key md5a password n (omega arith) (omega arith)
    ∙ take-min 16 password
  where
    n : ℕ
    n = ror_len password

module _ {R : Type 0} (md5 : Bytes → Bytes) (config : Config) (session : Session) (read : Reader R)
    (rng next : R) (drawn packet : Bytes) (session' : Session) where
  -- Take a login packet that is built with a first digest of 16 bytes, from a password of bytes, a
  -- MAC of 6 and a salt of 4 bytes, and with two random bytes drawn. Unmasked with what stands at
  -- [4:20) of the packet, its field at [58:64) is the MAC, and its field at 314, turned back, is
  -- the first 16 bytes of the password.
  pub recover-build :
      (width : length (md5 (md5a_plain config session)) ≡ 16)
      → AreBytes (md5 (md5a_plain config session))
      → AreBytes config.password
      → length config.mac ≡ 6
      → length session.login_salt ≡ 4
      → read 2 rng ≡ some (drawn, next)
      → build_login_packet md5 config session read rng ≡ some (packet, session', next)
      → let key = slice 4 20 packet in
        let n = ror_len config.password in
        (xor (slice 58 64 packet) key 6 ≡ config.mac)
        × (xor (map unror_byte (slice 314 (314 + n) packet)) key n ≡ take 16 config.password)
  recover-build width a b mac salt drew built = (
    ap₂ (λ m k. xor m k 6) mac_field key
        ∙ xor-xor_data config.mac md5a 6 (omega arith) (omega arith)
        ∙ take_of_length_le 6 config.mac (omega arith),
    ap₂ (λ m k. xor (map unror_byte m) k n) password_field key
        ∙ unmask-mask md5a config.password width a b,
  )
    where
      md5a : Bytes
      md5a = md5 (md5a_plain config session)

      rows : List Row
      rows = login_rows md5 config session drawn

      order : InOrder 0 (login_size config.password) rows
      order = omega (arith, room_for_random config.password)

      table : packet ≡ render 0 (login_size config.password) rows
      table =
          ap (λ built. built.0)
            (some-injective _ _ (
              sym built
              ∙ build_login_packet-table md5 config session read rng next drawn drew salt))

      key : slice 4 20 packet ≡ md5a
      key =
          ap (slice 4 20) table
          ∙ row-render (login_size config.password) 4 4 20 md5a rows refl order
          ∙ fit-eq 16 md5a width

      n : ℕ
      n = ror_len config.password

      mac_field : slice 58 64 packet ≡ xor config.mac md5a 6
      mac_field =
          ap (slice 58 64) table
          ∙ row-render (login_size config.password) 8 58 64 (xor config.mac md5a 6) rows refl order
          ∙ fit-eq 6 (xor config.mac md5a 6) (length-xor config.mac md5a 6)

      masked : Bytes
      masked = ror (xor md5a config.password n)

      password_field : slice 314 (314 + n) packet ≡ masked
      password_field =
          ap (slice 314 (314 + n)) table
          ∙ row-render (login_size config.password) 24 314 (314 + n) masked rows refl order
          ∙ fit-eq (314 + n - 314) masked (
              omega
                (arith, length-ror (xor md5a config.password n), length-xor md5a config.password n))
