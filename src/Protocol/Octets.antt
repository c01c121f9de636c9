-- ===== src/Protocol/Octets.antt =====
-- Packets as Go has them: every element of a slice that a builder returns is a byte.
use jlu_drcom_win.Base.{
  ℕ, zero, suc, ◌-◌, ◌≡◌, ◌∙◌, List, [], ◌∷◌, ◌++◌, length, take, replicate, arith,
}
use jlu_drcom_win.Protocol.Types.{Bytes, Config, Session}
use jlu_drcom_win.Protocol.Layout.{Row, fit, render, InOrder, length-render}
use jlu_drcom_win.Protocol.Crypto.{ror, ror_byte, checksum, crc}
use jlu_drcom_win.Protocol.Crypto.Laws.{AreBytes}

-- The fields of the settings and of the session that the packets are made of.
pub record IsByteConfig (c : Config) : Type 0 where
  pub username : AreBytes c.username
  pub password : AreBytes c.password
  pub ip : AreBytes c.ip
  pub mac : AreBytes c.mac
  pub host_name : AreBytes c.host_name
  pub os_info : AreBytes c.os_info
  pub primary_dns : AreBytes c.primary_dns
  pub dhcp_server : AreBytes c.dhcp_server
  pub auth_version : AreBytes c.auth_version
  pub keep_alive_version : AreBytes c.keep_alive_version
  pub first_heartbeat_version : AreBytes c.first_heartbeat_version
  pub extra_heartbeat_version : AreBytes c.extra_heartbeat_version

pub record IsByteSession (s : Session) : Type 0 where
  pub md5_password : AreBytes s.md5_password
  pub indicator : AreBytes s.server_drcom_indicator
  pub token : AreBytes s.heartbeat_token

append-AreBytes : (a b : Bytes) → AreBytes a → AreBytes b → AreBytes (a ++ b)
append-AreBytes [] b h k = k
append-AreBytes (x ∷ a) b h k = (h.0, append-AreBytes a b h.1 k)

zeros-AreBytes : (n : ℕ) → AreBytes (replicate n 0)
zeros-AreBytes zero = tt
zeros-AreBytes (suc n) = (omega arith, zeros-AreBytes n)

pub take-AreBytes : (n : ℕ) (a : Bytes) → AreBytes a → AreBytes (take n a)
take-AreBytes zero a h = tt
take-AreBytes (suc n) [] h = tt
take-AreBytes (suc n) (x ∷ a) h = (h.0, take-AreBytes n a h.1)

abbrev pub RowsAreBytes : List Row → Type 0
RowsAreBytes [] = Unit {0}
RowsAreBytes ((lo, hi, src) ∷ rows) = AreBytes src × RowsAreBytes rows

render-AreBytes :
    (pos size : ℕ) (rows : List Row) → RowsAreBytes rows → AreBytes (render pos size rows)
unfolding render fit
render-AreBytes pos size [] h = zeros-AreBytes (size - pos)
render-AreBytes pos size ((lo, hi, src) ∷ rows) h =
    append-AreBytes (replicate (lo - pos) 0) (fit (hi - lo) src ++ render hi size rows)
      (zeros-AreBytes (lo - pos))
      (append-AreBytes (fit (hi - lo) src) (render hi size rows)
        (append-AreBytes (take (hi - lo) src) (replicate (hi - lo - length src) 0)
          (take-AreBytes (hi - lo) src h.0) (zeros-AreBytes (hi - lo - length src)))
        (render-AreBytes hi size rows h.1))

pub crc-AreBytes : (b : Bytes) → AreBytes (crc b)
unfolding crc
crc-AreBytes b = omega arith

pub checksum-AreBytes : (b : Bytes) → AreBytes (checksum b)
unfolding checksum
checksum-AreBytes b = omega arith

pub ror-AreBytes : (b : Bytes) → AreBytes (ror b)
unfolding ror ror_byte
ror-AreBytes [] = tt
ror-AreBytes (x ∷ b) = (omega arith, ror-AreBytes b)

-- A packet of so many bytes.
abbrev pub IsPacket : ℕ → Bytes → Type 0
IsPacket n p = (length p ≡ n) × AreBytes p

pub render-IsPacket :
    (n : ℕ) (rows : List Row) → InOrder 0 n rows → RowsAreBytes rows → IsPacket n (render 0 n rows)
render-IsPacket n rows o h = (length-render 0 n rows o ∙ omega arith, render-AreBytes 0 n rows h)
