-- ===== src/Config/Validate.antt =====
-- Config.Validate of internal/config/config.go, and the predicates on addresses that it uses.
use jlu_drcom_win.Base.{
  ℕ, ◌/◌, Bool, true, false, ◌&&◌, ◌||◌, not, ℤ, pos, ltb_ℤ, List, [], ◌∷◌, Option, none, some,
  length, ltb, ◌==◌, if◌then◌else◌, get_or,
}
use jlu_drcom_win.Protocol.Types.{Bytes}
use jlu_drcom_win.Protocol.Buffer.{byte}
use jlu_drcom_win.Config.Types.{Config}
pub mod Bounds

-- What Validate complains about.
pub data Invalid : Type 0 where
  username_length password_length host_name_length os_info_length : Invalid
  server_port bind_port receive_timeout retry_count heartbeat_interval : Invalid
  unusable_adapter bind_ip_differs : Invalid

-- Equality of two arrays of bytes.
abbrev pub same_bytes : Bytes → Bytes → Bool
same_bytes [] [] = true
same_bytes (x ∷ a) (y ∷ b) = (x == y) && same_bytes a b
same_bytes [] (y ∷ b) = false
same_bytes (x ∷ a) [] = false

-- usableIPv4 on an address of four bytes: not 127.*, 0.0.0.0, 224.* to 239.* or 169.254.*
unfoldable pub usable_ipv4 : Bytes → Bool
usable_ipv4 ip =
    if (byte ip 0 == 127) || same_bytes ip (0 ∷ 0 ∷ 0 ∷ 0 ∷ []) || (byte ip 0 / 16 == 14)
    then false
    else not ((byte ip 0 == 169) && (byte ip 1 == 254))

unfoldable pub is_zero_mac : Bytes → Bool
is_zero_mac mac = same_bytes mac (0 ∷ 0 ∷ 0 ∷ 0 ∷ 0 ∷ 0 ∷ [])

-- a < low || a > high
abbrev pub outside : ℤ → ℕ → ℕ → Bool
outside a low high = ltb_ℤ a (pos low) || ltb_ℤ (pos high) a

unfoldable pub validate : Config → Option Invalid
validate c =
    if (length c.username == 0) || ltb 36 (length c.username)
    then some username_length
    else if (length c.password == 0) || ltb 255 (length c.password)
    then some password_length
    else if ltb 32 (length c.host_name)
    then some host_name_length
    else if ltb 54 (length c.os_info)
    then some os_info_length
    else if outside c.server_port 1 65535
    then some server_port
    else if outside c.bind_port 1 65535
    then some bind_port
    else if outside c.receive_timeout_millis 100 30000
    then some receive_timeout
    else if outside c.retry_count 0 10
    then some retry_count
    else if outside c.heartbeat_interval_secs 1 300
    then some heartbeat_interval
    else if not (usable_ipv4 c.ip) || is_zero_mac c.mac
    then some unusable_adapter
    else if not (same_bytes c.bind_ip c.ip)
    then some bind_ip_differs
    else none
