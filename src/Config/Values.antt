-- ===== src/Config/Values.antt =====
-- internal/config/config.go: the readers of single values. The decoded TOML table is a list of keys
-- with values; what the readers call of the standard library on strings is the record Library.
use jlu_drcom_win.Base.{
  ℕ, suc, Bool, true, false, ◌&&◌, ◌||◌, not, ℤ, List, [], ◌∷◌, Option, none, some, length, ltb,
  take, ◌==◌, if◌then◌else◌,
}
use jlu_drcom_win.Protocol.Types.{Bytes}
use jlu_drcom_win.Config.Validate.{Invalid, same_bytes}

-- The keys that parseTOML allows, and any other.
pub data Key : Type 0 where
  username_key password_key ip_key mac_key adapter_hint_key host_name_key os_info_key : Key
  server_ip_key server_port_key bind_ip_key bind_port_key primary_dns_key dhcp_server_key : Key
  auth_version_key keepalive_version_key first_heartbeat_version_key : Key
  extra_heartbeat_version_key debug_hex_dump_key receive_timeout_ms_key retry_count_key : Key
  heartbeat_interval_seconds_key : Key
  unknown_key : Bytes → Key

abbrev key_number : Key → ℕ
key_number username_key = 0
key_number password_key = 1
key_number ip_key = 2
key_number mac_key = 3
key_number adapter_hint_key = 4
key_number host_name_key = 5
key_number os_info_key = 6
key_number server_ip_key = 7
key_number server_port_key = 8
key_number bind_ip_key = 9
key_number bind_port_key = 10
key_number primary_dns_key = 11
key_number dhcp_server_key = 12
key_number auth_version_key = 13
key_number keepalive_version_key = 14
key_number first_heartbeat_version_key = 15
key_number extra_heartbeat_version_key = 16
key_number debug_hex_dump_key = 17
key_number receive_timeout_ms_key = 18
key_number retry_count_key = 19
key_number heartbeat_interval_seconds_key = 20
key_number (unknown_key name) = 21

-- The values of the decoder; `other_value` stands for floats, dates, arrays and tables.
pub data Value : Type 0 where
  text : Bytes → Value
  integer : ℤ → Value
  boolean : Bool → Value
  other_value : Value

abbrev pub Values : Type 0
Values = List (Key × Value)

pub data Problem : Type 0 where
  syntax unknown : Problem
  missing not_text not_integer not_boolean not_ipv4 not_mac : Key → Problem
  mac_separators hex_length not_hex no_adapter : Key → Problem
  ambiguous_adapters adapter_not_ready different_adapters : Problem
  invalid : Invalid → Problem

pub data Checked (A : Type 0) : Type 0 where
  good : A → Checked A
  bad : Problem → Checked A

infixl 5 ◌>>=◌
unfoldable pub ◌>>=◌ : {A B : Type 0} → Checked A → (A → Checked B) → Checked B
good a >>= f = f a
bad e >>= f = bad e

-- strings.EqualFold(strings.TrimSpace(s), "auto"), net.ParseIP(s).To4(), net.ParseMAC(s),
-- hex.DecodeString(s), strings.TrimSpace(s), os.Hostname() and runtime.GOOS
pub record Library : Type 0 where
  pub is_auto : Bytes → Bool
  pub parse_ipv4 : Bytes → Option Bytes
  pub parse_mac : Bytes → Option Bytes
  pub decode_hex : Bytes → Option Bytes
  pub trim : Bytes → Bytes
  pub hostname : Option Bytes
  pub goos : Bytes

-- "windows-pc"
abbrev windows_pc : Bytes
windows_pc = 0x77 ∷ 0x69 ∷ 0x6e ∷ 0x64 ∷ 0x6f ∷ 0x77 ∷ 0x73 ∷ 0x2d ∷ 0x70 ∷ 0x63 ∷ []

abbrev host_name_of : Library → Option Bytes → Bytes
host_name_of library none = windows_pc
host_name_of library (some host) =
    let trimmed = library.trim host in
    if length trimmed == 0
    then windows_pc
    else if ltb 32 (length trimmed)
    then take 32 trimmed
    else trimmed

-- defaultHostName
unfoldable pub default_host_name : Library → Bytes
default_host_name library = host_name_of library library.hostname

-- defaultOSInfo, with "windows" and "Windows"
unfoldable pub default_os_info : Library → Bytes
default_os_info library =
    if same_bytes library.goos (0x77 ∷ 0x69 ∷ 0x6e ∷ 0x64 ∷ 0x6f ∷ 0x77 ∷ 0x73 ∷ [])
    then 0x57 ∷ 0x69 ∷ 0x6e ∷ 0x64 ∷ 0x6f ∷ 0x77 ∷ 0x73 ∷ []
    else library.goos

-- values[key]
unfoldable pub lookup : Key → Values → Option Value
lookup key [] = none
lookup key ((k, v) ∷ values) =
    let rest = lookup key values in if key_number k == key_number key then some v else rest

-- strings.Count of one byte
abbrev count_byte : ℕ → Bytes → ℕ
count_byte b [] = 0
count_byte b (x ∷ s) = let rest = count_byte b s in if x == b then suc rest else rest

abbrev text_of : Key → Option Value → Checked Bytes
text_of key none = bad (missing key)
text_of key (some (text s)) = good s
text_of key (some _) = bad (not_text key)

unfoldable pub required_string : Values → Key → Checked Bytes
required_string values key = text_of key (lookup key values)

abbrev integer_of : Key → Option Value → Checked ℤ
integer_of key none = bad (missing key)
integer_of key (some (integer n)) = good n
integer_of key (some _) = bad (not_integer key)

-- An int has 64 bits, so each int64 is in range.
unfoldable pub required_int : Values → Key → Checked ℤ
required_int values key = integer_of key (lookup key values)

abbrev boolean_of : Key → Option Value → Checked Bool
boolean_of key none = bad (missing key)
boolean_of key (some (boolean b)) = good b
boolean_of key (some _) = bad (not_boolean key)

unfoldable pub required_bool : Values → Key → Checked Bool
required_bool values key = boolean_of key (lookup key values)

-- What an optional reader does with a key that is there, and with one that is not.
abbrev pub with_default : {A : Type 0} → Option Value → A → A → A
with_default none fallback found = fallback
with_default (some v) fallback found = found

unfoldable pub optional_int : Values → Key → ℤ → Checked ℤ
optional_int values key fallback =
    with_default (lookup key values) (good fallback) (required_int values key)

unfoldable pub optional_bool : Values → Key → Bool → Checked Bool
optional_bool values key fallback =
    with_default (lookup key values) (good fallback) (required_bool values key)

abbrev or_problem : {A : Type 0} → Problem → Option A → Checked A
or_problem e none = bad e
or_problem e (some a) = good a

unfoldable pub required_hex2 : Library → Values → Key → Checked Bytes
required_hex2 library values key = do
  raw ← required_string values key
  if length raw == 4
      then or_problem (not_hex key) (library.decode_hex raw)
      else bad (hex_length key)

unfoldable pub optional_hex2 : Library → Values → Key → Bytes → Checked Bytes
optional_hex2 library values key fallback =
    with_default (lookup key values) (good fallback) (required_hex2 library values key)

unfoldable pub optional_string : Library → Values → Key → Bytes → Checked Bytes
optional_string library values key fallback = with_default (lookup key values) (good fallback) (
    required_string values key >>= λ value.
    good (if library.is_auto value then fallback else value))

abbrev is_ip_key : Key → Bool
is_ip_key key = key_number key == 2

-- The fallback of an address: an unset ip needs an adapter.
abbrev ipv4_fallback : Key → Bytes → Checked Bytes
ipv4_fallback key fallback =
    if same_bytes fallback (0 ∷ 0 ∷ 0 ∷ 0 ∷ []) && is_ip_key key
    then bad (no_adapter key)
    else good fallback

unfoldable pub optional_ipv4 : Library → Values → Key → Bytes → Checked Bytes
optional_ipv4 library values key fallback =
    with_default (lookup key values) (ipv4_fallback key fallback) (
      required_string values key >>= λ raw.
      if library.is_auto raw
      then ipv4_fallback key fallback
      else or_problem (not_ipv4 key) (library.parse_ipv4 raw))

abbrev six_bytes : Key → Option Bytes → Checked Bytes
six_bytes key none = bad (not_mac key)
six_bytes key (some mac) = if length mac == 6 then good mac else bad (not_mac key)

-- Five colons or five dashes.
unfoldable pub parse_mac : Library → Key → Bytes → Checked Bytes
parse_mac library key raw =
    if (count_byte 0x3a raw == 5) || (count_byte 0x2d raw == 5)
    then six_bytes key (library.parse_mac raw)
    else bad (mac_separators key)

abbrev mac_fallback : Key → Bytes → Checked Bytes
mac_fallback key fallback =
    if same_bytes fallback (0 ∷ 0 ∷ 0 ∷ 0 ∷ 0 ∷ 0 ∷ []) then bad (no_adapter key) else good fallback

unfoldable pub optional_mac : Library → Values → Key → Bytes → Checked Bytes
optional_mac library values key fallback =
    with_default (lookup key values) (mac_fallback key fallback) (
      required_string values key >>= λ raw.
      if library.is_auto raw then mac_fallback key fallback else parse_mac library key raw)

abbrev auto_text : Library → Checked Bytes → Bool
auto_text library (good value) = library.is_auto value
auto_text library (bad e) = false

unfoldable pub is_auto_value : Library → Values → Key → Bool
is_auto_value library values key =
    with_default (lookup key values) ((key_number key == 2) || (key_number key == 3))
      (auto_text library (required_string values key))

-- Is a key allowed?
abbrev is_known : Key → Bool
is_known key = not (key_number key == 21)

abbrev all_known : Values → Bool
all_known [] = true
all_known ((k, v) ∷ values) = is_known k && all_known values

-- parseTOML, behind the decoder.
unfoldable pub parse_toml : Option Values → Checked Values
parse_toml none = bad syntax
parse_toml (some values) = if all_known values then good values else bad unknown
