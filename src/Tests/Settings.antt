-- ===== src/Tests/Settings.antt =====
-- The theorems on settings, on a file that names the account and nothing else.
use jlu_drcom_win.Base.{◌≡◌, refl, ◌⊎◌, inl, pos, false, none, some, [], ◌∷◌}
use jlu_drcom_win.Protocol.Types.{Bytes}
use jlu_drcom_win.Config.Types.{Config, NetworkInfo}
use jlu_drcom_win.Config.Validate.{Invalid, validate, usable_ipv4, is_zero_mac}
use jlu_drcom_win.Config.Validate.Bounds.{IsValid, validate_cases}
use jlu_drcom_win.Config.Values.{
  Library, Values, username_key, password_key, text, good, ◌>>=◌, parse_toml, lookup,
  required_string, required_int, required_bool, required_hex2, optional_string, optional_int,
  optional_bool, optional_hex2, optional_ipv4, optional_mac, is_auto_value, default_host_name,
  default_os_info,
}
use jlu_drcom_win.Config.Parse.{
  DetectorError, parse_with_detector, parse_identity, parse_rest, network_of, finish,
}
use jlu_drcom_win.Config.Parse.Sound.{IsReady, parse_with_detector-IsReady}
use jlu_drcom_win.Tests.Samples.{config}

abbrev pub library : Library
library = record {
  is_auto = λ s. false;
  parse_ipv4 = λ s. none;
  parse_mac = λ s. none;
  decode_hex = λ s. none;
  trim = λ s. s;
  hostname = some (0x70 ∷ 0x63 ∷ []);
  goos = 0x78 ∷ [];
}

abbrev adapter : NetworkInfo
adapter = record { interface_name = 0x65 ∷ []; ip = config.ip; mac = config.mac }

abbrev detect : Bytes → NetworkInfo ⊎ DetectorError
detect hint = inl adapter

abbrev pub file : Values
file = (username_key, text config.username) ∷ (password_key, text config.password) ∷ []

abbrev pub settings : Config
settings = record {
  username = config.username;
  password = config.password;
  ip = config.ip;
  mac = config.mac;
  host_name = 0x70 ∷ 0x63 ∷ [];
  os_info = 0x78 ∷ [];
  server_ip = 10 ∷ 100 ∷ 61 ∷ 3 ∷ [];
  server_port = pos 61440;
  bind_ip = config.ip;
  bind_port = pos 61440;
  auth_version = 0x68 ∷ 0x00 ∷ [];
  keep_alive_version = 0xdc ∷ 0x02 ∷ [];
  first_heartbeat_version = 0x0f ∷ 0x27 ∷ [];
  extra_heartbeat_version = 0xdb ∷ 0x02 ∷ [];
  primary_dns = 10 ∷ 10 ∷ 10 ∷ 10 ∷ [];
  dhcp_server = 0 ∷ 0 ∷ 0 ∷ 0 ∷ [];
  debug_hex_dump = false;
  receive_timeout = pos 2000000000;
  retry_count = pos 3;
  heartbeat_interval = pos 20000000000;
  receive_timeout_millis = pos 2000;
  heartbeat_interval_secs = pos 20;
  adapter_hint = [];
  auto_network = adapter;
}

validate_cases_example :
    ((validate settings ≡ none) × IsValid settings)
    ⊎ ((e : Invalid) × (validate settings ≡ some e) × (¬ IsValid settings))
validate_cases_example = validate_cases settings

parses : parse_with_detector library detect (some file) ≡ good settings
unfolding parse_with_detector parse_identity parse_rest network_of finish parse_toml lookup
    required_string required_int required_bool required_hex2 optional_string optional_int
    optional_bool optional_hex2 optional_ipv4 optional_mac is_auto_value default_host_name
    default_os_info validate usable_ipv4 is_zero_mac ◌>>=◌
parses = refl

parse_with_detector-IsReady_example : IsReady settings
parse_with_detector-IsReady_example =
    parse_with_detector-IsReady library detect (some file) settings parses
