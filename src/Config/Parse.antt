-- ===== src/Config/Parse.antt =====
-- ParseWithDetector of internal/config/config.go.
use jlu_drcom_win.Base.{
  ℕ, ◌*◌, ◌+◌, ◌-◌, Bool, true, false, ◌&&◌, ◌||◌, not, ℤ, pos, negsuc, ◌==◌, ◌⊎◌, inl, inr, List,
  [], ◌∷◌, Option, none, some, if◌then◌else◌,
}
use jlu_drcom_win.Protocol.Types.{Bytes}
use jlu_drcom_win.Config.Types.{Config, NetworkInfo}
use jlu_drcom_win.Config.Validate.{Invalid, same_bytes, validate}
use jlu_drcom_win.Config.Values.{
  Key, username_key, password_key, ip_key, mac_key, adapter_hint_key, host_name_key, os_info_key,
  server_ip_key, server_port_key, bind_ip_key, bind_port_key, primary_dns_key, dhcp_server_key,
  auth_version_key, keepalive_version_key, first_heartbeat_version_key, extra_heartbeat_version_key,
  debug_hex_dump_key, receive_timeout_ms_key, retry_count_key, heartbeat_interval_seconds_key,
  Values, ambiguous_adapters, adapter_not_ready, different_adapters, invalid, Checked, good, bad,
  ◌>>=◌, Library, default_host_name, default_os_info, required_string, optional_int, optional_bool,
  optional_hex2, optional_string, optional_ipv4, optional_mac, is_auto_value, parse_toml,
}
pub mod Sound

-- The error of a detector: ErrAmbiguousNetwork, or another one.
pub data DetectorError : Type 0 where
  ambiguous not_found : DetectorError

abbrev pub Detector : Type 0
Detector = Bytes → (NetworkInfo ⊎ DetectorError)

abbrev no_network : NetworkInfo
no_network = record {
  interface_name = [];
  ip = 0 ∷ 0 ∷ 0 ∷ 0 ∷ [];
  mac = 0 ∷ 0 ∷ 0 ∷ 0 ∷ 0 ∷ 0 ∷ [];
}

abbrev detected : NetworkInfo ⊎ DetectorError → Checked NetworkInfo
detected (inl info) = good info
detected (inr ambiguous) = bad ambiguous_adapters
detected (inr not_found) = bad adapter_not_ready

-- An address that the detector did not give.
abbrev foreign : Bool → NetworkInfo → Bytes → Bytes → Bool
foreign need network ip mac =
    need && (not (same_bytes ip network.ip) || not (same_bytes mac network.mac))

-- time.Duration(n) * unit, in nanoseconds; the bounds of Validate keep it far below 2^63.
abbrev times : ℤ → ℕ → ℤ
times (pos n) unit = pos (n * unit)
times (negsuc n) unit = if unit == 0 then pos 0 else negsuc ((n + 1) * unit - 1)

abbrev validated : Config → Option Invalid → Checked Config
validated c (some e) = bad (invalid e)
validated c none = good (record c {
  receive_timeout = times c.receive_timeout_millis 1000000;
  heartbeat_interval = times c.heartbeat_interval_secs 1000000000;
})

-- The end of ParseWithDetector: Validate, and the durations.
unfoldable pub finish : Config → Checked Config
finish c = validated c (validate c)

-- The adapter that the settings ask for.
unfoldable pub network_of : Detector → Bool → Bytes → Checked NetworkInfo
network_of detect need hint = if need then detected (detect hint) else good no_network

-- The part up to the addresses of the client.
pub record Identity : Type 0 where
  pub username : Bytes
  pub password : Bytes
  pub adapter_hint : Bytes
  pub network : NetworkInfo
  pub ip : Bytes
  pub mac : Bytes

unfoldable pub parse_identity : Library → Detector → Values → Checked Identity
parse_identity library detect values = do
  username ← required_string values username_key
  password ← required_string values password_key
  hint ← optional_string library values adapter_hint_key []
  let need = is_auto_value library values ip_key || is_auto_value library values mac_key
  network ← network_of detect need hint
  ip ← optional_ipv4 library values ip_key network.ip
  mac ← optional_mac library values mac_key network.mac
  if foreign need network ip mac
      then bad different_adapters
      else good (record {
        username = username;
        password = password;
        adapter_hint = hint;
        network = network;
        ip = ip;
        mac = mac;
      })

unfoldable pub parse_rest : Library → Values → Identity → Checked Config
parse_rest library values identity = do
  host_name ← optional_string library values host_name_key (default_host_name library)
  os_info ← optional_string library values os_info_key (default_os_info library)
  server_ip ← optional_ipv4 library values server_ip_key (10 ∷ 100 ∷ 61 ∷ 3 ∷ [])
  bind_ip ← optional_ipv4 library values bind_ip_key identity.ip
  primary_dns ← optional_ipv4 library values primary_dns_key (10 ∷ 10 ∷ 10 ∷ 10 ∷ [])
  dhcp_server ← optional_ipv4 library values dhcp_server_key (0 ∷ 0 ∷ 0 ∷ 0 ∷ [])
  auth_version ← optional_hex2 library values auth_version_key (0x68 ∷ 0x00 ∷ [])
  keep_alive ← optional_hex2 library values keepalive_version_key (0xdc ∷ 0x02 ∷ [])
  first ← optional_hex2 library values first_heartbeat_version_key (0x0f ∷ 0x27 ∷ [])
  extra ← optional_hex2 library values extra_heartbeat_version_key (0xdb ∷ 0x02 ∷ [])
  server_port ← optional_int values server_port_key (pos 61440)
  bind_port ← optional_int values bind_port_key (pos 61440)
  timeout ← optional_int values receive_timeout_ms_key (pos 2000)
  retries ← optional_int values retry_count_key (pos 3)
  interval ← optional_int values heartbeat_interval_seconds_key (pos 20)
  dump ← optional_bool values debug_hex_dump_key false
  finish (record {
    username = identity.username;
    password = identity.password;
    ip = identity.ip;
    mac = identity.mac;
    host_name = host_name;
    os_info = os_info;
    server_ip = server_ip;
    server_port = server_port;
    bind_ip = bind_ip;
    bind_port = bind_port;
    auth_version = auth_version;
    keep_alive_version = keep_alive;
    first_heartbeat_version = first;
    extra_heartbeat_version = extra;
    primary_dns = primary_dns;
    dhcp_server = dhcp_server;
    debug_hex_dump = dump;
    receive_timeout = pos 0;
    retry_count = retries;
    heartbeat_interval = pos 0;
    receive_timeout_millis = timeout;
    heartbeat_interval_secs = interval;
    adapter_hint = identity.adapter_hint;
    auto_network = identity.network;
  })

-- ParseWithDetector, on the result of the decoder.
unfoldable pub parse_with_detector : Library → Detector → Option Values → Checked Config
parse_with_detector library detect decoded = do
  values ← parse_toml decoded
  identity ← parse_identity library detect values
  parse_rest library values identity
