-- ===== src/Config/Types.antt =====
-- The configuration record of internal/config/config.go and the views that other parts take of it.
use jlu_drcom_win.Base.{ℤ, Bool}
use jlu_drcom_win.Protocol.Types.{Bytes}
use jlu_drcom_win.Protocol.Types

pub record NetworkInfo : Type 0 where
  pub interface_name : Bytes
  pub ip : Bytes
  pub mac : Bytes

-- Durations are in nanoseconds.
pub record Config : Type 0 where
  pub username : Bytes
  pub password : Bytes
  pub ip : Bytes
  pub mac : Bytes
  pub host_name : Bytes
  pub os_info : Bytes
  pub server_ip : Bytes
  pub server_port : ℤ
  pub bind_ip : Bytes
  pub bind_port : ℤ
  pub auth_version : Bytes
  pub keep_alive_version : Bytes
  pub first_heartbeat_version : Bytes
  pub extra_heartbeat_version : Bytes
  pub primary_dns : Bytes
  pub dhcp_server : Bytes
  pub debug_hex_dump : Bool
  pub receive_timeout : ℤ
  pub retry_count : ℤ
  pub heartbeat_interval : ℤ
  pub receive_timeout_millis : ℤ
  pub heartbeat_interval_secs : ℤ
  pub adapter_hint : Bytes
  pub auto_network : NetworkInfo

-- Config.ProtocolConfig
unfoldable pub protocol_config : Config → Types.Config
protocol_config c = record {
  username = c.username;
  password = c.password;
  ip = c.ip;
  mac = c.mac;
  host_name = c.host_name;
  os_info = c.os_info;
  primary_dns = c.primary_dns;
  dhcp_server = c.dhcp_server;
  auth_version = c.auth_version;
  keep_alive_version = c.keep_alive_version;
  first_heartbeat_version = c.first_heartbeat_version;
  extra_heartbeat_version = c.extra_heartbeat_version;
}
