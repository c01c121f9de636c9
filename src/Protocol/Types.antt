-- ===== src/Protocol/Types.antt =====
-- internal/protocol/types.go: what the packet builders read, and the session that they share.
use jlu_drcom_win.Base.{ℕ, ◌≡◌, ◌<◌, ◌^◌, List, length}

-- Go strings and byte slices are lists of numbers; a byte is below 256.
abbrev pub Bytes : Type 0
Bytes = List ℕ

pub record Config : Type 0 where
  pub username : Bytes
  pub password : Bytes
  pub ip : Bytes
  pub mac : Bytes
  pub host_name : Bytes
  pub os_info : Bytes
  pub primary_dns : Bytes
  pub dhcp_server : Bytes
  pub auth_version : Bytes
  pub keep_alive_version : Bytes
  pub first_heartbeat_version : Bytes
  pub extra_heartbeat_version : Bytes

pub record Session : Type 0 where
  pub login_salt : Bytes
  pub logout_salt : Bytes
  pub md5_password : Bytes
  pub server_drcom_indicator : Bytes
  pub heartbeat_token : Bytes
  pub heartbeat_count : ℕ

-- The lengths that the array types of the struct fix, and the width of its count.
pub record IsSession (s : Session) : Type 0 where
  pub login_salt : length s.login_salt ≡ 4
  pub logout_salt : length s.logout_salt ≡ 4
  pub md5_password : length s.md5_password ≡ 16
  pub server_drcom_indicator : length s.server_drcom_indicator ≡ 16
  pub heartbeat_token : length s.heartbeat_token ≡ 4
  pub heartbeat_count : s.heartbeat_count < 2 ^ 64

abbrev pub size_challenge : ℕ
size_challenge = 20

abbrev pub size_keep_alive_auth : ℕ
size_keep_alive_auth = 38

abbrev pub size_keep_alive_heartbeat : ℕ
size_keep_alive_heartbeat = 40

abbrev pub size_logout : ℕ
size_logout = 80

-- The errors of the parsers, and ErrRejected of internal/protocol/response.go.
pub data Error : Type 0 where
  challenge_too_short : ℕ → Error
  unexpected_challenge_type : ℕ → ℕ → Error
  login_rejected : Error
  login_too_short : ℕ → Error
  unexpected_login_type : ℕ → Error
  invalid_keepalive_auth : Error
  invalid_heartbeat_step1 : Error
  invalid_heartbeat : Error
  invalid_logout : Error
  rejected : Error

pub data Result {ℓ} (A : Type ℓ) : Type ℓ where
  ok : A → Result A
  err : Error → Result A
