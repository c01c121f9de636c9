-- ===== src/Tests/Samples.antt =====
-- Sample values: a configuration, a session, packets, and stand-ins for MD5 and the random reader.
use jlu_drcom_win.Base.{ℕ, suc, [], ◌∷◌, ◌++◌, Option, some, take, replicate}
use jlu_drcom_win.Protocol.Types.{Bytes, Config, Session}

-- A reader over a counter of its calls.
abbrev pub sevens : ℕ → ℕ → Option (Bytes × ℕ)
sevens n calls = some (replicate n 7, suc calls)

-- Some function to 16 bytes.
abbrev pub first16 : Bytes → Bytes
first16 bytes = take 16 (bytes ++ replicate 16 1)

abbrev pub config : Config
config = record {
  username = 0x75 ∷ 0x73 ∷ 0x65 ∷ 0x72 ∷ [];
  password = 0x70 ∷ 0x61 ∷ 0x73 ∷ 0x73 ∷ 0x31 ∷ 0x32 ∷ [];
  ip = 10 ∷ 1 ∷ 2 ∷ 3 ∷ [];
  mac = 0x0a ∷ 0x1b ∷ 0x2c ∷ 0x3d ∷ 0x4e ∷ 0x5f ∷ [];
  host_name = 0x70 ∷ 0x63 ∷ [];
  os_info = 0x57 ∷ 0x31 ∷ 0x30 ∷ [];
  primary_dns = 10 ∷ 10 ∷ 10 ∷ 10 ∷ [];
  dhcp_server = 0 ∷ 0 ∷ 0 ∷ 0 ∷ [];
  auth_version = 0x68 ∷ 0x00 ∷ [];
  keep_alive_version = 0xdc ∷ 0x02 ∷ [];
  first_heartbeat_version = 0x0f ∷ 0x27 ∷ [];
  extra_heartbeat_version = 0xdb ∷ 0x02 ∷ [];
}

abbrev pub session : Session
session = record {
  login_salt = 1 ∷ 2 ∷ 3 ∷ 4 ∷ [];
  logout_salt = 5 ∷ 6 ∷ 7 ∷ 8 ∷ [];
  md5_password = replicate 16 9;
  server_drcom_indicator = replicate 16 11;
  heartbeat_token = 12 ∷ 13 ∷ 14 ∷ 15 ∷ [];
  heartbeat_count = 260;
}

-- Requests and replies of the server.
abbrev pub challenge : Bytes
challenge = 0x01 ∷ 0x02 ∷ replicate 18 0

abbrev pub salt_reply : Bytes
salt_reply = 0x02 ∷ 0x02 ∷ 0 ∷ 0 ∷ 21 ∷ 22 ∷ 23 ∷ 24 ∷ []

abbrev pub login_request : Bytes
login_request = 0x03 ∷ replicate 333 0

abbrev pub login_reply : Bytes
login_reply = 0x04 ∷ replicate 40 6

-- Step 1 of the session's count 260, and its reply.
abbrev pub step1 : Bytes
step1 = 0x07 ∷ 4 ∷ 0x28 ∷ 0 ∷ 0x0b ∷ 0x01 ∷ replicate 34 0

abbrev pub step1_reply : Bytes
step1_reply =
    0x07 ∷ 4 ∷ 0x28 ∷ 0 ∷ 0x0b ∷ 0x02 ∷ (replicate 10 0 ++ (31 ∷ 32 ∷ 33 ∷ 34 ∷ replicate 20 0))
