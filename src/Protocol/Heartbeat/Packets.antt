-- ===== src/Protocol/Heartbeat/Packets.antt =====
-- The keepalive and heartbeat packets are the tables of docs/PROTOCOL_FIELDS.md.
use jlu_drcom_win.Base.{
  ℕ, ◌/◌, ◌%◌, ◌≡◌, refl, ◌∙◌, ap, List, [], ◌∷◌, ◌++◌, Option, none, some, arith,
}
use jlu_drcom_win.Protocol.Types.{Bytes, Config, Session}
use jlu_drcom_win.Protocol.Buffer.{make_bytes, copy_rules, Reader, ◌>>=◌, slice?, copy_to}
use jlu_drcom_win.Protocol.Layout.{Row, render, copies, copies-render, copies-then}
use jlu_drcom_win.Protocol.Layout.Fields.{copies-more, slice?-render}
use jlu_drcom_win.Protocol.Crypto.{crc}
use jlu_drcom_win.Protocol.Heartbeat.{
  build_keep_alive_auth, build_first_heartbeat, build_extra_heartbeat, build_heartbeat_step1,
  build_heartbeat_step2,
}

abbrev pub keep_alive_rows : Session → ℕ → List Row
keep_alive_rows session unix_time =
    (0, 1, 0xff ∷ [])
    ∷ (1, 17, session.md5_password)
    ∷ (20, 36, session.server_drcom_indicator)
    ∷ (36, 37, (unix_time % 256) ∷ [])
    ∷ (37, 38, (unix_time / 256 % 256) ∷ [])
    ∷ []

-- BuildKeepAliveAuth does not panic, and writes the 38 bytes of the table.
pub build_keep_alive_auth-table :
    (session : Session) (unix_time : ℕ)
    → build_keep_alive_auth session unix_time
      ≡ some (render 0 38 (keep_alive_rows session unix_time))
unfolding build_keep_alive_auth
build_keep_alive_auth-table session unix_time =
    written ∙ copies-render 38 (keep_alive_rows session unix_time) (omega arith)
  where
    written :
        build_keep_alive_auth session unix_time
        ≡ copies (keep_alive_rows session unix_time) (make_bytes 38)
    written = simp copy_rules

-- Type, count, length, opcode, phase, version and random token.
abbrev pub base_rows : Session → ℕ → Bytes → Bytes → List Row
base_rows session phase version drawn =
    (0, 1, 0x07 ∷ [])
    ∷ (1, 2, (session.heartbeat_count % 256) ∷ [])
    ∷ (2, 3, 0x28 ∷ [])
    ∷ (3, 4, 0x00 ∷ [])
    ∷ (4, 5, 0x0b ∷ [])
    ∷ (5, 6, phase ∷ [])
    ∷ (6, 8, version)
    ∷ (8, 12, drawn)
    ∷ []

abbrev pub token_row : Session → List Row
token_row session = (16, 20, session.heartbeat_token) ∷ []

abbrev pub check_rows : Config → Bytes → List Row
check_rows config prefix = (24, 28, crc (prefix ++ config.ip)) ∷ (28, 32, config.ip) ∷ []

module _ {R : Type 0} (config : Config) (session : Session) (read : Reader R) (rng next : R)
    (drawn : Bytes) (e : read 4 rng ≡ some (drawn, next)) where
  answer : Bytes → Option (Bytes × R)
  answer p = some (p, next)

  -- With four random bytes drawn, the heartbeats of phase 1 do not panic and write the 40 bytes
  -- of the table: each its version, the extra one and step 1 the token of the server as well.
  pub build_heartbeats-table :
      (build_first_heartbeat config session read rng
        ≡ some (render 0 40 (base_rows session 0x01 config.first_heartbeat_version drawn), next))
      × (build_extra_heartbeat config session read rng
          ≡ some (
            render 0 40
                (base_rows session 0x01 config.extra_heartbeat_version drawn ++ token_row session),
            next,
          ))
      × (build_heartbeat_step1 config session read rng
          ≡ some (
            render 0 40
                (base_rows session 0x01 config.keep_alive_version drawn ++ token_row session),
            next,
          ))
  unfolding build_first_heartbeat build_extra_heartbeat build_heartbeat_step1 answer
  build_heartbeats-table = (
    first
        ∙ copies-then 40 (base_rows session 0x01 config.first_heartbeat_version drawn) answer
            (omega arith),
    extra
        ∙ copies-then 40
            (base_rows session 0x01 config.extra_heartbeat_version drawn ++ token_row session)
            answer (omega arith),
    step1
        ∙ copies-then 40
            (base_rows session 0x01 config.keep_alive_version drawn ++ token_row session) answer
            (omega arith),
  )
    where
      first : build_first_heartbeat config session read rng ≡ (
          copies (base_rows session 0x01 config.first_heartbeat_version drawn) (make_bytes 40)
          >>= answer)
      first = rw e (simp copy_rules)

      extra : build_extra_heartbeat config session read rng ≡ (
          copies
            (base_rows session 0x01 config.extra_heartbeat_version drawn ++ token_row session)
            (make_bytes 40)
          >>= answer)
      extra = rw e (simp copy_rules)

      step1 : build_heartbeat_step1 config session read rng ≡ (
          copies
            (base_rows session 0x01 config.keep_alive_version drawn ++ token_row session)
            (make_bytes 40)
          >>= answer)
      step1 = rw e (simp copy_rules)

-- Without random bytes, the builders of phase 1 panic.
pub build_heartbeats-none :
    {R : Type 0} (config : Config) (session : Session) (read : Reader R) (rng : R)
    → read 4 rng ≡ none
    → (build_first_heartbeat config session read rng ≡ none)
      × (build_extra_heartbeat config session read rng ≡ none)
      × (build_heartbeat_step1 config session read rng ≡ none)
unfolding build_first_heartbeat build_extra_heartbeat build_heartbeat_step1 copy_to
build_heartbeats-none config session read rng e = (rw e refl, rw e refl, rw e refl)

abbrev pub step2_rows : Config → Session → Bytes → List Row
step2_rows config session random_token =
    base_rows session 0x03 config.keep_alive_version random_token ++ token_row session

-- BuildHeartbeatStep2 does not panic, and writes the 40 bytes of the table, with the CRC over its
-- first 24 bytes and the client's address.
pub build_heartbeat_step2-table :
    (config : Config) (session : Session) (random_token : Bytes)
    → let rows = step2_rows config session random_token in
      build_heartbeat_step2 config session random_token
      ≡ some (render 0 40 (rows ++ check_rows config (render 0 24 rows)))
unfolding build_heartbeat_step2
build_heartbeat_step2-table config session random_token =
    written
    ∙ copies-then 40 rows checked (omega arith)
    ∙ ap (λ o. o >>= checked_with (render 0 40 rows))
        (slice?-render 24 40 rows (omega arith) (omega arith))
    ∙ finished
    ∙ copies-more 40 rows (check_rows config (render 0 24 rows)) (omega arith)
  where
    rows : List Row
    rows = step2_rows config session random_token

    checked_with : Bytes → Bytes → Option Bytes
    checked_with p prefix =
        copy_to 24 28 (crc (prefix ++ config.ip)) p >>= λ q. copy_to 28 32 config.ip q

    checked : Bytes → Option Bytes
    checked p = slice? 0 24 p >>= checked_with p

    written :
        build_heartbeat_step2 config session random_token
        ≡ (copies rows (make_bytes 40) >>= checked)
    written = simp copy_rules

    finished :
        checked_with (render 0 40 rows) (render 0 24 rows)
        ≡ copies (check_rows config (render 0 24 rows)) (render 0 40 rows)
    finished = simp copy_rules
