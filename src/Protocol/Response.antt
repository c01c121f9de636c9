-- ===== src/Protocol/Response.antt =====
-- internal/protocol/response.go: the reply that belongs to a request.
pub mod Accepts
pub mod Phases
use jlu_drcom_win.Base.{
  ℕ, Option, none, some, length, leb, ltb, not, ◌==◌, ◌||◌, if◌then◌else◌, Bool, true, false, List,
}
use jlu_drcom_win.Protocol.Types.{Bytes, Error, rejected, Result, ok, err}
use jlu_drcom_win.Protocol.Buffer.{index, index_ne, index_eq, ◌or◌, ◌and◌, ◌>>=◌}
use jlu_drcom_win.Protocol.Heartbeat.{valid_heartbeat, parse_keep_alive_auth_response}
use jlu_drcom_win.Protocol.Logout.{parse_logout_response}

-- `err == nil`
abbrev pub is_nil : {A : Type 0} → Result A → Bool
is_nil (ok a) = true
is_nil (err e) = false

-- p[i] == q[i]
abbrev pub same_index : Bytes → Bytes → ℕ → Option Bool
same_index p q i = index p i >>= λ x. index_eq q i x

-- The case of a heartbeat request.
unfoldable pub match_heartbeat : Bytes → Bool → Bytes → Option Bool
match_heartbeat request allow_file p = do
  foreign ←
      some (ltb (length request) 8)
      or (do valid ← valid_heartbeat p; some (not valid))
      or (do same ← same_index p request 1; some (not same))
  if foreign then some false else do
    phase ← index request 5
    if phase == 0x03
        then index_eq p 5 0x04
        else if allow_file
        then index_eq p 5 0x06 or index_eq p 5 0x02
        else index_eq p 5 0x02

-- The switch over the type of the request.
unfoldable pub match_request : ℕ → Bytes → Bool → Bytes → Option Bool
match_request kind request allow_file p =
    if kind == 0x01
    then some (leb 2 (length request))
      and some (leb 8 (length p))
      and index_eq p 0 0x02
      and same_index p request 1
    else if kind == 0x03
    then some (leb 39 (length p)) and index_eq p 0 0x04
    else if kind == 0x06
    then (do parsed ← parse_logout_response p; some (is_nil parsed))
    else if kind == 0xff
    then (do parsed ← parse_keep_alive_auth_response p; some (is_nil parsed))
    else if kind == 0x07
    then match_heartbeat request allow_file p
    else some false

-- The function that ResponseMatcher(request, allowFile) returns.
unfoldable pub response_matcher : Bytes → Bool → Bytes → Option (Result Bool)
response_matcher request allow_file p =
    if (length p == 0) || (length request == 0) then some (ok false) else do
      first ← index p 0
      if first == 0x05 then some (err rejected) else do
        kind ← index request 0
        matched ← match_request kind request allow_file p
        some (ok matched)
