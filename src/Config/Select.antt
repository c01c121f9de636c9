-- ===== src/Config/Select.antt =====
-- selectAutoNetwork of internal/config/config.go: the choice of an adapter.
pub mod Best
pub mod Chosen
use jlu_drcom_win.Base.{
  ℕ, ◌+◌, Bool, true, false, ◌&&◌, ◌||◌, not, ◌==◌, ltb, ◌⊎◌, inl, inr, List, [], ◌∷◌, Option, none,
  some, if◌then◌else◌, length,
}
use jlu_drcom_win.Protocol.Types.{Bytes}
use jlu_drcom_win.Config.Types.{NetworkInfo}
use jlu_drcom_win.Config.Validate.{same_bytes, is_zero_mac}
use jlu_drcom_win.Config.Parse.{DetectorError, ambiguous, not_found}

-- strings.ToLower, strings.TrimSpace and strings.Contains
pub record Text : Type 0 where
  pub lower : Bytes → Bytes
  pub trim : Bytes → Bytes
  pub contains : Bytes → Bytes → Bool

-- networkCandidate, with the tests of net.FlagUp and net.FlagLoopback on its flags.
pub record Candidate : Type 0 where
  pub name : Bytes
  pub up : Bool
  pub loopback : Bool
  pub ip : Bytes
  pub mac : Bytes

-- "virtual", "vethernet", "hyper-v", "vmware", "virtualbox", "wsl", "docker", "bluetooth",
-- "tailscale", "zerotier", "npcap", "loopback", "mihomo", "clash", "wintun", "wireguard"
abbrev virtual_words : List Bytes
virtual_words =
    (0x76 ∷ 0x69 ∷ 0x72 ∷ 0x74 ∷ 0x75 ∷ 0x61 ∷ 0x6c ∷ [])
    ∷ (0x76 ∷ 0x65 ∷ 0x74 ∷ 0x68 ∷ 0x65 ∷ 0x72 ∷ 0x6e ∷ 0x65 ∷ 0x74 ∷ [])
    ∷ (0x68 ∷ 0x79 ∷ 0x70 ∷ 0x65 ∷ 0x72 ∷ 0x2d ∷ 0x76 ∷ [])
    ∷ (0x76 ∷ 0x6d ∷ 0x77 ∷ 0x61 ∷ 0x72 ∷ 0x65 ∷ [])
    ∷ (0x76 ∷ 0x69 ∷ 0x72 ∷ 0x74 ∷ 0x75 ∷ 0x61 ∷ 0x6c ∷ 0x62 ∷ 0x6f ∷ 0x78 ∷ [])
    ∷ (0x77 ∷ 0x73 ∷ 0x6c ∷ [])
    ∷ (0x64 ∷ 0x6f ∷ 0x63 ∷ 0x6b ∷ 0x65 ∷ 0x72 ∷ [])
    ∷ (0x62 ∷ 0x6c ∷ 0x75 ∷ 0x65 ∷ 0x74 ∷ 0x6f ∷ 0x6f ∷ 0x74 ∷ 0x68 ∷ [])
    ∷ (0x74 ∷ 0x61 ∷ 0x69 ∷ 0x6c ∷ 0x73 ∷ 0x63 ∷ 0x61 ∷ 0x6c ∷ 0x65 ∷ [])
    ∷ (0x7a ∷ 0x65 ∷ 0x72 ∷ 0x6f ∷ 0x74 ∷ 0x69 ∷ 0x65 ∷ 0x72 ∷ [])
    ∷ (0x6e ∷ 0x70 ∷ 0x63 ∷ 0x61 ∷ 0x70 ∷ [])
    ∷ (0x6c ∷ 0x6f ∷ 0x6f ∷ 0x70 ∷ 0x62 ∷ 0x61 ∷ 0x63 ∷ 0x6b ∷ [])
    ∷ (0x6d ∷ 0x69 ∷ 0x68 ∷ 0x6f ∷ 0x6d ∷ 0x6f ∷ [])
    ∷ (0x63 ∷ 0x6c ∷ 0x61 ∷ 0x73 ∷ 0x68 ∷ [])
    ∷ (0x77 ∷ 0x69 ∷ 0x6e ∷ 0x74 ∷ 0x75 ∷ 0x6e ∷ [])
    ∷ (0x77 ∷ 0x69 ∷ 0x72 ∷ 0x65 ∷ 0x67 ∷ 0x75 ∷ 0x61 ∷ 0x72 ∷ 0x64 ∷ [])
    ∷ []

abbrev contains_any : Text → Bytes → List Bytes → Bool
contains_any text name [] = false
contains_any text name (word ∷ words) = text.contains name word || contains_any text name words

unfoldable pub looks_virtual_adapter : Text → Bytes → Bool
looks_virtual_adapter text name = contains_any text name virtual_words

-- The score of a candidate, where the loop does not pass over it. The hint and the name are trimmed
-- and in lower case.
abbrev base_score : Text → Bytes → ℕ
base_score text name = if looks_virtual_adapter text name then 10 else 110

abbrev score_named : Text → Bytes → Bytes → Option ℕ
score_named text hint name =
    if length hint == 0
    then (if looks_virtual_adapter text name then none else some (base_score text name))
    else if same_bytes name hint
    then some (base_score text name + 1000)
    else if text.contains name hint
    then some (base_score text name + 500)
    else none

unfoldable pub score : Text → Bytes → Candidate → Option ℕ
score text hint c =
    if not c.up || c.loopback || is_zero_mac c.mac
    then none
    else score_named text hint (text.lower c.name)

-- best, bestScore and ambiguous; `nothing` is a bestScore of -1.
pub data Found : Type 0 where
  nothing : Found
  found : Candidate → ℕ → Bool → Found

-- best.Name != c.Name || best.IP != c.IP
unfoldable pub differs : Candidate → Candidate → Bool
differs b c = not (same_bytes b.name c.name) || not (same_bytes b.ip c.ip)

abbrev pub consider : Candidate → Option ℕ → Found → Found
consider c none f = f
consider c (some s) nothing = found c s false
consider c (some s) (found b t a) =
    if ltb t s then found c s false else found b t (a || ((s == t) && differs b c))

unfoldable pub scan : (Candidate → Option ℕ) → List Candidate → Found → Found
scan scored [] f = f
scan scored (c ∷ cs) f = scan scored cs (consider c (scored c) f)

-- What follows the loop.
abbrev pub conclude : Found → NetworkInfo ⊎ DetectorError
conclude nothing = inr not_found
conclude (found b t true) = inr ambiguous
conclude (found b t false) = inl (record { interface_name = b.name; ip = b.ip; mac = b.mac })

unfoldable pub select_auto_network : Text → List Candidate → Bytes → NetworkInfo ⊎ DetectorError
select_auto_network text candidates adapter_hint =
    conclude (scan (score text (text.lower (text.trim adapter_hint))) candidates nothing)
