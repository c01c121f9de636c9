-- ===== src/Tests/Opens.antt =====
-- Settings that are loaded with a detected adapter, and the transport that they open.
use jlu_drcom_win.Base.{ℕ, ◌≡◌, ◌≢◌, refl, true, ◌==◌, ◌&&◌, [], ◌∷◌, none, some, inr, arith}
use jlu_drcom_win.Protocol.Buffer.{byte}
use jlu_drcom_win.Config.Types.{Config}
use jlu_drcom_win.Config.Validate.{validate, usable_ipv4, is_zero_mac}
use jlu_drcom_win.Config.Values.{
  ◌>>=◌, parse_toml, lookup, required_string, required_int, required_bool, required_hex2,
  optional_string, optional_int, optional_bool, optional_hex2, optional_ipv4, optional_mac,
  is_auto_value, default_host_name, default_os_info,
}
use jlu_drcom_win.Config.Parse.{parse_with_detector, parse_identity, parse_rest, network_of, finish}
use jlu_drcom_win.Config.Detect.{auto_detect_network, candidates_of}
use jlu_drcom_win.Config.Select.{select_auto_network, scan, score, looks_virtual_adapter}
use jlu_drcom_win.Config.Load.{Packages, load, loaded}
use jlu_drcom_win.Transport.Pin.{Host}
use jlu_drcom_win.Runner.Service.Opens.{open_default, OpensReady, open_default-OpensReady}
use jlu_drcom_win.Tests.Settings.{library, file, settings}
use jlu_drcom_win.Tests.Adapters.{text, interfaces}
use jlu_drcom_win.Tests.Pins.{listen}
use jlu_drcom_win.Tests.Pins

abbrev packages : Packages
packages = record {
  decode = λ b. some file;
  library = library;
  to4 = λ ip. some ip;
  text = text;
  interfaces = some interfaces;
}

abbrev found_settings : Config
found_settings = record settings {
  ip = 10 ∷ 0 ∷ 0 ∷ 1 ∷ [];
  mac = 1 ∷ 2 ∷ 3 ∷ 4 ∷ 5 ∷ 6 ∷ [];
  bind_ip = 10 ∷ 0 ∷ 0 ∷ 1 ∷ [];
  auto_network = record {
    interface_name = 0x61 ∷ [];
    ip = 10 ∷ 0 ∷ 0 ∷ 1 ∷ [];
    mac = 1 ∷ 2 ∷ 3 ∷ 4 ∷ 5 ∷ 6 ∷ [];
  };
}

loads : load packages (inr []) ≡ loaded found_settings
unfolding parse_with_detector parse_identity parse_rest network_of finish parse_toml lookup
    required_string required_int required_bool required_hex2 optional_string optional_int
    optional_bool optional_hex2 optional_ipv4 optional_mac is_auto_value default_host_name
    default_os_info validate usable_ipv4 is_zero_mac ◌>>=◌ auto_detect_network select_auto_network
    scan candidates_of score looks_virtual_adapter
loads = refl

abbrev host : Host ℕ
host = record Pins.host {
  is_unspecified =
      λ ip. (byte ip 0 == 0) && (byte ip 1 == 0) && (byte ip 2 == 0) && (byte ip 3 == 0);
}

unspecified_zero :
    (a b c d : ℕ)
    → host.is_unspecified (a ∷ b ∷ c ∷ d ∷ []) ≡ true
    → (a ≡ 0) × (b ≡ 0) × (c ≡ 0) × (d ≡ 0)
unspecified_zero a b c d q = ground (arith, q)

loopback_127 : (a b c d : ℕ) → host.is_loopback (a ∷ b ∷ c ∷ d ∷ []) ≡ true → a ≡ 127
loopback_127 a b c d q = ground (arith, q)

four_bytes : (a b c d : ℕ) → host.to4 (a ∷ b ∷ c ∷ d ∷ []) ≢ none
four_bytes a b c d = ground arith

open_default-OpensReady_example :
    OpensReady host listen
      (λ s. s)
      found_settings
      0
      (open_default host listen (λ s. s) found_settings 0)
open_default-OpensReady_example =
    open_default-OpensReady host listen (λ s. s) unspecified_zero loopback_127 four_bytes packages
      (inr []) found_settings 0 loads refl
