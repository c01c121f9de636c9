-- ===== src/Tests/Adapters.antt =====
-- The choice between two adapters that are up.
use jlu_drcom_win.Base.{true, false, [], ◌∷◌, List, some, inl, ◌≡◌, refl}
use jlu_drcom_win.Config.Types.{NetworkInfo}
use jlu_drcom_win.Config.Detect.{Interface, ip_net, auto_detect_network, candidates_of}
use jlu_drcom_win.Config.Detect.Usable.{IsUsable, auto_detect_network-IsUsable}
use jlu_drcom_win.Config.Validate.{usable_ipv4, is_zero_mac}
use jlu_drcom_win.Config.Select.{
  Text, Candidate, select_auto_network, scan, score, looks_virtual_adapter,
}
use jlu_drcom_win.Config.Select.Chosen.{Choice, select_auto_network-Chosen}

abbrev pub text : Text
text = record { lower = λ b. b; trim = λ b. b; contains = λ a b. false }

abbrev candidates : List Candidate
candidates =
    (record {
      name = 0x61 ∷ [];
      up = true;
      loopback = false;
      ip = 10 ∷ 0 ∷ 0 ∷ 1 ∷ [];
      mac = 1 ∷ 2 ∷ 3 ∷ 4 ∷ 5 ∷ 6 ∷ [];
    })
    ∷ (record {
      name = 0x62 ∷ [];
      up = true;
      loopback = false;
      ip = 10 ∷ 0 ∷ 0 ∷ 2 ∷ [];
      mac = 1 ∷ 2 ∷ 3 ∷ 4 ∷ 5 ∷ 7 ∷ [];
    })
    ∷ []

select_auto_network-Chosen_example :
    Choice
      (score text (text.lower (text.trim (0x62 ∷ []))))
      candidates
      (select_auto_network text candidates (0x62 ∷ []))
select_auto_network-Chosen_example = select_auto_network-Chosen text candidates (0x62 ∷ [])

abbrev pub interfaces : List Interface
interfaces =
    (record {
      name = 0x61 ∷ [];
      up = true;
      loopback = false;
      hardware_addr = 1 ∷ 2 ∷ 3 ∷ 4 ∷ 5 ∷ 6 ∷ [];
      addrs = some (ip_net (169 ∷ 254 ∷ 0 ∷ 1 ∷ []) ∷ ip_net (10 ∷ 0 ∷ 0 ∷ 1 ∷ []) ∷ []);
    })
    ∷ []

abbrev detected : NetworkInfo
detected = record {
  interface_name = 0x61 ∷ [];
  ip = 10 ∷ 0 ∷ 0 ∷ 1 ∷ [];
  mac = 1 ∷ 2 ∷ 3 ∷ 4 ∷ 5 ∷ 6 ∷ [];
}

detects : auto_detect_network (λ ip. some ip) text (some interfaces) [] ≡ inl detected
unfolding auto_detect_network select_auto_network scan candidates_of usable_ipv4 score is_zero_mac
    looks_virtual_adapter
detects = refl

auto_detect_network-IsUsable_example : IsUsable detected
auto_detect_network-IsUsable_example =
    auto_detect_network-IsUsable (λ ip. some ip) text (some interfaces) [] detected detects
