-- ===== src/Config/Load.antt =====
-- Load, Parse and the UDP addresses of internal/config/config.go.
use jlu_drcom_win.Base.{pos_part, List, [], ◌∷◌, Option, ◌⊎◌, inl, inr, ◌≡◌, refl, ap, ◌∙◌, arith}
use jlu_drcom_win.Protocol.Types.{Bytes}
use jlu_drcom_win.Protocol.Buffer.{byte}
use jlu_drcom_win.Config.Types.{Config}
use jlu_drcom_win.Config.Values.{Library, Values, Checked, good, bad, Problem}
use jlu_drcom_win.Config.Parse.{parse_with_detector}
use jlu_drcom_win.Config.Parse.Sound.{IsReady, parse_with_detector-IsReady}
use jlu_drcom_win.Config.Select.{Text}
use jlu_drcom_win.Config.Detect.{Interface, auto_detect_network}
use jlu_drcom_win.Transport.Failure.{Failure}
use jlu_drcom_win.Transport.Udp.{Address}

-- net.IPv4(v[0], v[1], v[2], v[3]).To4()
abbrev pub ipv4_to_net_ip : Bytes → Bytes
ipv4_to_net_ip v = byte v 0 ∷ byte v 1 ∷ byte v 2 ∷ byte v 3 ∷ []

-- Config.ServerUDPAddr and Config.BindUDPAddr, where Validate has let no negative port pass.
abbrev pub server_udp_addr : Config → Address
server_udp_addr c = record { ip = ipv4_to_net_ip c.server_ip; port = pos_part c.server_port }

abbrev pub bind_udp_addr : Config → Address
bind_udp_addr c = record { ip = ipv4_to_net_ip c.bind_ip; port = pos_part c.bind_port }

-- What the packages of others do for Load: the decoder of TOML, the readers of values, net.IP.To4, the
-- functions on strings, and the result of net.Interfaces.
pub record Packages : Type 0 where
  pub decode : Bytes → Option Values
  pub library : Library
  pub to4 : Bytes → Option Bytes
  pub text : Text
  pub interfaces : Option (List Interface)

-- Parse
abbrev pub parse : Packages → Bytes → Checked Config
parse p file =
    parse_with_detector p.library (auto_detect_network p.to4 p.text p.interfaces) (p.decode file)

-- The result of Load: the error of os.ReadFile, the one of Parse, or the settings.
pub data Loaded : Type 0 where
  unread : Failure → Loaded
  refused : Problem → Loaded
  loaded : Config → Loaded

abbrev pub after_parse : Checked Config → Loaded
after_parse (good c) = loaded c
after_parse (bad e) = refused e

-- Load, from the result of os.ReadFile.
abbrev pub load : Packages → Failure ⊎ Bytes → Loaded
load p (inl e) = unread e
load p (inr file) = after_parse (parse p file)

pub load-IsReady :
    (p : Packages) (file : Failure ⊎ Bytes) (c : Config) → load p file ≡ loaded c → IsReady c
load-IsReady p (inl e) c q = ground (arith, q)
load-IsReady p (inr file) c q = at_parse (parse p file) refl q
  where
    at_parse : (r : Checked Config) → parse p file ≡ r → after_parse r ≡ loaded c → IsReady c
    at_parse (bad e) z q = ground (arith, q)
    at_parse (good d) z q =
        parse_with_detector-IsReady p.library (auto_detect_network p.to4 p.text p.interfaces)
          (p.decode file) c (z ∙ ap good (ground (arith, q)))
