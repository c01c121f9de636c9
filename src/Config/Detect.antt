-- ===== src/Config/Detect.antt =====
-- AutoDetectNetwork of internal/config/config.go: the candidates among the interfaces of the computer.
pub mod Usable
use jlu_drcom_win.Base.{
  Bool, ltb, List, [], ◌∷◌, ◌++◌, Option, none, some, if◌then◌else◌, length, take, inr, ◌⊎◌,
}
use jlu_drcom_win.Protocol.Types.{Bytes}
use jlu_drcom_win.Config.Types.{NetworkInfo}
use jlu_drcom_win.Config.Validate.{usable_ipv4}
use jlu_drcom_win.Config.Parse.{DetectorError, not_found}
use jlu_drcom_win.Config.Select.{Text, Candidate, select_auto_network}

-- net.Addr: IPNet, IPAddr and the others.
pub data Addr : Type 0 where
  ip_net ip_addr : Bytes → Addr
  other_addr : Addr

-- net.Interface, with what Addrs returns (none for an error).
pub record Interface : Type 0 where
  pub name : Bytes
  pub up : Bool
  pub loopback : Bool
  pub hardware_addr : Bytes
  pub addrs : Option (List Addr)

-- `to4` is net.IP.To4: four bytes, or nil.
module _ (to4 : Bytes → Option Bytes) where
  abbrev pub ipv4_from_addr : Addr → Option Bytes
  ipv4_from_addr (ip_net ip) = to4 ip
  ipv4_from_addr (ip_addr ip) = to4 ip
  ipv4_from_addr other_addr = none

  -- The rounds of the loop over the addresses that come to append.
  abbrev pub append_ip : Interface → Option Bytes → List Candidate → List Candidate
  append_ip i none rest = rest
  append_ip i (some ip) rest =
      if usable_ipv4 ip
      then (if ltb (length i.hardware_addr) 6
          then rest
          else (record {
            name = i.name;
            up = i.up;
            loopback = i.loopback;
            ip = ip;
            mac = take 6 i.hardware_addr;
          })
            ∷ rest)
      else rest

  abbrev pub of_addrs : Interface → List Addr → List Candidate → List Candidate
  of_addrs i [] rest = rest
  of_addrs i (a ∷ addrs) rest = append_ip i (ipv4_from_addr a) (of_addrs i addrs rest)

  abbrev pub of_interface : Interface → Option (List Addr) → List Candidate → List Candidate
  of_interface i none rest = rest
  of_interface i (some addrs) rest = of_addrs i addrs rest

  unfoldable pub candidates_of : List Interface → List Candidate
  candidates_of [] = []
  candidates_of (i ∷ is) = of_interface i i.addrs (candidates_of is)

  -- `interfaces` is the result of net.Interfaces, none for an error.
  unfoldable pub auto_detect_network :
      Text → Option (List Interface) → Bytes → NetworkInfo ⊎ DetectorError
  auto_detect_network text none hint = inr not_found
  auto_detect_network text (some interfaces) hint =
      select_auto_network text (candidates_of interfaces) hint
