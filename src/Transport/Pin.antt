-- ===== src/Transport/Pin.antt =====
-- internal/transport/interface_windows.go: the socket sends through the interface that owns the
-- address. The list of interfaces, their addresses and the calls on the socket are parameters.
pub mod Owner
pub mod Opening
use jlu_drcom_win.Base.{
  ℕ, ◌/◌, ◌%◌, ◌^◌, Bool, true, false, ◌||◌, if◌then◌else◌, List, [], ◌∷◌, Option, none, some, ◌⊎◌,
  inl, inr,
}
use jlu_drcom_win.Protocol.Types.{Bytes}
use jlu_drcom_win.Config.Detect.{Addr, ip_net, ip_addr, other_addr}
use jlu_drcom_win.Transport.Failure.{Failure, no_interface_owns}

-- IsUnspecified, IsLoopback, To4 and Equal of net.IP; net.Interfaces, by the indices of the
-- interfaces; Addrs of the one with an index (none for an error); SyscallConn; RawConn.Control, by its
-- error or the descriptor that it calls its function with; SetsockoptInt; and
-- binary.NativeEndian.Uint32.
pub record Host (S : Type 0) : Type 0 where
  pub is_unspecified : Bytes → Bool
  pub is_loopback : Bytes → Bool
  pub to4 : Bytes → Option Bytes
  pub ip_equal : Bytes → Bytes → Bool
  pub interfaces : S → (Failure ⊎ List ℕ) × S
  pub addrs_of : ℕ → S → Option (List Addr) × S
  pub syscall_conn : S → Option Failure × S
  pub control : S → (Failure ⊎ ℕ) × S
  pub setsockopt_int : ℕ → ℕ → ℕ → ℕ → S → Option Failure × S
  pub native_uint32 : Bytes → ℕ

-- syscall.IPPROTO_IP
abbrev pub ipproto_ip : ℕ
ipproto_ip = 0

-- IP_UNICAST_IF
abbrev pub ip_unicast_if : ℕ
ip_unicast_if = 31

-- binary.BigEndian.PutUint32 of uint32(x)
abbrev pub big_endian32 : ℕ → Bytes
big_endian32 x = (x / 2 ^ 24 % 256) ∷ (x / 2 ^ 16 % 256) ∷ (x / 2 ^ 8 % 256) ∷ (x % 256) ∷ []

abbrev pub is_none : {A : Type 0} → Option A → Bool
is_none none = true
is_none (some a) = false

module _ {S : Type 0} (host : Host S) where
  -- The function given to Control, with its socketErr.
  abbrev pub after_control : ℕ → (Failure ⊎ ℕ) × S → Option Failure × S
  after_control i (inl e, s) = (some e, s)
  after_control i (inr fd, s) =
      host.setsockopt_int fd ipproto_ip ip_unicast_if (host.native_uint32 (big_endian32 i)) s

  abbrev pub after_conn : ℕ → Option Failure × S → Option Failure × S
  after_conn i (some e, s) = (some e, s)
  after_conn i (none, s) = after_control i (host.control s)

  -- The interface with this index owns the address.
  abbrev pub set_interface : ℕ → S → Option Failure × S
  set_interface i s = after_conn i (host.syscall_conn s)

  -- network, ok := addr.(*net.IPNet), and network.IP.Equal(ip)
  abbrev pub is_own : Bytes → Addr → Bool
  is_own ip (ip_net b) = host.ip_equal b ip
  is_own ip (ip_addr b) = false
  is_own ip other_addr = false

  abbrev pub owns : Bytes → List Addr → Bool
  owns ip [] = false
  owns ip (a ∷ addrs) = is_own ip a || owns ip addrs

  -- The body of the loop over the interfaces.
  abbrev pub after_addrs :
      Bytes → ℕ → (S → Option Failure × S) → Option (List Addr) × S → Option Failure × S
  after_addrs ip i next (none, s) = next s
  after_addrs ip i next (some addrs, s) = if owns ip addrs then set_interface i s else next s

  unfoldable pub pin_first : Bytes → List ℕ → S → Option Failure × S
  pin_first ip [] s = (some (no_interface_owns ip), s)
  pin_first ip (i ∷ is) s = after_addrs ip i (pin_first ip is) (host.addrs_of i s)

  abbrev pub after_interfaces : Bytes → (Failure ⊎ List ℕ) × S → Option Failure × S
  after_interfaces ip (inl e, s) = (some e, s)
  after_interfaces ip (inr is, s) = pin_first ip is s

  -- The addresses that need no interface.
  abbrev pub is_exempt : Bytes → Bool
  is_exempt ip = host.is_unspecified ip || host.is_loopback ip || is_none (host.to4 ip)

  unfoldable pub pin_interface : Bytes → S → Option Failure × S
  pin_interface ip s = if is_exempt ip then (none, s) else after_interfaces ip (host.interfaces s)
