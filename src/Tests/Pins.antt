-- ===== src/Tests/Pins.antt =====
-- Three interfaces, of which the second cannot be read and the third owns the address.
use jlu_drcom_win.Base.{
  ℕ, ◌≡◌, refl, ◌==◌, if◌then◌else◌, List, [], ◌∷◌, Option, none, some, inr, ◌+◌, ◌*◌, ◌^◌, pos,
}
use jlu_drcom_win.Protocol.Types.{Bytes}
use jlu_drcom_win.Protocol.Buffer.{byte}
use jlu_drcom_win.Config.Detect.{Addr, ip_net, ip_addr}
use jlu_drcom_win.Transport.Failure.{Failure}
use jlu_drcom_win.Transport.Udp.{Address, new_transport}
use jlu_drcom_win.Transport.Pin.{Host, pin_interface}
use jlu_drcom_win.Transport.Pin.Owner.{Pinned, pin_interface-Pinned}
use jlu_drcom_win.Transport.Pin.Opening.{listener, Opening, new_transport-Opening}

abbrev own_ip : Bytes
own_ip = 10 ∷ 1 ∷ 2 ∷ 3 ∷ []

abbrev addrs_of_index : ℕ → Option (List Addr)
addrs_of_index i =
    if i == 1
    then some (ip_net (127 ∷ 0 ∷ 0 ∷ 1 ∷ []) ∷ ip_addr own_ip ∷ [])
    else if i == 12
    then none
    else some (ip_net (192 ∷ 168 ∷ 0 ∷ 2 ∷ []) ∷ ip_net own_ip ∷ [])

-- The state is the value that the option was set to.
abbrev pub host : Host ℕ
host = record {
  is_unspecified = λ ip. byte ip 0 == 0;
  is_loopback = λ ip. byte ip 0 == 127;
  to4 = λ ip. some ip;
  ip_equal = λ a b. byte a 0 == byte b 0;
  interfaces = λ s. (inr (1 ∷ 12 ∷ 7 ∷ []), s);
  addrs_of = λ i s. (addrs_of_index i, s);
  syscall_conn = λ s. (none, s);
  control = λ s. (inr 5, s);
  setsockopt_int = λ fd level option value s. (none, value);
  native_uint32 = λ b. byte b 3 * 2 ^ 24 + byte b 2 * 2 ^ 16 + byte b 1 * 2 ^ 8 + byte b 0;
}

abbrev bind : Address
bind = record { ip = own_ip; port = 61440 }

abbrev server : Address
server = record { ip = 10 ∷ 100 ∷ 61 ∷ 3 ∷ []; port = 61440 }

abbrev pub listen : Address → ℕ → Option Failure × ℕ
listen a s = (none, s)

pinned : pin_interface host own_ip 0 ≡ (none, 7 * 2 ^ 24)
unfolding pin_interface jlu_drcom_win.Transport.Pin.pin_first
pinned = refl

pin_interface-Pinned_example : Pinned host own_ip 0 (pin_interface host own_ip 0)
pin_interface-Pinned_example = pin_interface-Pinned host own_ip 0

new_transport-Opening_example :
    Opening host listen
      (λ s. s)
      (some bind)
      (some server)
      (pos 2000000000)
      0
      (new_transport (listener host listen (λ s. s)) (some bind) (some server) (pos 2000000000) 0)
new_transport-Opening_example =
    new_transport-Opening host listen (λ s. s) (some bind) (some server) (pos 2000000000) 0
