-- ===== src/Transport/Pin/Owner.antt =====
-- Which interface a socket is pinned to.
use jlu_drcom_win.Base.{
  ℕ, ◌≡◌, refl, ap, true, false, Bool-cases, List, [], ◌∷◌, ◌++◌, All, Option, none, some, ◌⊎◌, inl,
  inr, arith,
}
use jlu_drcom_win.Protocol.Types.{Bytes}
use jlu_drcom_win.Config.Detect.{Addr, ip_net, ip_addr, other_addr}
use jlu_drcom_win.Transport.Failure.{Failure, no_interface_owns}
use jlu_drcom_win.Transport.Pin.{
  Host, ipproto_ip, ip_unicast_if, big_endian32, after_control, after_conn, set_interface, is_own,
  owns, after_addrs, pin_first, after_interfaces, is_exempt, pin_interface,
}

module _ {S : Type 0} (host : Host S) (ip : Bytes) where
  -- The address is the unspecified one, one of the loopback, or not of IPv4.
  abbrev pub IsExempt : Type 0
  IsExempt = (host.is_unspecified ip ≡ true) ⊎ (host.is_loopback ip ≡ true) ⊎ (host.to4 ip ≡ none)

  -- One of the addresses is a network's, with this address.
  pub record IsOwned (addrs : List Addr) : Type 0 where
    pub before : List Addr
    pub address : Bytes
    pub after : List Addr
    pub split : addrs ≡ before ++ ip_net address ∷ after
    pub equal : host.ip_equal address ip ≡ true

  abbrev pub IsForeign : Addr → Type 0
  IsForeign (ip_net b) = host.ip_equal b ip ≡ false
  IsForeign (ip_addr b) = Unit {0}
  IsForeign other_addr = Unit {0}

  -- Interfaces that are passed over: their addresses cannot be read, or none of them is this one.
  pub data Passed : List ℕ → S → S → Type 0 where
    start : (s : S) → Passed [] s s
    unread :
        {s u v : S} (i : ℕ) (is : List ℕ)
        → host.addrs_of i s ≡ (none, u)
        → Passed is u v
        → Passed (i ∷ is) s v
    foreign :
        {s u v : S} (i : ℕ) (is : List ℕ) (addrs : List Addr)
        → host.addrs_of i s ≡ (some addrs, u)
        → All IsForeign addrs
        → Passed is u v
        → Passed (i ∷ is) s v

  -- The option of the socket is set to the index, in network order; or a call before that failed.
  pub data Sets (i : ℕ) (s : S) (r : Option Failure × S) : Type 0 where
    no_conn :
        (e : Failure) (u : S) → host.syscall_conn s ≡ (some e, u) → r ≡ (some e, u) → Sets i s r
    no_descriptor :
        (e : Failure) (u v : S)
        → host.syscall_conn s ≡ (none, u)
        → host.control u ≡ (inl e, v)
        → r ≡ (some e, v)
        → Sets i s r
    asked :
        (fd : ℕ) (u v : S)
        → host.syscall_conn s ≡ (none, u)
        → host.control u ≡ (inr fd, v)
        → host.setsockopt_int fd ipproto_ip ip_unicast_if (host.native_uint32 (big_endian32 i)) v
          ≡ r
        → Sets i s r

  -- The first interface of the list that owns the address.
  pub record Chosen (is : List ℕ) (s : S) (r : Option Failure × S) : Type 0 where
    pub before : List ℕ
    pub chosen : ℕ
    pub after : List ℕ
    pub listed : is ≡ before ++ chosen ∷ after
    pub reached : S
    pub passed : Passed before s reached
    pub addrs : List Addr
    pub left : S
    pub read : host.addrs_of chosen reached ≡ (some addrs, left)
    pub owned : IsOwned addrs
    pub set : Sets chosen left r

  abbrev pub Found : List ℕ → S → Option Failure × S → Type 0
  Found is s r = Chosen is s r ⊎ ((v : S) × Passed is s v × (r ≡ (some (no_interface_owns ip), v)))

  abbrev pub Pinned : S → Option Failure × S → Type 0
  Pinned s r =
      (IsExempt × (r ≡ (none, s)))
      ⊎ ((¬ IsExempt)
          × (((e : Failure) × (u : S) × (host.interfaces s ≡ (inl e, u)) × (r ≡ (some e, u)))
              ⊎ ((is : List ℕ) × (u : S) × (host.interfaces s ≡ (inr is, u)) × Found is u r)))

  IsOwned-later : (a : Addr) (addrs : List Addr) → IsOwned addrs → IsOwned (a ∷ addrs)
  IsOwned-later a addrs o = record {
    before = a ∷ o.before;
    address = o.address;
    after = o.after;
    split = ap (λ l. a ∷ l) o.split;
    equal = o.equal;
  }

  is_own_cases :
      (a : Addr) (addrs : List Addr)
      → ((is_own host ip a ≡ true) × IsOwned (a ∷ addrs))
        ⊎ ((is_own host ip a ≡ false) × IsForeign a)
  is_own_cases (ip_net b) addrs = elim (Bool-cases (host.ip_equal b ip)) [
    | inl q ↦ inl (q, record { before = []; address = b; after = addrs; split = refl; equal = q })
    | inr q ↦ inr (q, q)
  ]
  is_own_cases (ip_addr b) addrs = inr (refl, tt)
  is_own_cases other_addr addrs = inr (refl, tt)

  owns_cases :
      (addrs : List Addr)
      → ((owns host ip addrs ≡ true) × IsOwned addrs)
        ⊎ ((owns host ip addrs ≡ false) × All IsForeign addrs)
  owns_cases [] = inr (refl, tt)
  owns_cases (a ∷ addrs) = elim (is_own_cases a addrs) [
    | inl h ↦ inl (rw h.0 refl, h.1)
    | inr h ↦ elim (owns_cases addrs) [
      | inl k ↦ inl (rw h.0 k.0, IsOwned-later a addrs k.1)
      | inr k ↦ inr (rw h.0 k.0, (h.1, k.1))
    ]
  ]

  set_interface-Sets : (i : ℕ) (s : S) → Sets i s (set_interface host i s)
  set_interface-Sets i s = at_conn (host.syscall_conn s) refl
    where
      at_control :
          (u : S) (c : (Failure ⊎ ℕ) × S)
          → host.syscall_conn s ≡ (none, u)
          → host.control u ≡ c
          → Sets i s (after_control host i c)
      at_control u (inl e, v) p q = no_descriptor e u v p q refl
      at_control u (inr fd, v) p q = asked fd u v p q refl

      at_conn : (c : Option Failure × S) → host.syscall_conn s ≡ c → Sets i s (after_conn host i c)
      at_conn (some e, u) p = no_conn e u p refl
      at_conn (none, u) p = at_control u (host.control u) p refl

  Found-passed :
      (i : ℕ) (is : List ℕ) (s u : S) (r : Option Failure × S)
      → ((before : List ℕ) (v : S) → Passed before u v → Passed (i ∷ before) s v)
      → Found is u r
      → Found (i ∷ is) s r
  Found-passed i is s u r step (inr h) = inr (h.0, step is h.0 h.1, h.2)
  Found-passed i is s u r step (inl c) = inl (record {
    before = i ∷ c.before;
    chosen = c.chosen;
    after = c.after;
    listed = ap (λ l. i ∷ l) c.listed;
    reached = c.reached;
    passed = step c.before c.reached c.passed;
    addrs = c.addrs;
    left = c.left;
    read = c.read;
    owned = c.owned;
    set = c.set;
  })

  addrs-Found :
      (i : ℕ) (is : List ℕ) (s : S) (next : S → Option Failure × S) (c : Option (List Addr) × S)
      → ((u : S) → Found is u (next u))
      → host.addrs_of i s ≡ c
      → Found (i ∷ is) s (after_addrs host ip i next c)
  addrs-Found i is s next (none, u) ih q =
      Found-passed i is s u (next u) (λ before v p. unread i before q p) (ih u)
  addrs-Found i is s next (some addrs, u) ih q = elim (owns_cases addrs) [
    | inl h ↦ rw h.0 (
        inl (record {
          before = [];
          chosen = i;
          after = is;
          listed = refl;
          reached = s;
          passed = start s;
          addrs = addrs;
          left = u;
          read = q;
          owned = h.1;
          set = set_interface-Sets i u;
        }))
    | inr h ↦
        rw h.0
          (Found-passed i is s u (next u) (λ before v p. foreign i before addrs q h.1 p) (ih u))
  ]

  pin_first-Found : (is : List ℕ) (s : S) → Found is s (pin_first host ip is s)
  unfolding pin_first
  pin_first-Found [] s = inr (s, start s, refl)
  pin_first-Found (i ∷ is) s =
      addrs-Found i is s (pin_first host ip is) (host.addrs_of i s) (pin_first-Found is) refl

  exempt_cases :
      ((is_exempt host ip ≡ true) × IsExempt) ⊎ ((is_exempt host ip ≡ false) × (¬ IsExempt))
  exempt_cases = ground arith

  -- pinInterface, on every outcome of its calls. For an address that is unspecified, of the loopback
  -- or not of IPv4 it calls nothing and succeeds. Else it fails as net.Interfaces does, or asks the
  -- socket to send through the first listed interface whose addresses can be read and contain the
  -- address, by its index in network order; or it fails where there is none.
  pub pin_interface-Pinned : (s : S) → Pinned s (pin_interface host ip s)
  unfolding pin_interface
  pin_interface-Pinned s = elim exempt_cases [
    | inl h ↦ rw h.0 (inl (h.1, refl))
    | inr h ↦ rw h.0 (inr (h.1, listed (host.interfaces s) refl))
  ]
    where
      listed :
          (c : (Failure ⊎ List ℕ) × S)
          → host.interfaces s ≡ c
          → ((e : Failure) × (u : S) × (host.interfaces s ≡ (inl e, u))
              × (after_interfaces host ip c ≡ (some e, u)))
            ⊎ ((is : List ℕ) × (u : S) × (host.interfaces s ≡ (inr is, u))
                × Found is u (after_interfaces host ip c))
      listed (inl e, u) q = inl (e, u, q, refl)
      listed (inr is, u) q = inr (is, u, q, pin_first-Found is u)
