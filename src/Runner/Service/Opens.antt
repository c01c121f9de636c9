-- ===== src/Runner/Service/Opens.antt =====
-- The default of Open in internal/runner/supervisor.go: NewTransport, on settings that Load returned.
use jlu_drcom_win.Base.{
  ℕ, ◌≤◌, ◌≡◌, ◌≢◌, sym, subst, ◌⊎◌, inl, inr, true, List, [], ◌∷◌, length, Option, none, some, pos,
  arith,
}
use jlu_drcom_win.Protocol.Types.{Bytes}
use jlu_drcom_win.Protocol.Buffer.{byte}
use jlu_drcom_win.Config.Types.{Config}
use jlu_drcom_win.Config.Validate.Bounds.{IsUsable, Within}
use jlu_drcom_win.Config.Parse.Sound.{IsReady}
use jlu_drcom_win.Config.Load.{server_udp_addr, bind_udp_addr, Packages, load, loaded, load-IsReady}
use jlu_drcom_win.Transport.Failure.{Failure}
use jlu_drcom_win.Transport.Udp.{
  Address, Opened, no_bind_address, no_server_address, bad_timeout, no_socket, not_pinned, opened,
  new_transport,
}
use jlu_drcom_win.Transport.Pin.{Host}
use jlu_drcom_win.Transport.Pin.Owner.{IsExempt, Chosen, Pinned}
use jlu_drcom_win.Transport.Pin.Opening.{listener, Opening, new_transport-Opening}

-- Four bytes that a host can have are not the unspecified address.
usable-specified :
    (v : Bytes)
    → length v ≡ 4
    → IsUsable v
    → (byte v 0 ≢ 0) ⊎ (byte v 1 ≢ 0) ⊎ (byte v 2 ≢ 0) ⊎ (byte v 3 ≢ 0)
usable-specified (a ∷ b ∷ c ∷ d ∷ []) h u = ground (arith, u)
usable-specified [] h u = absurd (omega (arith, h))
usable-specified (a ∷ []) h u = absurd (omega (arith, h))
usable-specified (a ∷ b ∷ []) h u = absurd (omega (arith, h))
usable-specified (a ∷ b ∷ c ∷ []) h u = absurd (omega (arith, h))
usable-specified (a ∷ b ∷ c ∷ d ∷ e ∷ v) h u = absurd (omega (arith, h))

module _ {S : Type 0} (host : Host S) (listen : Address → S → Option Failure × S)
    (close : S → S) where
  abbrev pub open_default : Config → S → Opened × S
  open_default c s =
      new_transport (listener host listen close) (some (bind_udp_addr c)) (some (server_udp_addr c))
        c.receive_timeout s

  -- A socket that is pinned to an interface which owns the client's address; or an error of
  -- ListenUDP; or one of pinInterface, with the socket closed.
  abbrev pub OpensReady : Config → S → Opened × S → Type 0
  OpensReady c s (opened t, v) =
      (t.server ≡ server_udp_addr c)
      × (100000000 ≤ t.timeout)
      × (t.timeout ≤ 30000000000)
      × (u w : S) × (is : List ℕ) × (listen (bind_udp_addr c) s ≡ (none, u))
      × (host.interfaces u ≡ (inr is, w))
      × Chosen host (bind_udp_addr c).ip is w (none, v)
  OpensReady c s (no_socket e, v) = listen (bind_udp_addr c) s ≡ (some e, v)
  OpensReady c s (not_pinned e, v) =
      (u w : S) × (listen (bind_udp_addr c) s ≡ (none, u))
      × Pinned host (bind_udp_addr c).ip u (some e, w)
      × (v ≡ close w)
  OpensReady c s (no_bind_address, v) = ⊥
  OpensReady c s (no_server_address, v) = ⊥
  OpensReady c s (bad_timeout, v) = ⊥

  module _
      (unspecified : (a b c d : ℕ)
        → host.is_unspecified (a ∷ b ∷ c ∷ d ∷ []) ≡ true
        → (a ≡ 0) × (b ≡ 0) × (c ≡ 0) × (d ≡ 0))
      (loopback : (a b c d : ℕ) → host.is_loopback (a ∷ b ∷ c ∷ d ∷ []) ≡ true → a ≡ 127)
      (four_bytes : (a b c d : ℕ) → host.to4 (a ∷ b ∷ c ∷ d ∷ []) ≢ none) where
    not_exempt :
        (c : Config)
        → length c.bind_ip ≡ 4
        → IsUsable c.bind_ip
        → ¬ IsExempt host (bind_udp_addr c).ip
    not_exempt c h u (inl q) =
        absurd (ground (arith, unspecified _ _ _ _ q, usable-specified c.bind_ip h u))
    not_exempt c h u (inr (inl q)) = u.0 (loopback _ _ _ _ q)
    not_exempt c h u (inr (inr q)) = four_bytes _ _ _ _ q

    chosen :
        (c : Config) (u v : S)
        → ¬ IsExempt host (bind_udp_addr c).ip
        → Pinned host (bind_udp_addr c).ip u (none, v)
        → (w : S) × (is : List ℕ) × (host.interfaces u ≡ (inr is, w))
          × Chosen host (bind_udp_addr c).ip is w (none, v)
    chosen c u v n (inl p) = absurd (n p.0)
    chosen c u v n (inr (m, inl p)) = absurd (ground (arith, p.3))
    chosen c u v n (inr (m, inr (is, w, q, inl p))) = (w, is, q, p)
    chosen c u v n (inr (m, inr (is, w, q, inr p))) = absurd (ground (arith, p.2))

    some_bind : (a b : Address) → some a ≡ some b → b ≡ a
    some_bind a b q = ground (arith, q)

    Pinned-at :
        (c : Config) (s u v : S) (t : Address) (r : Option Failure)
        → some (bind_udp_addr c) ≡ some t
        → listen t s ≡ (none, u)
        → Pinned host t.ip u (r, v)
        → (listen (bind_udp_addr c) s ≡ (none, u)) × Pinned host (bind_udp_addr c).ip u (r, v)
    Pinned-at c s u v t r q l p =
        subst (λ b. (listen b s ≡ (none, u)) × Pinned host b.ip u (r, v))
          (some_bind (bind_udp_addr c) t q) (l, p)

    Opening-OpensReady :
        (c : Config) (s : S) (r : Opened × S)
        → ¬ IsExempt host (bind_udp_addr c).ip
        → Within c.receive_timeout 100000000 30000000000
        → Opening host listen close
            (some (bind_udp_addr c))
            (some (server_udp_addr c))
            c.receive_timeout
            s
            r
        → OpensReady c s r
    Opening-OpensReady c s (no_bind_address, v) n w h = absurd (ground (arith, h.0))
    Opening-OpensReady c s (no_server_address, v) n w h = absurd (ground (arith, h.0))
    Opening-OpensReady c s (bad_timeout, v) n w h = elim h.0.1 [
      | inl q ↦ absurd (omega (arith, subst (λ x. Within x 100000000 30000000000) q w))
      | inr q ↦ absurd (omega (arith, subst (λ x. Within x 100000000 30000000000) q w))
    ]
    Opening-OpensReady c s (no_socket e, v) n w (b, q, l) =
        subst (λ a. listen a s ≡ (some e, v)) (some_bind (bind_udp_addr c) b q) l
    Opening-OpensReady c s (not_pinned e, v) n w (b, u, x, q, l, p, z) = (u, x, k.0, k.1, z)
      where
        k :
            (listen (bind_udp_addr c) s ≡ (none, u))
            × Pinned host (bind_udp_addr c).ip u (some e, x)
        k = Pinned-at c s u x b (some e) q l p
    Opening-OpensReady c s (opened t, v) n w (b, u, q, l, p, a, k, g) =
        ready (Pinned-at c s u v b none q l p)
      where
        timeout_in : Within (pos t.timeout) 100000000 30000000000
        timeout_in = subst (λ x. Within x 100000000 30000000000) k w

        ready :
            (listen (bind_udp_addr c) s ≡ (none, u)) × Pinned host (bind_udp_addr c).ip u (none, v)
            → OpensReady c s (opened t, v)
        ready (m, i) = with_chosen (chosen c u v n i)
          where
            with_chosen :
                (x : S) × (is : List ℕ) × (host.interfaces u ≡ (inr is, x))
                  × Chosen host (bind_udp_addr c).ip is x (none, v)
                → OpensReady c s (opened t, v)
            with_chosen (x, is, y, z) = (
              some_bind (server_udp_addr c) t.server a,
              omega (arith, timeout_in),
              omega (arith, timeout_in),
              u,
              x,
              is,
              m,
              y,
              z,
            )

    -- The default of Open on settings that Load returned: it never refuses its arguments, and a
    -- transport that it opens is for the server of the settings, with a timeout of 0.1 to 30 seconds,
    -- over a socket that listens at the client's address and is pinned to an interface which owns it.
    -- It fails only with an error of ListenUDP, or one of pinInterface and a closed socket. (The bind
    -- address is an array of four bytes. Of such addresses, IsUnspecified holds of 0.0.0.0 at most,
    -- IsLoopback of 127.* at most, and To4 fails on none.)
    pub open_default-OpensReady :
        (p : Packages) (file : Failure ⊎ Bytes) (c : Config) (s : S)
        → load p file ≡ loaded c
        → length c.bind_ip ≡ 4
        → OpensReady c s (open_default c s)
    open_default-OpensReady p file c s q h =
        Opening-OpensReady c s (open_default c s)
          (not_exempt c h (subst IsUsable (sym ready.valid.bind_ip) ready.valid.adapter.0))
          ready.receive_timeout
          (new_transport-Opening host listen close (some (bind_udp_addr c))
            (some (server_udp_addr c)) c.receive_timeout s)
      where
        ready : IsReady c
        ready = load-IsReady p file c q
