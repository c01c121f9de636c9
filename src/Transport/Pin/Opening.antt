-- ===== src/Transport/Pin/Opening.antt =====
-- NewTransport with the pinning of its socket.
use jlu_drcom_win.Base.{
  ℕ, ◌<◌, ◌≡◌, refl, ap, ◌==◌, ℤ, pos, negsuc, Option, none, some, ◌⊎◌, inl, inr, Bool-cases, arith,
}
use jlu_drcom_win.Transport.Failure.{Failure}
use jlu_drcom_win.Transport.Udp.{
  Address, Listener, Opened, no_bind_address, no_server_address, bad_timeout, no_socket, not_pinned,
  opened, after_pin, after_listen, new_transport,
}
use jlu_drcom_win.Transport.Pin.{Host, pin_interface}
use jlu_drcom_win.Transport.Pin.Owner.{Pinned, pin_interface-Pinned}

module _ {S : Type 0} (host : Host S) (listen : Address → S → Option Failure × S)
    (close : S → S) where
  -- net.ListenUDP, pinInterface and Close.
  abbrev pub listener : Listener S
  listener = record { listen = listen; pin_interface = pin_interface host; close = close }

  -- What NewTransport has done with the socket.
  abbrev pub Opening : Option Address → Option Address → ℤ → S → Opened × S → Type 0
  Opening bind server timeout s (no_bind_address, v) = (bind ≡ none) × (v ≡ s)
  Opening bind server timeout s (no_server_address, v) = (server ≡ none) × (v ≡ s)
  Opening bind server timeout s (bad_timeout, v) =
      ((k : ℕ) × ((timeout ≡ negsuc k) ⊎ (timeout ≡ pos 0))) × (v ≡ s)
  Opening bind server timeout s (no_socket e, v) =
      (b : Address) × (bind ≡ some b) × (listen b s ≡ (some e, v))
  Opening bind server timeout s (not_pinned e, v) =
      (b : Address) × (u w : S) × (bind ≡ some b)
      × (listen b s ≡ (none, u))
      × Pinned host b.ip u (some e, w)
      × (v ≡ close w)
  Opening bind server timeout s (opened t, v) =
      (b : Address) × (u : S) × (bind ≡ some b)
      × (listen b s ≡ (none, u))
      × Pinned host b.ip u (none, v)
      × (server ≡ some t.server)
      × (timeout ≡ pos t.timeout)
      × (0 < t.timeout)

  pin-Opening :
      (b a : Address) (k : ℕ) (s u : S) (r : Option Failure × S)
      → listen b s ≡ (none, u)
      → 0 < k
      → Pinned host b.ip u r
      → Opening
          (some b)
          (some a)
          (pos k)
          s
          (after_pin listener (record { server = a; timeout = k }) r)
  pin-Opening b a k s u (none, v) q l p = (b, u, refl, q, p, refl, refl, l)
  pin-Opening b a k s u (some e, v) q l p = (b, u, v, refl, q, p, refl)

  listen-Opening :
      (b a : Address) (k : ℕ) (s : S) (r : Option Failure × S)
      → listen b s ≡ r
      → 0 < k
      → Opening
          (some b)
          (some a)
          (pos k)
          s
          (after_listen listener b (record { server = a; timeout = k }) r)
  listen-Opening b a k s (some e, u) q l = (b, refl, q)
  listen-Opening b a k s (none, u) q l =
      pin-Opening b a k s u (pin_interface host b.ip u) q l (pin_interface-Pinned host b.ip u)

  -- NewTransport, on every outcome. It opens a transport only with a positive timeout, over a socket
  -- that listens at the bind address and that pinInterface has accepted for that address. Where
  -- pinInterface fails, it returns its error and has closed the socket; where ListenUDP does, its
  -- error; and where an address is missing, or the timeout not positive, it calls nothing.
  pub new_transport-Opening :
      (bind server : Option Address) (timeout : ℤ) (s : S)
      → Opening bind server timeout s (new_transport listener bind server timeout s)
  unfolding new_transport
  new_transport-Opening none server timeout s = (refl, refl)
  new_transport-Opening (some b) none timeout s = (refl, refl)
  new_transport-Opening (some b) (some a) (negsuc k) s = ((k, inl refl), refl)
  new_transport-Opening (some b) (some a) (pos k) s = elim (Bool-cases (k == 0)) [
    | inl q ↦ rw q ((k, inr (ap pos (ground (arith, q)))), refl)
    | inr q ↦ rw q (listen-Opening b a k s (listen b s) refl (ground (arith, q)))
  ]
