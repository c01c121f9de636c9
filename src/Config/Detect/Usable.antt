-- ===== src/Config/Detect/Usable.antt =====
-- A detected address is one that Validate accepts.
use jlu_drcom_win.Base.{
  ℕ, ◌≡◌, inl, inr, sym, subst, ◌∙◌, true, false, ltb, List, [], ◌∷◌, Option, none, some, All,
  length, length-take, take, arith,
}
use jlu_drcom_win.Protocol.Types.{Bytes}
use jlu_drcom_win.Config.Types.{NetworkInfo}
use jlu_drcom_win.Config.Validate.{usable_ipv4, is_zero_mac}
use jlu_drcom_win.Config.Select.{Text, Candidate, score, Found, nothing, found, conclude}
use jlu_drcom_win.Config.Select.Best.{Any, IsBest}
use jlu_drcom_win.Config.Select.Chosen.{Concluded, select_auto_network-Concluded}
use jlu_drcom_win.Config.Detect.{
  Addr, Interface, ipv4_from_addr, append_ip, of_addrs, of_interface, candidates_of,
  auto_detect_network,
}

abbrev IsFit : Candidate → Type 0
IsFit c = (usable_ipv4 c.ip ≡ true) × (length c.mac ≡ 6)

take_six : (b : Bytes) → ltb (length b) 6 ≡ false → length (take 6 b) ≡ 6
take_six b l = ground (arith, length-take 6 b)

module _ (to4 : Bytes → Option Bytes) where
  append-IsFit :
      (i : Interface) (o : Option Bytes) (rest : List Candidate)
      → All IsFit rest
      → All IsFit (append_ip to4 i o rest)
  append-IsFit i none rest h = h
  append-IsFit i (some ip) rest h = ground (arith, take_six i.hardware_addr)

  addrs-IsFit :
      (i : Interface) (addrs : List Addr) (rest : List Candidate)
      → All IsFit rest
      → All IsFit (of_addrs to4 i addrs rest)
  addrs-IsFit i [] rest h = h
  addrs-IsFit i (a ∷ addrs) rest h =
      append-IsFit i (ipv4_from_addr to4 a) (of_addrs to4 i addrs rest) (addrs-IsFit i addrs rest h)

  interface-IsFit :
      (i : Interface) (addrs : Option (List Addr)) (rest : List Candidate)
      → All IsFit rest
      → All IsFit (of_interface to4 i addrs rest)
  interface-IsFit i none rest h = h
  interface-IsFit i (some addrs) rest h = addrs-IsFit i addrs rest h

  candidates-IsFit : (is : List Interface) → All IsFit (candidates_of to4 is)
  unfolding candidates_of
  candidates-IsFit [] = tt
  candidates-IsFit (i ∷ is) = interface-IsFit i i.addrs (candidates_of to4 is) (candidates-IsFit is)

listed-IsFit : (b : Candidate) (cs : List Candidate) → All IsFit cs → Any (λ c. c ≡ b) cs → IsFit b
listed-IsFit b [] h m = absurd m
listed-IsFit b (c ∷ cs) h (inl e) = subst IsFit e h.0
listed-IsFit b (c ∷ cs) h (inr m) = listed-IsFit b cs h.1 m

-- A candidate with a score has a hardware address.
score-mac :
    (text : Text) (hint : Bytes) (c : Candidate) (t : ℕ)
    → score text hint c ≡ some t
    → is_zero_mac c.mac ≡ false
unfolding score
score-mac text hint c t e = ground (arith, e)

abbrev pub IsUsable : NetworkInfo → Type 0
IsUsable info =
    (usable_ipv4 info.ip ≡ true) × (length info.mac ≡ 6) × (is_zero_mac info.mac ≡ false)

found-IsUsable :
    (text : Text) (hint : Bytes) (cs : List Candidate) (f : Found) (info : NetworkInfo)
    → All IsFit cs
    → IsBest (score text hint) f cs
    → conclude f ≡ inl info
    → IsUsable info
found-IsUsable text hint cs nothing info h b q = ground (arith, q)
found-IsUsable text hint cs (found c t true) info h b q = ground (arith, q)
found-IsUsable text hint cs (found c t false) info h b q =
    ground (arith, q, listed-IsFit c cs h b.listed, score-mac text hint c t b.scores)

-- What is detected can be used: the address is one that Validate accepts, and the hardware address
-- has six bytes, not all of them zero.
pub auto_detect_network-IsUsable :
    (to4 : Bytes → Option Bytes) (text : Text) (interfaces : Option (List Interface)) (hint : Bytes)
    (info : NetworkInfo)
    → auto_detect_network to4 text interfaces hint ≡ inl info
    → IsUsable info
unfolding auto_detect_network
auto_detect_network-IsUsable to4 text none hint info q = ground (arith, q)
auto_detect_network-IsUsable to4 text (some interfaces) hint info q =
    from_choice (select_auto_network-Concluded text (candidates_of to4 interfaces) hint)
  where
    from_choice : Concluded text (candidates_of to4 interfaces) hint → IsUsable info
    from_choice c =
        found-IsUsable text (text.lower (text.trim hint)) (candidates_of to4 interfaces) c.best info
          (candidates-IsFit to4 interfaces) c.is_best (sym c.result ∙ q)
