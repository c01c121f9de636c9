-- ===== src/Runner/Wire/Safe.antt =====
-- What a runner over UDP takes for a reply, and when it panics.
use jlu_drcom_win.Base.{ℕ, ◌<◌, ◌≡◌, ◌≢◌, refl, ap, ◌∙◌, Bool, Option, none, some, [], arith}
use jlu_drcom_win.Protocol.Types.{Bytes}
use jlu_drcom_win.Protocol.Response.{response_matcher}
use jlu_drcom_win.Protocol.Response.Accepts.{response_matcher_cases}
use jlu_drcom_win.Config.Types.{Config}
use jlu_drcom_win.Transport.Failure.{Phase, Failure, Outcome, done, panicked}
use jlu_drcom_win.Transport.Udp.{
  Address, datagram, default_receive_buffer_size, Transport, matched, after_match,
  exchange_datagrams,
}
use jlu_drcom_win.Transport.Udp.Answers.{Answered, exchange_datagrams-Answered}
use jlu_drcom_win.Transport.Udp.Ends.{exchange_datagrams-ends}
use jlu_drcom_win.Transport.Udp.Panics.{exchange_datagrams-Panicking}
use jlu_drcom_win.Runner.World.{Context, World}
use jlu_drcom_win.Runner.Rules.{Holds, Holds-weaken}
use jlu_drcom_win.Runner.Exchange.{Same, Replied, exchange-Holds}
use jlu_drcom_win.Runner.Steps.{exchange, run}
use jlu_drcom_win.Runner.Trace.{Traced, run-Traced}
use jlu_drcom_win.Runner.Wire.{ended, Machine, udp_exchange, udp_env}

ended-some : {A : Type 0} (o : Option A) (h : o ≢ none) → o ≡ some (ended o h)
ended-some none h = absurd (h refl)
ended-some (some a) h = refl

matcher-calm :
    (packet b : Bytes) (file : Bool)
    → after_match b (response_matcher packet file b) ≢ some panicked
matcher-calm packet b file = ground (arith, response_matcher_cases packet b file)

module _ {S : Type 0} (machine : Machine S) (t : Transport) (n : ℕ) (Armed : S → Type 0)
    (pending : S → ℕ)
    (arms : (ctx : Context) (d : ℕ) (s u : S)
      → (machine.socket ctx).set_deadline (some d) s ≡ (none, u)
      → Armed u)
    (falls : (ctx : Context) (s u : S) (b : Bytes) (from : Option Address)
      → Armed s
      → (machine.socket ctx).read_from default_receive_buffer_size s ≡ (datagram b from, u)
      → Armed u × (pending u < pending s))
    (few : (ctx : Context) (packet : Bytes) (s : S)
      → Armed s
      → ((machine.socket ctx).write_to packet t.server ((machine.socket ctx).watch s)).0 ≡ none
      → Armed ((machine.socket ctx).write_to packet t.server ((machine.socket ctx).watch s)).1
        × (pending ((machine.socket ctx).write_to packet t.server ((machine.socket ctx).watch s)).1
            < n)) where
  udp_exchange-some :
      (ctx : Context) (packet : Bytes) (file : Bool) (s : S)
      → exchange_datagrams (machine.socket ctx) n t packet (some (response_matcher packet file)) s
        ≡ some (
            udp_exchange machine t n Armed pending arms falls few ctx packet
              (response_matcher packet file)
              s)
  unfolding udp_exchange
  udp_exchange-some ctx packet file s =
      ended-some
        (exchange_datagrams (machine.socket ctx) n t packet (some (response_matcher packet file)) s)
        (exchange_datagrams-ends (machine.socket ctx) Armed pending (falls ctx) t
          (some (response_matcher packet file)) n packet (arms ctx) (few ctx packet) s)

  pub udp_exchange-calm :
      (ctx : Context) (packet : Bytes) (file : Bool) (s : S)
      → (udp_exchange machine t n Armed pending arms falls few ctx packet
          (response_matcher packet file)
          s).0
        ≢ panicked
  udp_exchange-calm ctx packet file s q = matcher-calm packet bad.0 file bad.1
    where
      result : Outcome Bytes × S
      result =
          udp_exchange machine t n Armed pending arms falls few ctx packet
            (response_matcher packet file) s

      bad : (b : Bytes) × (matched (some (response_matcher packet file)) b ≡ some panicked)
      bad =
          exchange_datagrams-Panicking (machine.socket ctx) t (some (response_matcher packet file))
            n packet s result.1
            (udp_exchange-some ctx packet file s ∙ ap (λ o. some (o, result.1)) q)

  module _
      (stays : (ctx : Context) (s : S) (e : Failure)
        → ((machine.socket ctx).poll s).0 ≡ some e
        → ((machine.socket ctx).poll ((machine.socket ctx).poll s).1).0 ≢ none)
      (md5 : Bytes → Bytes) (cfg : Config) where
    -- An exchange of a runner over UDP never panics, whatever the network sends. What it returns is a
    -- datagram that a read of the socket gave, from the server's address and port, and that the
    -- matcher of the sent packet accepts; with it or with an error, the runner's state, what it
    -- reported and the session are unchanged. (A socket with a
    -- deadline gives finitely many datagrams, and a context that has ended stays so.)
    pub exchange-Answered :
        (ctx : Context) (phase : Phase) (packet : Bytes) (file : Bool) (w : World S)
        → Holds
            (λ p v.
              Same w v × Answered (machine.socket ctx) t (some (response_matcher packet file)) p)
            (λ e v. Same w v)
            ⊥
            (exchange
              (udp_env machine t n Armed pending arms falls few)
              md5
              cfg
              ctx
              phase
              packet
              file
              w)
    exchange-Answered ctx phase packet file w =
        Holds-weaken
          (Replied (udp_env machine t n Armed pending arms falls few) md5 cfg ⊥
            (λ ctx packet file s. udp_exchange-calm ctx packet file s) ctx packet file w)
          (λ e v. Same w v) _ _ ⊥
          (exchange (udp_env machine t n Armed pending arms falls few) md5 cfg ctx phase packet file
            w)
          (exchange-Holds (udp_env machine t n Armed pending arms falls few) md5 cfg ⊥
            (λ ctx packet file s. udp_exchange-calm ctx packet file s) ctx packet file w phase)
          (λ p v r. (r.0, answered p r.2.0 r.2.1 r.2.2)) (λ e v s. s)
      where
        answered :
            (p : Bytes) (before after : S)
            → udp_exchange machine t n Armed pending arms falls few ctx packet
                (response_matcher packet file)
                before
              ≡ (done p, after)
            → Answered (machine.socket ctx) t (some (response_matcher packet file)) p
        answered p before after q =
            exchange_datagrams-Answered (machine.socket ctx) t (some (response_matcher packet file))
              (stays ctx) n packet before p after
              (udp_exchange-some ctx packet file before ∙ ap some q)

  -- A read of random bytes that fails.
  abbrev pub Unread : Type 0
  Unread = (k : ℕ) × (s : S) × (machine.read k s ≡ none)

  -- The Run of a new runner over UDP, whatever the network sends, for any number of rounds: it reports
  -- the states of a session (as those of Run are), and panics only if the random reader fails.
  -- (A socket with a deadline gives finitely many datagrams.)
  pub run-Wired :
      (md5 : Bytes → Bytes) (cfg : Config) (k : ℕ) (w : World S)
      → w.reported ≡ []
      → Traced
          (udp_env machine t n Armed pending arms falls few)
          md5
          cfg
          Unread
          (λ ctx packet file s q. absurd (udp_exchange-calm ctx packet file s q))
          (λ i s q. (i, s, q))
          k
          w
          (run (udp_env machine t n Armed pending arms falls few) md5 cfg k w)
  run-Wired md5 cfg k w e =
      run-Traced (udp_env machine t n Armed pending arms falls few) md5 cfg Unread
        (λ ctx packet file s q. absurd (udp_exchange-calm ctx packet file s q)) (λ i s q. (i, s, q))
        k w e
