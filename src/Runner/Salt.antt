-- ===== src/Runner/Salt.antt =====
-- A challenge and its salt, which a login and a logout begin with.
use jlu_drcom_win.Base.{
  ℕ, ◌≡◌, ◌≢◌, ◌⊎◌, inl, inr, refl, sym, ap, subst, ◌∙◌, Option, none, some, Bool, false, arith,
  length,
}
use jlu_drcom_win.Protocol.Types.{Bytes, Error, Result, ok, err}
use jlu_drcom_win.Protocol.Buffer.{length-slice}
use jlu_drcom_win.Protocol.Challenge.{build_login_challenge, build_logout_challenge}
use jlu_drcom_win.Protocol.Challenge.Packets.{build_challenge-table}
use jlu_drcom_win.Protocol.Challenge.Replies.{SaltOutcome}
use jlu_drcom_win.Protocol.Response.{response_matcher}
use jlu_drcom_win.Config.Types.{Config}
use jlu_drcom_win.Transport.Failure.{Phase, Failure, parse, Outcome, done, failed, panicked}
use jlu_drcom_win.Runner.World.{Env, World, Act, Context, build, built, parsed, ◌>>=◌}
use jlu_drcom_win.Runner.Rules.{
  Holds, bind-Holds, build-Holds, Holds-weaken, Holds-and, Holds-self, parsed-Holds-self,
}
use jlu_drcom_win.Runner.Exchange.{Same, exchange-Holds}
use jlu_drcom_win.Runner.Steps.{exchange}

module _ {E : Type 0} where
  pub Same-refl : (w : World E) → Same w w
  Same-refl w = record { state = refl; reported = refl; session = refl }

  pub Same-trans : (w v u : World E) → Same w v → Same v u → Same w u
  Same-trans w v u s r = record {
    state = r.state ∙ s.state;
    reported = r.reported ∙ s.reported;
    session = r.session ∙ s.session;
  }

-- The challenge builders panic only if the random reader fails.
pub challenge_drawn :
    {E : Type 0} (version : Bytes) (read : ℕ → E → Option (Bytes × E)) (rng : E)
    → (build_login_challenge version read rng ≢ none)
        × (build_logout_challenge version read rng ≢ none)
      ⊎ (read 2 rng ≡ none)
challenge_drawn {E} version read rng = at_read (read 2 rng) refl
  where
    at_read :
        (r : Option (Bytes × E))
        → read 2 rng ≡ r
        → (build_login_challenge version read rng ≢ none)
            × (build_logout_challenge version read rng ≢ none)
          ⊎ (read 2 rng ≡ none)
    at_read none e = inr e
    at_read (some (drawn, next)) e = inl (
      subst (λ o. o ≢ none) (sym (build_challenge-table version read rng next drawn e).0)
          (ground arith),
      subst (λ o. o ≢ none) (sym (build_challenge-table version read rng next drawn e).1)
          (ground arith),
    )

module _ {E : Type 0} (env : Env E) (md5 : Bytes → Bytes) (cfg : Config) (Crash : Type 0)
    (exchange_crash : (ctx : Context) (p : Bytes) (file : Bool) (e : E)
      → (env.exchange ctx p (response_matcher p file) e).0 ≡ panicked
      → Crash) where
  abbrev pub HasSalt : World E → Bytes → World E → Type 0
  HasSalt w salt v = Same w v × (length salt ≡ 4)

  module _ (ctx : Context) (phase : Phase) (builder : E → Option (Bytes × E))
      (parser : Bytes → Option (Result Bytes)) where
    -- A challenge that was built, an exchange that returned a reply, and the parser's salt.
    pub record Salted (w : World E) (salt : Bytes) (v : World E) : Type 0 where
      pub packet : Bytes
      pub start : World E
      pub reply : Bytes
      pub built : build builder w ≡ (done packet, start)
      pub replied : exchange env md5 cfg ctx phase packet false start ≡ (done reply, v)
      pub accepted : parser reply ≡ some (ok salt)

    -- A challenge that was built, and an exchange that failed or a reply that the parser refused.
    pub data Unsalted (w : World E) (e : Failure) (v : World E) : Type 0 where
      unanswered :
          (packet : Bytes) (start : World E)
          → build builder w ≡ (done packet, start)
          → exchange env md5 cfg ctx phase packet false start ≡ (failed e, v)
          → Unsalted w e v
      refused :
          (packet reply : Bytes) (start : World E) (x : Error)
          → build builder w ≡ (done packet, start)
          → exchange env md5 cfg ctx phase packet false start ≡ (done reply, v)
          → parser reply ≡ some (err x)
          → e ≡ parse x
          → Unsalted w e v

  parsed-HasSalt :
      (subtype : ℕ) (p : Bytes) (r : Option (Result Bytes)) (w v : World E)
      → SaltOutcome subtype p r
      → Same w v
      → Holds (HasSalt w) (λ e u. Same w u) Crash (parsed r v)
  unfolding parsed
  parsed-HasSalt subtype p r w v o s = elim o [
    | inl h ↦ rw h.1 (s, length-slice 4 8 p (omega arith) h.0.0)
    | inr (inl h) ↦ rw h.1 s
    | inr (inr h) ↦ rw h.2 s
  ]

  moved :
      {A : Type 0} (o : Outcome A) (m : Outcome A × World E) (v u : World E)
      → m ≡ (o, v)
      → v ≡ u
      → m ≡ (o, u)
  moved o m v u p q = p ∙ ap (λ x. (o, x)) q

  -- The rule of the packet, the exchange and the parser, with what follows them.
  pub salt_rule :
      {B : Type 0} (D : B → World E → Type 0) (F : Failure → World E → Type 0) (ctx : Context)
      (phase : Phase) (builder : E → Option (Bytes × E)) (subtype : ℕ)
      (parser : Bytes → Option (Result Bytes)) (k : Bytes → Act E B)
      → ((p : Bytes) → SaltOutcome subtype p (parser p))
      → (w : World E) → (builder w.env ≡ none → Crash)
      → ((e : Failure) (v : World E) → Unsalted ctx phase builder parser w e v → Same w v → F e v)
      → ((salt : Bytes) (v : World E)
          → Salted ctx phase builder parser w salt v
          → HasSalt w salt v
          → Holds D F Crash (k salt v))
      → Holds D F Crash (
          (build builder >>= λ packet.
          exchange env md5 cfg ctx phase packet false >>= λ p. parsed (parser p) >>= k)
            w)
  unfolding build
  salt_rule D F ctx phase builder subtype parser k o w c fails then =
      bind-Holds (λ p v. (build builder w ≡ (done p, v)) × Same w v) (λ e v. ⊥) D F Crash _ _ w
        (build-Holds (λ p v. (build builder w ≡ (done p, v)) × Same w v) (λ e v. ⊥) Crash builder w
          (λ p e q. (ap (built w) q, record { state = refl; reported = refl; session = refl })) c)
        (λ e v h. absurd h)
        (λ packet v s.
          bind-Holds
            (λ p u. (exchange env md5 cfg ctx phase packet false v ≡ (done p, u)) × Same w u)
            (λ e u. (exchange env md5 cfg ctx phase packet false v ≡ (failed e, u)) × Same w u) D F
            Crash _ _ v
            (Holds-and _ _ (λ p u. Same w u) (λ e u. Same w u) Crash _
              (Holds-self (exchange env md5 cfg ctx phase packet false v))
              (Holds-weaken _ _ (λ p u. Same w u) (λ e u. Same w u) Crash _
                (exchange-Holds env md5 cfg Crash exchange_crash ctx packet false v phase)
                (λ p u h. Same-trans w v u s.1 h.0) (λ e u h. Same-trans w v u s.1 h)))
            (λ e u h. fails e u (unanswered packet v s.0 h.0) h.1)
            (λ p u h.
              bind-Holds (λ salt t. ((parser p ≡ some (ok salt)) × (u ≡ t)) × HasSalt w salt t)
                (λ e t.
                  ((x : Error) × (parser p ≡ some (err x)) × (e ≡ parse x) × (u ≡ t)) × Same w t)
                D F Crash _ _ u
                (Holds-and _ _ (HasSalt w) (λ e t. Same w t) Crash _
                  (parsed-Holds-self (parser p) u)
                  (parsed-HasSalt subtype p (parser p) w u (o p) h.1))
                (λ e t g.
                  fails e t
                    (refused packet p v g.0.0 s.0 (moved (done p) _ u t h.0 g.0.3) g.0.1 g.0.2) g.1)
                (λ salt t g.
                  then salt t
                    (record {
                      packet = packet;
                      start = v;
                      reply = p;
                      built = s.0;
                      replied = moved (done p) _ u t h.0 g.0.1;
                      accepted = g.0.0;
                    })
                    g.1)))
