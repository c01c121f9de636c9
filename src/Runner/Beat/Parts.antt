-- ===== src/Runner/Beat/Parts.antt =====
-- What every part of a heartbeat keeps, and the exchanges and counts that its parts share.
use jlu_drcom_win.Base.{
  ℕ, ◌%◌, ◌≡◌, refl, sym, subst, ap, ◌∙◌, Bool, true, false, Option, none, some, arith, ◌||◌, ◌==◌,
  if◌then◌else◌,
}
use jlu_drcom_win.Protocol.Types.{Bytes, IsSession, ok}
use jlu_drcom_win.Protocol.Heartbeat.Packets.{build_keep_alive_auth-table}
use jlu_drcom_win.Protocol.Response.{response_matcher}
use jlu_drcom_win.Config.Types.{Config}
use jlu_drcom_win.Transport.Failure.{Phase, Failure, panicked}
use jlu_drcom_win.Runner.World.{
  Env, World, Context, session_context, build, build_pure, get_session, set_session, built, ◌>>=◌,
}
use jlu_drcom_win.Runner.Rules.{Holds, bind-Holds, Holds-weaken}
use jlu_drcom_win.Runner.Exchange.{Same, exchange-Holds}
use jlu_drcom_win.Runner.Steps.{next_count, exchange, keep_alive_auth, count_up}

-- Worlds between which heartbeats may lie: the runner's state and what it reported are unchanged,
-- and so is what the login put into the session; the session stays well formed.
pub record Kept {E : Type 0} (w v : World E) : Type 0 where
  pub state : v.state ≡ w.state
  pub reported : v.reported ≡ w.reported
  pub md5_password : v.session.md5_password ≡ w.session.md5_password
  pub indicator : v.session.server_drcom_indicator ≡ w.session.server_drcom_indicator
  pub valid : IsSession v.session

-- The count of the session after a heartbeat.
abbrev pub is_due : ℕ → Bool
is_due count = (count == 0) || (count % 21 == 0)

abbrev pub after_extra : ℕ → ℕ
after_extra count = if is_due count then next_count count else count

module _ {E : Type 0} where
  -- Kept, with a count.
  abbrev pub Counted : World E → ℕ → World E → Type 0
  Counted w count v = Kept w v × (v.session.heartbeat_count ≡ count)

  abbrev pub Failing : World E → Failure → World E → Type 0
  Failing w e v = Kept w v

  -- Kept by what changes the surroundings alone.
  pub Kept-Same : (w v u : World E) → Kept w v → Same v u → Kept w u
  Kept-Same w v u k s = record {
    state = s.state ∙ k.state;
    reported = s.reported ∙ k.reported;
    md5_password = ap (λ t. t.md5_password) s.session ∙ k.md5_password;
    indicator = ap (λ t. t.server_drcom_indicator) s.session ∙ k.indicator;
    valid = subst IsSession (sym s.session) k.valid;
  }

  pub Same-env : (v : World E) (e : E) → Same v (record v { env = e })
  Same-env v e = record { state = refl; reported = refl; session = refl }

  abbrev pub Answered : World E → World E → Bytes → Bool → Bytes → World E → Type 0
  Answered w v packet allow p u =
      Kept w u × (u.session ≡ v.session) × (response_matcher packet allow p ≡ some (ok true))

module _ {E : Type 0} (env : Env E) (md5 : Bytes → Bytes) (cfg : Config) (Crash : Type 0)
    (exchange_crash : (ctx : Context) (p : Bytes) (file : Bool) (e : E)
      → (env.exchange ctx p (response_matcher p file) e).0 ≡ panicked
      → Crash)
    (read_crash : (n : ℕ) (e : E) → env.read n e ≡ none → Crash) where
  pub sent-Holds :
      (w v : World E) (phase : Phase) (packet : Bytes) (allow : Bool)
      → Kept w v
      → Holds
          (Answered w v packet allow)
          (Failing w)
          Crash
          (exchange env md5 cfg session_context phase packet allow v)
  sent-Holds w v phase packet allow k =
      Holds-weaken _ _ (Answered w v packet allow) (Failing w) Crash _
        (exchange-Holds env md5 cfg Crash exchange_crash session_context packet allow v phase)
        (λ p u s. (Kept-Same w v u k s.0, s.0.session, s.1)) (λ e u s. Kept-Same w v u k s)

  pub keep_alive_auth-Holds :
      (w v : World E)
      → Kept w v
      → Holds
          (λ p u. Kept w u × (u.session ≡ v.session))
          (Failing w)
          Crash
          (keep_alive_auth env md5 cfg v)
  unfolding keep_alive_auth ◌>>=◌ get_session build build_pure
  keep_alive_auth-Holds w v k = rw (build_keep_alive_auth-table v.session (env.now v.env).0) (
      Holds-weaken _ _ (λ p u. Kept w u × (u.session ≡ v.session)) (Failing w) Crash _
        (sent-Holds w _ Phase.keepalive_auth _ false
          (Kept-Same w v _ k (Same-env v (env.now v.env).1)))
        (λ p u h. (h.0, h.1)) (λ e u h. h))

  pub count_up-Holds :
      (w v : World E)
      → Kept w v
      → Holds
          (λ u t. Counted w (next_count v.session.heartbeat_count) t)
          (Failing w)
          Crash
          (count_up env md5 cfg v)
  unfolding count_up ◌>>=◌ get_session set_session
  count_up-Holds w v k = (
    record {
      state = k.state;
      reported = k.reported;
      md5_password = k.md5_password;
      indicator = k.indicator;
      valid = record {
        login_salt = k.valid.login_salt;
        logout_salt = k.valid.logout_salt;
        md5_password = k.valid.md5_password;
        server_drcom_indicator = k.valid.server_drcom_indicator;
        heartbeat_token = k.valid.heartbeat_token;
        heartbeat_count = omega arith;
      };
    },
    refl,
  )

  -- An exchange whose reply is dropped, and the count behind it.
  pub exchange_count-Holds :
      (w v : World E) (phase : Phase) (packet : Bytes) (allow : Bool)
      → Kept w v
      → Holds
          (λ u t. Counted w (next_count v.session.heartbeat_count) t)
          (Failing w)
          Crash
          ((exchange env md5 cfg session_context phase packet allow >>= λ _. count_up env md5 cfg)
            v)
  exchange_count-Holds w v phase packet allow k =
      bind-Holds (Answered w v packet allow) (Failing w) _ (Failing w) Crash _ _ v
        (sent-Holds w v phase packet allow k) (λ e u h. h)
        (λ p u h.
          Holds-weaken _ _ (λ _ t. Counted w (next_count v.session.heartbeat_count) t) (Failing w)
            Crash _ (count_up-Holds w u h.0)
            (λ _ t c. (c.0, c.1 ∙ ap (λ s. next_count s.heartbeat_count) h.1)) (λ e t c. c))

  -- A builder that draws four bytes.
  pub drawing-Holds :
      (D : Bytes → World E → Type 0) (w v : World E) (b : E → Option (Bytes × E))
      → ((drawn : Bytes) (next : E)
          → env.read 4 v.env ≡ some (drawn, next)
          → (packet : Bytes) × (b v.env ≡ some (packet, next)) × D packet (record v { env = next }))
      → (env.read 4 v.env ≡ none → b v.env ≡ none)
      → Holds D (Failing w) Crash (build b v)
  unfolding build
  drawing-Holds D w v b drawn stuck = go (env.read 4 v.env) refl
    where
      go :
          (r : Option (Bytes × E))
          → env.read 4 v.env ≡ r
          → Holds D (Failing w) Crash (built v (b v.env))
      go none q = rw (stuck q) (read_crash 4 v.env q)
      go (some (bytes, next)) q = let d = drawn bytes next q in rw d.1 d.2
