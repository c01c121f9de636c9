-- ===== src/Runner/Exchange.antt =====
-- What one exchange of a runner does: it changes the surroundings alone, and a reply that it
-- returns was accepted by the matcher of the packet that it sent.
use jlu_drcom_win.Base.{◌≡◌, refl, subst, ap, ◌≢◌, Bool, true, false, Option, none, some, [], arith}
use jlu_drcom_win.Protocol.Types.{Bytes, Result, ok, err}
use jlu_drcom_win.Protocol.Response.{response_matcher}
use jlu_drcom_win.Protocol.Response.Accepts.{response_matcher_cases}
use jlu_drcom_win.Config.Types.{Config}
use jlu_drcom_win.Transport.Failure.{Phase, Outcome, done, failed, panicked}
use jlu_drcom_win.Transport.Retry.{retry_exchange}
use jlu_drcom_win.Transport.Retry.Rule.{retry_rule}
use jlu_drcom_win.Runner.World.{Env, World, Context}
use jlu_drcom_win.Runner.Rules.{Holds}
use jlu_drcom_win.Runner.Steps.{checked, received, attempt, poll_in, exchanged, exchange, one_more}

-- Worlds that differ in their surroundings at most.
pub record Same {E : Type 0} (w v : World E) : Type 0 where
  pub state : v.state ≡ w.state
  pub reported : v.reported ≡ w.reported
  pub session : v.session ≡ w.session

module _ {E : Type 0} (env : Env E) (md5 : Bytes → Bytes) (cfg : Config) (Crash : Type 0)
    (exchange_crash : (ctx : Context) (p : Bytes) (file : Bool) (e : E)
      → (env.exchange ctx p (response_matcher p file) e).0 ≡ panicked
      → Crash)
    (ctx : Context) (packet : Bytes) (allow_file : Bool) (w : World E) where
  abbrev Before : World E × Bytes → Type 0
  Before t = Same w t.0

  -- What the exchanger returned when it was called for this packet.
  abbrev pub Exchanged : Bytes → Type 0
  Exchanged p =
      (before after : E) × (env.exchange ctx packet (response_matcher packet allow_file) before
        ≡ (done p, after))

  abbrev After : Outcome (Unit {0}) × (World E × Bytes) → Type 0
  After (done u, t) =
      Same w t.0 × (response_matcher packet allow_file t.1 ≡ some (ok true)) × Exchanged t.1
  After (failed e, t) = Same w t.0
  After (panicked, t) = Crash

  checked-After :
      (v : World E) (p : Bytes) (verdict : Option (Result Bool))
      → response_matcher packet allow_file p ≡ verdict
      → verdict ≢ none
      → Same w v
      → Exchanged p
      → After (checked env md5 cfg verdict, (v, p))
  checked-After v p none q n s x = absurd (n refl)
  checked-After v p (some (err e)) q n s x = s
  checked-After v p (some (ok true)) q n s x = (s, q, x)
  checked-After v p (some (ok false)) q n s x = s

  matcher_returns : (p : Bytes) → response_matcher packet allow_file p ≢ none
  matcher_returns p = ground (arith, response_matcher_cases packet p allow_file)

  received-After :
      (v : World E) (r : Outcome Bytes × E)
      → env.exchange ctx packet (response_matcher packet allow_file) v.env ≡ r
      → Same w v
      → (r.0 ≡ panicked → Crash)
      → After (received env md5 cfg v (response_matcher packet allow_file) r)
  received-After v (done p, e) q s c =
      checked-After (record v { env = e }) p (response_matcher packet allow_file p) refl
        (matcher_returns p) (record { state = s.state; reported = s.reported; session = s.session })
        (v.env, e, q)
  received-After v (failed f, e) q s c = record {
    state = s.state;
    reported = s.reported;
    session = s.session;
  }
  received-After v (panicked, e) q s c = c refl

  attempt-After :
      (t : World E × Bytes) → Before t → After (attempt env md5 cfg ctx packet allow_file t)
  unfolding attempt
  attempt-After (v, r) s = received-After v _ refl s (exchange_crash ctx packet allow_file v.env)

  poll_in-Before : (t : World E × Bytes) → Before t → Before (poll_in env md5 cfg ctx t).1
  unfolding poll_in
  poll_in-Before (v, r) s = record { state = s.state; reported = s.reported; session = s.session }

  retried : Outcome (Unit {0}) × (World E × Bytes)
  retried =
      retry_exchange (poll_in env md5 cfg ctx) (attempt env md5 cfg ctx packet allow_file)
        (one_more cfg.retry_count) (w, [])

  retried-After : After retried
  unfolding retried
  retried-After =
      retry_rule (poll_in env md5 cfg ctx) (attempt env md5 cfg ctx packet allow_file) Before After
        (λ s e t i q. subst Before (ap (λ r. r.1) q) (poll_in-Before s i))
        (λ s t i q. subst Before (ap (λ r. r.1) q) (poll_in-Before s i))
        (λ s t i q. subst After q (attempt-After s i))
        (λ s t i q. subst After q (attempt-After s i))
        (λ s e t i q. (subst After q (attempt-After s i), subst After q (attempt-After s i)))
        (λ n e s i. i) (one_more cfg.retry_count) (w, [])
        (record { state = refl; reported = refl; session = refl })

  -- What is returned came from the exchanger, and is accepted by the matcher of the packet.
  abbrev pub Replied : Bytes → World E → Type 0
  Replied p v = Same w v × (response_matcher packet allow_file p ≡ some (ok true)) × Exchanged p

  exchanged-Holds :
      (phase : Phase) (r : Outcome (Unit {0}) × (World E × Bytes))
      → After r
      → Holds Replied (λ e v. Same w v) Crash (exchanged env md5 cfg phase r)
  exchanged-Holds phase (done u, t) h = h
  exchanged-Holds phase (failed e, t) h = h
  exchanged-Holds phase (panicked, t) h = h

  -- An exchange returns a reply only if the exchanger below it returned it for the sent packet, and
  -- the matcher of that packet accepts it. It panics only if the exchanger does. With a reply or an error, the runner's state, what it reported and
  -- the session are unchanged.
  pub exchange-Holds :
      (phase : Phase)
      → Holds Replied (λ e v. Same w v) Crash (exchange env md5 cfg ctx phase packet allow_file w)
  unfolding exchange retried
  exchange-Holds phase = exchanged-Holds phase retried retried-After
