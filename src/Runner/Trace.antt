-- ===== src/Runner/Trace.antt =====
-- The states that one session reports, from New to the end of Run.
pub mod States
use jlu_drcom_win.Base.{
  ℕ, ◌<◌, ◌≡◌, refl, sym, ap, subst, ◌∙◌, inl, inr, Bool, true, false, Option, none, some, List, [],
  ◌∷◌, ◌++◌, append-nil, replicate, pos, ltb_ℤ, Bool-cases,
}
use jlu_drcom_win.Protocol.Types.{Bytes, Session, IsSession}
use jlu_drcom_win.Protocol.Response.{response_matcher}
use jlu_drcom_win.Config.Types.{Config}
use jlu_drcom_win.Transport.Failure.{Failure, bad_interval, Outcome, done, failed, panicked}
use jlu_drcom_win.Runner.World.{
  State, login_challenge, logging_in, online, failing, logging_out, stopped, Env, World, Context,
  session_context,
}
use jlu_drcom_win.Runner.Rules.{Holds}
use jlu_drcom_win.Runner.Steps.{
  Finish, finished, running, crashed, rounds, logout, after_logout, log_out_if_done, deferred,
  login, after_login, run,
}
use jlu_drcom_win.Runner.Login.{GotSalt, GotNoSalt, LoginFailed, LoggedIn, login-Holds}
use jlu_drcom_win.Runner.Logout.{LogoutFailed, LoggedOut, logout-Holds}
use jlu_drcom_win.Runner.Rounds.{Beats, Ended, Ran, rounds-Ran}

-- The logout at the end: not tried, tried, or done.
pub data Farewell : Type 0 where
  untried tried parted : Farewell

abbrev pub farewell : Farewell → List State
farewell untried = []
farewell tried = logging_out ∷ []
farewell parted = logging_out ∷ stopped ∷ []

module _ {E : Type 0} (env : Env E) (md5 : Bytes → Bytes) (cfg : Config) (Crash : Type 0)
    (exchange_crash : (ctx : Context) (p : Bytes) (file : Bool) (e : E)
      → (env.exchange ctx p (response_matcher p file) e).0 ≡ panicked
      → Crash)
    (read_crash : (n : ℕ) (e : E) → env.read n e ≡ none → Crash) where
  -- A login that succeeded, and the loop after it, up to the end of it.
  pub record IsServed (n : ℕ) (w : World E) (e : Failure) (x : World E) : Type 0 where
    pub session : Session
    pub entered : World E
    pub logged_in : login env md5 cfg w ≡ (done session, entered)
    pub count : ℕ
    pub fewer : count < n
    pub last : World E
    pub beats :
        Beats env md5 cfg Crash exchange_crash read_crash count
          (record entered { session = session })
          last
    pub ended :
        Ended env md5 cfg Crash exchange_crash read_crash
          (login_challenge ∷ logging_in ∷ [])
          count
          last
          e
          x
    pub valid : IsSession x.session

  -- The deferred logout: not tried, where the context has not ended; failed; or done.
  pub data Parting (x v : World E) : Farewell → Type 0 where
    not_due : (env.poll session_context x.env).0 ≡ none → Parting x v untried
    failed_logout :
        (f g : Failure) (t : E)
        → env.poll session_context x.env ≡ (some f, t)
        → logout env md5 cfg (record x { env = t }) ≡ (failed g, v)
        → Parting x v tried
    done_logout :
        (f : Failure) (t : E)
        → env.poll session_context x.env ≡ (some f, t)
        → logout env md5 cfg (record x { env = t }) ≡ (done tt, v)
        → Parting x v parted

  -- How a session from a world has ended: with its error, and what it has reported.
  pub data Story (n : ℕ) (w : World E) (e : Failure) (v : World E) : Type 0 where
    never_began :
        ltb_ℤ (pos 0) cfg.heartbeat_interval ≡ false
        → e ≡ bad_interval
        → v.reported ≡ []
        → Story n w e v
    no_salt :
        (u : World E)
        → ltb_ℤ (pos 0) cfg.heartbeat_interval ≡ true
        → login env md5 cfg w ≡ (failed e, u)
        → GotNoSalt env md5 cfg Crash exchange_crash read_crash w e u
        → v.reported ≡ login_challenge ∷ failing ∷ []
        → Story n w e v
    no_session :
        (u t : World E) (salt : Bytes)
        → ltb_ℤ (pos 0) cfg.heartbeat_interval ≡ true
        → login env md5 cfg w ≡ (failed e, u)
        → GotSalt env md5 cfg Crash exchange_crash read_crash w salt t
        → v.reported ≡ login_challenge ∷ logging_in ∷ failing ∷ []
        → Story n w e v
    had_session :
        (x : World E) (out : Farewell)
        → ltb_ℤ (pos 0) cfg.heartbeat_interval ≡ true
        → IsServed n w e x
        → Parting x v out
        → v.reported ≡ x.reported ++ farewell out
        → Story n w e v

  -- A session that runs: the login, and n heartbeats.
  pub record IsRunning (n : ℕ) (w v : World E) : Type 0 where
    pub positive : ltb_ℤ (pos 0) cfg.heartbeat_interval ≡ true
    pub session : Session
    pub entered : World E
    pub logged_in : login env md5 cfg w ≡ (done session, entered)
    pub beats :
        Beats env md5 cfg Crash exchange_crash read_crash n (record entered { session = session }) v
    pub reported : v.reported ≡ login_challenge ∷ logging_in ∷ replicate n online

  abbrev pub Traced : ℕ → World E → Finish × World E → Type 0
  Traced n w (running, v) = IsRunning n w v
  Traced n w (finished e, v) = Story n w e v
  Traced n w (crashed, v) = Crash

  module _ (n : ℕ) (w : World E) (positive : ltb_ℤ (pos 0) cfg.heartbeat_interval ≡ true) where
    after_logout-Traced :
        (e f : Failure) (x : World E) (t : E) (r : Outcome (Unit {0}) × World E)
        → IsServed n w e x
        → env.poll session_context x.env ≡ (some f, t)
        → logout env md5 cfg (record x { env = t }) ≡ r
        → Holds
            (LoggedOut env md5 cfg Crash exchange_crash read_crash (record x { env = t }))
            (LogoutFailed env md5 cfg Crash exchange_crash read_crash (record x { env = t }))
            Crash
            r
        → Traced n w (after_logout env md5 cfg (finished e) r)
    after_logout-Traced e f x t (done u, v) s p q h =
        had_session x parted positive s (done_logout f t p q) h.1.reported
    after_logout-Traced e f x t (failed g, v) s p q h =
        had_session x tried positive s (failed_logout f g t p q) h.1.reported
    after_logout-Traced e f x t (panicked, v) s p q h = h

    ended-Traced :
        (e : Failure) (x : World E) (r : Option Failure × E)
        → IsServed n w e x
        → env.poll session_context x.env ≡ r
        → Traced n w (log_out_if_done env md5 cfg (finished e) x r)
    ended-Traced e x (none, t) s q =
        had_session x untried positive s (not_due (ap (λ r. r.0) q)) (sym (append-nil x.reported))
    ended-Traced e x (some f, t) s q =
        after_logout-Traced e f x t (logout env md5 cfg (record x { env = t })) s q refl
          (logout-Holds env md5 cfg Crash exchange_crash read_crash (record x { env = t }) s.valid)

    crashed-Traced :
        (x : World E) (r : Option Failure × E)
        → Crash
        → Traced n w (log_out_if_done env md5 cfg crashed x r)
    crashed-Traced x (none, t) h = h
    crashed-Traced x (some f, t) h = at_logout (logout env md5 cfg (record x { env = t }))
      where
        at_logout :
            (r : Outcome (Unit {0}) × World E) → Traced n w (after_logout env md5 cfg crashed r)
        at_logout (done u, v) = h
        at_logout (failed e, v) = h
        at_logout (panicked, v) = h

    deferred-Traced :
        (s : Session) (u : World E) (count : ℕ) (r : Finish × World E)
        → login env md5 cfg w ≡ (done s, u)
        → Ran env md5 cfg Crash exchange_crash read_crash n
            (record u { session = s })
            (login_challenge ∷ logging_in ∷ [])
            count
            r
        → Traced n w (deferred env md5 cfg r)
    deferred-Traced s u count (running, v) q h = record {
      positive = positive;
      session = s;
      entered = u;
      logged_in = q;
      beats = h.3;
      reported = h.0;
    }
    deferred-Traced s u count (crashed, v) q h = crashed-Traced v (env.poll session_context v.env) h
    deferred-Traced s u count (finished e, v) q (k, t, l, b, d, i) =
        ended-Traced e v (env.poll session_context v.env)
          (record {
            session = s;
            entered = u;
            logged_in = q;
            count = k;
            fewer = l;
            last = t;
            beats = b;
            ended = d;
            valid = i;
          })
          refl

    login-Traced :
        (r : Outcome Session × World E)
        → w.reported ≡ []
        → login env md5 cfg w ≡ r
        → Holds
            (LoggedIn env md5 cfg Crash exchange_crash read_crash w)
            (LoginFailed env md5 cfg Crash exchange_crash read_crash w)
            Crash
            r
        → Traced n w (after_login env md5 cfg n r)
    login-Traced (panicked, v) e q h = h
    login-Traced (failed f, v) e q (inl h) =
        no_salt v positive q h.0
          (ap (λ l. l ++ failing ∷ []) (h.1.reported ∙ ap (λ l. l ++ login_challenge ∷ []) e))
    login-Traced (failed f, v) e q (inr (salt, t, g, x, h)) = no_session v t salt positive q g (
        ap (λ l. l ++ failing ∷ [])
          (h.reported ∙ ap (λ l. l ++ login_challenge ∷ logging_in ∷ []) e))
    login-Traced (done s, v) e q h =
        deferred-Traced s v s.heartbeat_count (rounds env md5 cfg n (record v { session = s })) q (
          subst
            (λ l.
              Ran env md5 cfg Crash exchange_crash read_crash n (record v { session = s }) l
                s.heartbeat_count (rounds env md5 cfg n (record v { session = s })))
            (h.0.reported ∙ ap (λ l. l ++ login_challenge ∷ logging_in ∷ []) e)
            (rounds-Ran env md5 cfg Crash exchange_crash read_crash n (record v { session = s })
              h.1.0))

  -- The Run of a new runner, for any number of rounds. Where the interval is not positive it ends at
  -- once with that error, and has reported nothing. Else it logs in. Where that fails it ends with its
  -- error, and has reported LoginChallenge, and LoggingIn exactly if there was a salt, and Failed. Where
  -- it succeeds, LoginChallenge, LoggingIn and Online for each heartbeat that succeeded are reported. A
  -- session that runs has had as many as the rounds, each with a timer that ran out. One that ends does
  -- so with the error of a heartbeat that failed, and then Failed is reported, or with that of the
  -- context, which ended before a timer. A logout is then tried exactly if the context has ended: it
  -- reports LoggingOut, and Stopped exactly if it succeeds. Run panics only if the exchanger or the
  -- random reader does.
  pub run-Traced : (n : ℕ) (w : World E) → w.reported ≡ [] → Traced n w (run env md5 cfg n w)
  unfolding run
  run-Traced n w e = elim (Bool-cases (ltb_ℤ (pos 0) cfg.heartbeat_interval)) [
    | inl q ↦ rw q (
        login-Traced n w q (login env md5 cfg w) e refl
          (login-Holds env md5 cfg Crash exchange_crash read_crash w))
    | inr q ↦ rw q (never_began q refl e)
  ]
