-- ===== src/Runner/Rounds.antt =====
-- The loop of Runner.Run: the states that it reports and the count of the session, for any number
-- of rounds.
use jlu_drcom_win.Base.{
  ℕ, zero, suc, ◌<◌, ◌≡◌, refl, sym, subst, ap, ◌∙◌, ◌⊎◌, inl, inr, Bool, Option, none, some, List,
  [], ◌∷◌, ◌++◌, arith, replicate, append_assoc, append-nil,
}
use jlu_drcom_win.Protocol.Types.{Bytes, IsSession}
use jlu_drcom_win.Protocol.Response.{response_matcher}
use jlu_drcom_win.Config.Types.{Config}
use jlu_drcom_win.Transport.Failure.{Failure, Outcome, done, failed, panicked}
use jlu_drcom_win.Runner.World.{State, online, failing, Env, World, Context}
use jlu_drcom_win.Runner.Rules.{Holds}
use jlu_drcom_win.Runner.Steps.{
  next_count, Finish, finished, running, crashed, heartbeat_once, mark, after_timer, after_beat,
  rounds,
}
use jlu_drcom_win.Runner.Beat.Parts.{after_extra, Counted, Failing}
use jlu_drcom_win.Runner.Beat.{heartbeat_once-Holds}

-- The count after a heartbeat, and after so many.
abbrev pub beat : ℕ → ℕ
beat count = next_count (next_count (after_extra count))

abbrev pub beats : ℕ → ℕ → ℕ
beats zero count = count
beats (suc n) count = beats n (beat count)

module _ {E : Type 0} (env : Env E) (md5 : Bytes → Bytes) (cfg : Config) (Crash : Type 0)
    (exchange_crash : (ctx : Context) (p : Bytes) (file : Bool) (e : E)
      → (env.exchange ctx p (response_matcher p file) e).0 ≡ panicked
      → Crash)
    (read_crash : (n : ℕ) (e : E) → env.read n e ≡ none → Crash) where
  -- So many heartbeats that succeeded, each of which was reported as Online and followed by a timer
  -- that ran out.
  pub data Beats : ℕ → World E → World E → Type 0 where
    no_beat : (w : World E) → Beats 0 w w
    one_beat :
        (k : ℕ) (w u v : World E) (e : E)
        → heartbeat_once env md5 cfg w ≡ (done tt, u)
        → env.timer cfg.heartbeat_interval u.env ≡ (none, e)
        → Beats k (record u { env = e; state = online; reported = u.reported ++ online ∷ [] }) v
        → Beats (suc k) w v

  -- How the loop ends after k such heartbeats, and what has been reported after a list of states: the
  -- next heartbeat fails, and its error is returned; or it succeeds, and the context ends before the
  -- timer.
  abbrev pub Ended : List State → ℕ → World E → Failure → World E → Type 0
  Ended before k t e v =
      ((u : World E) × (heartbeat_once env md5 cfg t ≡ (failed e, u))
        × (v.reported ≡ before ++ (replicate k online ++ failing ∷ [])))
      ⊎ ((u : World E) × (heartbeat_once env md5 cfg t ≡ (done tt, u))
          × ((env.timer cfg.heartbeat_interval u.env).0 ≡ some e)
          × (v.reported ≡ before ++ replicate (suc k) online))

  -- From a world, a list of reported states and a count: every round of a loop that runs was such a
  -- heartbeat; one that ended had some such rounds, and then a last one.
  abbrev pub Ran : ℕ → World E → List State → ℕ → Finish × World E → Type 0
  Ran n w before count (running, v) =
      (v.reported ≡ before ++ replicate n online)
      × (v.session.heartbeat_count ≡ beats n count)
      × IsSession v.session
      × Beats n w v
  Ran n w before count (finished e, v) =
      (k : ℕ) × (t : World E) × (k < n) × Beats k w t × Ended before k t e v × IsSession v.session
  Ran n w before count (crashed, v) = Crash

  module _ (n : ℕ) (w u : World E) (x : E) (before : List State) (count : ℕ)
      (h : heartbeat_once env md5 cfg w ≡ (done tt, u))
      (out : env.timer cfg.heartbeat_interval u.env ≡ (none, x)) where
    -- The world after such a round.
    abbrev next : World E
    next = record u { env = x; state = online; reported = u.reported ++ online ∷ [] }

    ended_round :
        (k : ℕ) (t : World E) (e : Failure) (v : World E)
        → Ended (before ++ online ∷ []) k t e v
        → Ended before (suc k) t e v
    ended_round k t e v (inl (y, p, q)) =
        inl (y, p, q ∙ append_assoc before (online ∷ []) (replicate k online ++ failing ∷ []))
    ended_round k t e v (inr (y, p, o, q)) =
        inr (y, p, o, q ∙ append_assoc before (online ∷ []) (replicate (suc k) online))

    one_round :
        (r : Finish × World E)
        → Ran n next (before ++ online ∷ []) (beat count) r
        → Ran (suc n) w before count r
    one_round (running, v) (q, c, s, b) = (
      q ∙ append_assoc before (online ∷ []) (replicate n online),
      c,
      s,
      one_beat n w u v x h out b,
    )
    one_round (finished e, v) (k, t, l, b, d, s) =
        (suc k, t, omega (arith, l), one_beat k w u t x h out b, ended_round k t e v d, s)
    one_round (crashed, v) c = c

  module _ (n : ℕ) (w : World E) (again : World E → Finish × World E)
      (ih : (v : World E)
        → IsSession v.session
        → Ran n v v.reported v.session.heartbeat_count (again v)) where
    after_timer-Ran :
        (u : World E)
        → heartbeat_once env md5 cfg w ≡ (done tt, u)
        → Counted w (beat w.session.heartbeat_count) u
        → (t : Option Failure × E) → env.timer cfg.heartbeat_interval u.env ≡ t
        → Ran
            (suc n)
            w
            w.reported
            w.session.heartbeat_count
            (after_timer env md5 cfg again (mark env md5 cfg online u) t)
    after_timer-Ran u h c (some e, s) q = (
      0,
      w,
      omega arith,
      no_beat w,
      inr (u, h, ap (λ x. x.0) q, ap (λ l. l ++ online ∷ []) c.0.reported),
      c.0.valid,
    )
    after_timer-Ran u h c (none, s) q =
        one_round n w u s w.reported w.session.heartbeat_count h q (again v) (
          subst (λ l. Ran n v l (beat w.session.heartbeat_count) (again v))
            (ap (λ l. l ++ online ∷ []) c.0.reported)
            (subst (λ m. Ran n v v.reported m (again v)) c.1 (ih v c.0.valid)))
      where
        v : World E
        v = record (mark env md5 cfg online u) { env = s }

    after_beat-Ran :
        (r : Outcome (Unit {0}) × World E)
        → heartbeat_once env md5 cfg w ≡ r
        → Holds (λ u t. Counted w (beat w.session.heartbeat_count) t) (Failing w) Crash r
        → Ran (suc n) w w.reported w.session.heartbeat_count (after_beat env md5 cfg again r)
    after_beat-Ran (done x, u) q c =
        after_timer-Ran u q c (env.timer cfg.heartbeat_interval u.env) refl
    after_beat-Ran (failed e, u) q k =
        (0, w, omega arith, no_beat w, inl (u, q, ap (λ l. l ++ failing ∷ []) k.reported), k.valid)
    after_beat-Ran (panicked, u) q h = h

  -- The loop of Run, from a well-formed session, for any number of rounds. While it runs, every round
  -- was a heartbeat that succeeded and a timer that ran out; it reported Online once in each, and the
  -- session's count is that of so many heartbeats, each of two, and one more at zero and at multiples
  -- of 21. It ends after fewer such rounds than it was given: with the error of a heartbeat that failed,
  -- when Failed is reported after Online for each round before; or with the error of the context, which
  -- ended before the timer, when Online is reported for the last heartbeat too, and nothing else. The
  -- session is well formed in both cases. It panics only if the exchanger or the random reader does.
  pub rounds-Ran :
      (n : ℕ) (w : World E)
      → IsSession w.session
      → Ran n w w.reported w.session.heartbeat_count (rounds env md5 cfg n w)
  unfolding rounds
  rounds-Ran zero w s = (sym (append-nil w.reported), refl, s, no_beat w)
  rounds-Ran (suc n) w s =
      after_beat-Ran n w (λ v. rounds env md5 cfg n v) (rounds-Ran n) (heartbeat_once env md5 cfg w)
        refl (heartbeat_once-Holds env md5 cfg Crash exchange_crash read_crash w s)
