-- ===== src/Runner/Supervisor/Delays.antt =====
-- Why the supervisor stops, and how long it waits.
use jlu_drcom_win.Base.{
  ℕ, zero, suc, ◌*◌, ◌≡◌, refl, ap, ◌⊎◌, inl, inr, Bool-cases, true, false, List, [], ◌∷◌, ◌++◌,
  Option, none, some, min, arith, All,
}
use jlu_drcom_win.Config.Types.{Config}
use jlu_drcom_win.Transport.Failure.{
  Failure, is_authentication_rejected, is_network_unavailable, Outcome, done, failed, panicked,
}
use jlu_drcom_win.Runner.World.{State, reconnecting}
use jlu_drcom_win.Runner.Steps.{Finish}
use jlu_drcom_win.Runner.Supervisor.{
  Services, Loop, Ending, returned, crashed, in_session, first_delay, last_delay, is_online,
  after_states, after_wait, wait_and_retry, refused_or_retry, after_check, settle, notified,
  after_session, after_open, after_load, after_condition, round, continue_loop, loop, supervise,
}

-- 5, 10, 20, 40 or 60 seconds.
abbrev pub IsDelay : ℕ → Type 0
IsDelay d =
    (d ≡ 5000000000) ⊎ (d ≡ 10000000000) ⊎ (d ≡ 20000000000) ⊎ (d ≡ 40000000000) ⊎ (d ≡ 60000000000)

module _ {E : Type 0} (services : Services E) where
  -- A reason to stop: the context or the wait ended, the account is refused, or the settings are
  -- wrong in a way that waiting does not mend; for a panic, the call that panicked.
  abbrev pub Reason : Ending → Type 0
  Reason (returned e) =
      ((s t : E) × (services.poll s ≡ (some e, t)))
      ⊎ ((d : ℕ) × (s t : E) × (services.wait d s ≡ (some e, t)))
      ⊎ (is_authentication_rejected e ≡ true)
      ⊎ ((s t : E) × (services.load s ≡ (failed e, t)) × (is_network_unavailable e ≡ false))
  Reason crashed =
      ((s : E) × ((services.load s).0 ≡ panicked))
      ⊎ ((cfg : Config) × (s : E) × ((services.open_transport cfg s).0 ≡ panicked))
      ⊎ ((cfg : Config) × (s : E) × ((services.session cfg s).0.1 ≡ Finish.crashed))
  Reason in_session = (cfg : Config) × (s : E) × ((services.session cfg s).0.1 ≡ Finish.running)

  abbrev pub Paced : Loop E → Type 0
  Paced l = IsDelay l.delay × All IsDelay l.waited

  abbrev pub Progress : Option Ending × Loop E → Type 0
  Progress (none, l) = Paced l
  Progress (some e, l) = Paced l × Reason e

  double : (d : ℕ) → IsDelay d → IsDelay (min (d * 2) last_delay)
  double d h = ground arith

  states-IsDelay : (states : List State) (d : ℕ) → IsDelay d → IsDelay (after_states states d)
  states-IsDelay [] d h = h
  states-IsDelay (s ∷ states) d h = elim (Bool-cases (is_online s)) [
    | inl q ↦ rw q (states-IsDelay states first_delay (inl refl))
    | inr q ↦ rw q (states-IsDelay states d h)
  ]

  All-snoc : (ds : List ℕ) (d : ℕ) → All IsDelay ds → IsDelay d → All IsDelay (ds ++ d ∷ [])
  All-snoc [] d h k = (k, tt)
  All-snoc (x ∷ ds) d h k = (h.0, All-snoc ds d h.1 k)

  after_wait-Progress :
      (l : Loop E) (d : ℕ) (s : E) (r : Option Failure × E)
      → services.wait d s ≡ r
      → Paced l
      → Progress (after_wait services l r)
  after_wait-Progress l d s (some e, t) q p = (p, inr (inl (d, s, t, q)))
  after_wait-Progress l d s (none, t) q p = (double l.delay p.0, p.1)

  retry-Progress : (l : Loop E) → Paced l → Progress (wait_and_retry services l)
  retry-Progress l p =
      after_wait-Progress waiting l.delay l.env (services.wait l.delay l.env) refl
        (p.0, All-snoc l.waited l.delay p.1 p.0)
    where
      waiting : Loop E
      waiting = record l {
        reported = l.reported ++ reconnecting ∷ [];
        waited = l.waited ++ l.delay ∷ [];
      }

  refused-Progress : (e : Failure) (l : Loop E) → Paced l → Progress (refused_or_retry services e l)
  refused-Progress e l p = elim (Bool-cases (is_authentication_rejected e)) [
    | inl q ↦ rw q (p, inr (inr (inl q)))
    | inr q ↦ rw q (retry-Progress l p)
  ]

  check-Progress :
      (err : Failure) (l : Loop E) (s : E) (r : Option Failure × E)
      → services.poll s ≡ r
      → Paced l
      → Progress (after_check services err l r)
  check-Progress err l s (some e, t) q p = (p, inl (s, t, q))
  check-Progress err l s (none, t) q p = refused-Progress err (record l { env = t }) p

  settle-Progress : (err : Failure) (l : Loop E) → Paced l → Progress (settle services err l)
  settle-Progress err l p = check-Progress err l l.env (services.poll l.env) refl p

  session-Progress :
      (l : Loop E) (cfg : Config) (s : E) (r : (List State × Finish) × E)
      → services.session cfg s ≡ r
      → Paced l
      → Progress (after_session services l r)
  session-Progress l cfg s ((states, Finish.finished e), t) q p =
      settle-Progress e (notified services states t l) (states-IsDelay states l.delay p.0, p.1)
  session-Progress l cfg s ((states, Finish.running), t) q p =
      ((states-IsDelay states l.delay p.0, p.1), (cfg, s, ap (λ r. r.0.1) q))
  session-Progress l cfg s ((states, Finish.crashed), t) q p =
      ((states-IsDelay states l.delay p.0, p.1), inr (inr (cfg, s, ap (λ r. r.0.1) q)))

  open-Progress :
      (l : Loop E) (cfg : Config) (s : E) (r : Outcome (Unit {0}) × E)
      → services.open_transport cfg s ≡ r
      → Paced l
      → Progress (after_open services cfg l r)
  open-Progress l cfg s (done u, t) q p =
      session-Progress (record l { env = t }) cfg t (services.session cfg t) refl p
  open-Progress l cfg s (failed e, t) q p = settle-Progress e (record l { env = t }) p
  open-Progress l cfg s (panicked, t) q p = (p, inr (inl (cfg, s, ap (λ r. r.0) q)))

  load-Progress :
      (l : Loop E) (s : E) (r : Outcome Config × E)
      → services.load s ≡ r
      → Paced l
      → Progress (after_load services l r)
  load-Progress l s (done cfg, t) q p =
      open-Progress (record l { env = t }) cfg t (services.open_transport cfg t) refl p
  load-Progress l s (failed e, t) q p = elim (Bool-cases (is_network_unavailable e)) [
    | inl n ↦ rw n (settle-Progress e (record l { env = t }) p)
    | inr n ↦ rw n (p, inr (inr (inr (s, t, q, n))))
  ]
  load-Progress l s (panicked, t) q p = (p, inl (s, ap (λ r. r.0) q))

  condition-Progress :
      (l : Loop E) (s : E) (r : Option Failure × E)
      → services.poll s ≡ r
      → Paced l
      → Progress (after_condition services l r)
  condition-Progress l s (some e, t) q p = (p, inl (s, t, q))
  condition-Progress l s (none, t) q p =
      load-Progress (record l { env = t }) t (services.load t) refl p

  continue-Progress :
      (again : Loop E → Option Ending × Loop E) (r : Option Ending × Loop E)
      → Progress r
      → ((l : Loop E) → Paced l → Progress (again l))
      → Progress (continue_loop services again r)
  continue-Progress again (some e, l) p h = p
  continue-Progress again (none, l) p h = h l p

  loop-Progress : (n : ℕ) (l : Loop E) → Paced l → Progress (loop services n l)
  unfolding loop round
  loop-Progress zero l p = p
  loop-Progress (suc n) l p =
      continue-Progress (loop services n) (after_condition services l (services.poll l.env))
        (condition-Progress l l.env (services.poll l.env) refl p) (loop-Progress n)

  -- However many rounds of Supervisor.Run one looks at, every delay that it waited for and its next
  -- one are 5, 10, 20, 40 or 60 seconds. It ends only with an error of the context or of the wait,
  -- with a refused account, or with an error of Load that is not the missing network; it panics only
  -- if Load, Open or a session does; and else it is in a session that has not ended.
  pub supervise-Progress : (n : ℕ) (env : E) → Progress (supervise services n env)
  unfolding supervise
  supervise-Progress n env =
      loop-Progress n (record { env = env; delay = first_delay; reported = []; waited = [] })
        (inl refl, tt)
