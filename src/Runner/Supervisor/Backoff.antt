-- ===== src/Runner/Supervisor/Backoff.antt =====
-- The exact delays of the supervisor while no session comes online.
use jlu_drcom_win.Base.{
  ℕ, zero, suc, ◌*◌, ◌≡◌, refl, sym, subst, ap, ◌∙◌, Bool-cases, inl, inr, List, [], ◌∷◌, ◌++◌,
  Option, none, some, min, append_assoc, append-nil,
}
use jlu_drcom_win.Config.Types.{Config}
use jlu_drcom_win.Transport.Failure.{
  Failure, is_authentication_rejected, is_network_unavailable, Outcome, done, failed, panicked,
}
use jlu_drcom_win.Runner.World.{State, reconnecting}
use jlu_drcom_win.Runner.Steps.{Finish}
use jlu_drcom_win.Runner.Supervisor.{
  Services, Loop, Ending, first_delay, last_delay, after_states, after_wait, wait_and_retry,
  refused_or_retry, after_check, notified, after_session, after_open, after_load, after_condition,
  round, continue_loop, loop, supervise,
}

-- Each delay is twice the one before, up to a minute.
abbrev pub backoff : ℕ → ℕ → List ℕ
backoff zero d = []
backoff (suc n) d = d ∷ backoff n (min (d * 2) last_delay)

module _ {E : Type 0} (services : Services E)
    (offline : (cfg : Config) (s : E) (d : ℕ)
      → after_states (services.session cfg s).0.0 d ≡ d) where
  -- A loop with this delay, after these waits.
  abbrev At : ℕ → List ℕ → Loop E → Type 0
  At d ws l = (l.delay ≡ d) × (l.waited ≡ ws)

  -- One more wait, of the delay; or the end.
  abbrev Once : ℕ → List ℕ → Option Ending × Loop E → Type 0
  Once d ws (some e, l) = Unit {0}
  Once d ws (none, l) = At (min (d * 2) last_delay) (ws ++ d ∷ []) l

  wait-Once :
      (d : ℕ) (ws : List ℕ) (l : Loop E) (r : Option Failure × E)
      → At d (ws ++ d ∷ []) l
      → Once d ws (after_wait services l r)
  wait-Once d ws l (some e, t) p = tt
  wait-Once d ws l (none, t) p = (ap (λ x. min (x * 2) last_delay) p.0, p.1)

  retry-Once :
      (d : ℕ) (ws : List ℕ) (l : Loop E) → At d ws l → Once d ws (wait_and_retry services l)
  retry-Once d ws l p = wait-Once d ws waiting (services.wait l.delay l.env) (p.0, both)
    where
      waiting : Loop E
      waiting = record l {
        reported = l.reported ++ reconnecting ∷ [];
        waited = l.waited ++ l.delay ∷ [];
      }

      both : l.waited ++ l.delay ∷ [] ≡ ws ++ d ∷ []
      both = rw (p.0, p.1) refl

  refused-Once :
      (d : ℕ) (ws : List ℕ) (e : Failure) (l : Loop E)
      → At d ws l
      → Once d ws (refused_or_retry services e l)
  refused-Once d ws e l p = elim (Bool-cases (is_authentication_rejected e)) [
    | inl q ↦ rw q tt
    | inr q ↦ rw q (retry-Once d ws l p)
  ]

  check-Once :
      (d : ℕ) (ws : List ℕ) (err : Failure) (l : Loop E) (r : Option Failure × E)
      → At d ws l
      → Once d ws (after_check services err l r)
  check-Once d ws err l (some e, t) p = tt
  check-Once d ws err l (none, t) p = refused-Once d ws err (record l { env = t }) p

  session-Once :
      (d : ℕ) (ws : List ℕ) (l : Loop E) (r : (List State × Finish) × E)
      → after_states r.0.0 l.delay ≡ l.delay
      → At d ws l
      → Once d ws (after_session services l r)
  session-Once d ws l ((states, Finish.finished e), t) q p =
      check-Once d ws e (notified services states t l) (services.poll t) (q ∙ p.0, p.1)
  session-Once d ws l ((states, Finish.running), t) q p = tt
  session-Once d ws l ((states, Finish.crashed), t) q p = tt

  open-Once :
      (d : ℕ) (ws : List ℕ) (cfg : Config) (l : Loop E) (r : Outcome (Unit {0}) × E)
      → At d ws l
      → Once d ws (after_open services cfg l r)
  open-Once d ws cfg l (done u, t) p =
      session-Once d ws (record l { env = t }) (services.session cfg t) (offline cfg t l.delay) p
  open-Once d ws cfg l (failed e, t) p =
      check-Once d ws e (record l { env = t }) (services.poll t) p
  open-Once d ws cfg l (panicked, t) p = tt

  load-Once :
      (d : ℕ) (ws : List ℕ) (l : Loop E) (r : Outcome Config × E)
      → At d ws l
      → Once d ws (after_load services l r)
  load-Once d ws l (done cfg, t) p =
      open-Once d ws cfg (record l { env = t }) (services.open_transport cfg t) p
  load-Once d ws l (failed e, t) p = elim (Bool-cases (is_network_unavailable e)) [
    | inl n ↦ rw n (check-Once d ws e (record l { env = t }) (services.poll t) p)
    | inr n ↦ rw n tt
  ]
  load-Once d ws l (panicked, t) p = tt

  round-Once :
      (d : ℕ) (ws : List ℕ) (l : Loop E) (r : Option Failure × E)
      → At d ws l
      → Once d ws (after_condition services l r)
  round-Once d ws l (some e, t) p = tt
  round-Once d ws l (none, t) p = load-Once d ws (record l { env = t }) (services.load t) p

  -- The waits of a loop that goes on.
  abbrev pub Waited : List ℕ → Option Ending × Loop E → Type 0
  Waited ws (some e, l) = Unit {0}
  Waited ws (none, l) = l.waited ≡ ws

  continue-Waited :
      (n d : ℕ) (ws : List ℕ) (r : Option Ending × Loop E)
      → Once d ws r
      → ((l : Loop E)
          → At (min (d * 2) last_delay) (ws ++ d ∷ []) l
          → Waited ((ws ++ d ∷ []) ++ backoff n (min (d * 2) last_delay)) (loop services n l))
      → Waited (ws ++ backoff (suc n) d) (continue_loop services (loop services n) r)
  continue-Waited n d ws (some e, l) p h = tt
  continue-Waited n d ws (none, l) p h =
      subst (λ v. Waited v (loop services n l))
        (append_assoc ws (d ∷ []) (backoff n (min (d * 2) last_delay))) (h l p)

  loop-Waited :
      (n d : ℕ) (ws : List ℕ) (l : Loop E)
      → At d ws l
      → Waited (ws ++ backoff n d) (loop services n l)
  unfolding loop round
  loop-Waited zero d ws l p = p.1 ∙ sym (append-nil ws)
  loop-Waited (suc n) d ws l p =
      continue-Waited n d ws (after_condition services l (services.poll l.env))
        (round-Once d ws l (services.poll l.env) p)
        (loop-Waited n (min (d * 2) last_delay) (ws ++ d ∷ []))

  -- If no session reports Online, a supervisor that has not ended after so many rounds has waited
  -- once in each of them: 5 seconds at first, then twice as long as before, and at most a minute.
  pub supervise-Waited :
      (n : ℕ) (env : E) → Waited (backoff n first_delay) (supervise services n env)
  unfolding supervise
  supervise-Waited n env =
      loop-Waited n first_delay []
        (record { env = env; delay = first_delay; reported = []; waited = [] }) (refl, refl)
