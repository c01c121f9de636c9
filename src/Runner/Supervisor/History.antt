-- ===== src/Runner/Supervisor/History.antt =====
-- What the supervisor reports: the states of one session after the other, and Reconnecting between
-- them.
use jlu_drcom_win.Base.{
  ℕ, zero, suc, ◌+◌, ◌≤◌, ◌≡◌, refl, sym, ap, subst, ◌⊎◌, inl, inr, Bool-cases, List, [], ◌∷◌, ◌++◌,
  Option, none, some, append-nil, arith,
}
use jlu_drcom_win.Config.Types.{Config}
use jlu_drcom_win.Transport.Failure.{
  Failure, is_authentication_rejected, is_network_unavailable, Outcome, done, failed, panicked,
}
use jlu_drcom_win.Runner.World.{State, reconnecting}
use jlu_drcom_win.Runner.Steps.{Finish}
use jlu_drcom_win.Runner.Supervisor.{
  Services, Loop, Ending, returned, crashed, in_session, after_wait, wait_and_retry,
  refused_or_retry, after_check, settle, notified, after_session, after_open, after_load,
  after_condition, round, continue_loop, loop,
}

-- The reports of so many rounds, each of a session (or of none) and then Reconnecting.
pub data IsHistory (IsTrace : List State → Type 0) : ℕ → List State → Type 0 where
  nothing_yet : IsHistory IsTrace 0 []
  again :
      (k : ℕ) (before states : List State)
      → IsHistory IsTrace k before
      → IsTrace states
      → IsHistory IsTrace (suc k) ((before ++ states) ++ reconnecting ∷ [])

-- So many rounds, and a last session whose states satisfy P.
pub record Tells (IsTrace P : List State → Type 0) (k : ℕ) (reported : List State) : Type 0 where
  pub before : List State
  pub states : List State
  pub history : IsHistory IsTrace k before
  pub last : P states
  pub both : reported ≡ before ++ states

module _ {E : Type 0} (services : Services E) (IsTrace IsOpen : List State → Type 0)
    (Crash : Type 0) where
  abbrev pub Told : List State × Finish → Type 0
  Told (states, Finish.finished e) = IsTrace states
  Told (states, Finish.running) = IsOpen states
  Told (states, Finish.crashed) = Crash

  abbrev pub Panics : Type 0
  Panics =
      Crash
      ⊎ ((s : E) × ((services.load s).0 ≡ panicked))
      ⊎ ((cfg : Config) × (s : E) × ((services.open_transport cfg s).0 ≡ panicked))

  -- After at most k rounds, and after exactly k where the loop goes on.
  abbrev pub Reports : ℕ → Option Ending × Loop E → Type 0
  Reports k (none, l) = IsHistory IsTrace k l.reported
  Reports k (some (returned e), l) = (j : ℕ) × (j ≤ k) × Tells IsTrace IsTrace j l.reported
  Reports k (some in_session, l) = (j : ℕ) × (j ≤ k) × Tells IsTrace IsOpen j l.reported
  Reports k (some crashed, l) = Panics

  module _ (nothing : IsTrace [])
      (session_Told : (cfg : Config) (s : E) → Told (services.session cfg s).0) (k : ℕ) where
    -- The states that this round has reported are those of a session that has ended, or none.
    abbrev Settled : Loop E → Type 0
    Settled l = Tells IsTrace IsTrace k l.reported

    at_start : (h : List State) → IsHistory IsTrace k h → Tells IsTrace IsTrace k h
    at_start h i = record {
      before = h;
      states = [];
      history = i;
      last = nothing;
      both = sym (append-nil h);
    }

    ended-Reports : (e : Failure) (l : Loop E) → Settled l → Reports (suc k) (some (returned e), l)
    ended-Reports e l s = (k, omega arith, s)

    wait-Reports :
        (l : Loop E) (r : Option Failure × E)
        → IsHistory IsTrace (suc k) l.reported
        → Reports (suc k) (after_wait services l r)
    wait-Reports l (none, t) h = h
    wait-Reports l (some e, t) h = (
      suc k,
      omega arith,
      record {
        before = l.reported;
        states = [];
        history = h;
        last = nothing;
        both = sym (append-nil l.reported);
      },
    )

    retry-Reports : (l : Loop E) → Settled l → Reports (suc k) (wait_and_retry services l)
    retry-Reports l s =
        wait-Reports
          (record l {
            reported = l.reported ++ reconnecting ∷ [];
            waited = l.waited ++ l.delay ∷ [];
          })
          (services.wait l.delay l.env)
          (subst (λ h. IsHistory IsTrace (suc k) (h ++ reconnecting ∷ [])) (sym s.both)
            (again k s.before s.states s.history s.last))

    refused-Reports :
        (e : Failure) (l : Loop E) → Settled l → Reports (suc k) (refused_or_retry services e l)
    refused-Reports e l s = elim (Bool-cases (is_authentication_rejected e)) [
      | inl q ↦ rw q (ended-Reports e l s)
      | inr q ↦ rw q (retry-Reports l s)
    ]

    check-Reports :
        (err : Failure) (l : Loop E) (r : Option Failure × E)
        → Settled l
        → Reports (suc k) (after_check services err l r)
    check-Reports err l (some e, t) s = ended-Reports e (record l { env = t }) s
    check-Reports err l (none, t) s = refused-Reports err (record l { env = t }) s

    settle-Reports :
        (err : Failure) (l : Loop E) → Settled l → Reports (suc k) (settle services err l)
    settle-Reports err l s = check-Reports err l (services.poll l.env) s

    session-Reports :
        (l : Loop E) (r : (List State × Finish) × E)
        → IsHistory IsTrace k l.reported
        → Told r.0
        → Reports (suc k) (after_session services l r)
    session-Reports l ((states, Finish.finished e), t) h p =
        settle-Reports e (notified services states t l)
          (record { before = l.reported; states = states; history = h; last = p; both = refl })
    session-Reports l ((states, Finish.running), t) h p = (
      k,
      omega arith,
      record { before = l.reported; states = states; history = h; last = p; both = refl },
    )
    session-Reports l ((states, Finish.crashed), t) h p = inl p

    open-Reports :
        (cfg : Config) (l : Loop E) (s : E) (r : Outcome (Unit {0}) × E)
        → services.open_transport cfg s ≡ r
        → IsHistory IsTrace k l.reported
        → Reports (suc k) (after_open services cfg l r)
    open-Reports cfg l s (done u, t) q h =
        session-Reports (record l { env = t }) (services.session cfg t) h (session_Told cfg t)
    open-Reports cfg l s (failed e, t) q h =
        settle-Reports e (record l { env = t }) (at_start l.reported h)
    open-Reports cfg l s (panicked, t) q h = inr (inr (cfg, s, ap (λ r. r.0) q))

    load-Reports :
        (l : Loop E) (s : E) (r : Outcome Config × E)
        → services.load s ≡ r
        → IsHistory IsTrace k l.reported
        → Reports (suc k) (after_load services l r)
    load-Reports l s (done cfg, t) q h =
        open-Reports cfg (record l { env = t }) t (services.open_transport cfg t) refl h
    load-Reports l s (failed e, t) q h = elim (Bool-cases (is_network_unavailable e)) [
      | inl n ↦ rw n (settle-Reports e (record l { env = t }) (at_start l.reported h))
      | inr n ↦ rw n (ended-Reports e (record l { env = t }) (at_start l.reported h))
    ]
    load-Reports l s (panicked, t) q h = inr (inl (s, ap (λ r. r.0) q))

    condition-Reports :
        (l : Loop E) (r : Option Failure × E)
        → IsHistory IsTrace k l.reported
        → Reports (suc k) (after_condition services l r)
    condition-Reports l (some e, t) h =
        ended-Reports e (record l { env = t }) (at_start l.reported h)
    condition-Reports l (none, t) h = load-Reports (record l { env = t }) t (services.load t) refl h

  continue-Reports :
      (j k : ℕ) (go : Loop E → Option Ending × Loop E) (r : Option Ending × Loop E)
      → j ≤ k
      → Reports j r
      → ((l : Loop E) → IsHistory IsTrace j l.reported → Reports k (go l))
      → Reports k (continue_loop services go r)
  continue-Reports j k go (none, l) le h f = f l h
  continue-Reports j k go (some (returned e), l) le h f = (h.0, omega (arith, h.1, le), h.2)
  continue-Reports j k go (some in_session, l) le h f = (h.0, omega (arith, h.1, le), h.2)
  continue-Reports j k go (some crashed, l) le h f = h

  pub loop-Reports :
      (nothing : IsTrace [])
      (session_Told : (cfg : Config) (s : E) → Told (services.session cfg s).0) (n j k : ℕ)
      (l : Loop E)
      → j + n ≡ k
      → IsHistory IsTrace j l.reported
      → Reports k (loop services n l)
  unfolding loop round
  loop-Reports nothing told zero j k l e h =
      subst (λ i. IsHistory IsTrace i l.reported) (omega (arith, e)) h
  loop-Reports nothing told (suc n) j k l e h =
      continue-Reports (suc j) k (loop services n)
        (after_condition services l (services.poll l.env)) (omega (arith, e))
        (condition-Reports nothing told j l (services.poll l.env) h)
        (λ m i. loop-Reports nothing told n (suc j) k m (omega (arith, e)) i)
