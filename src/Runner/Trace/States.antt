-- ===== src/Runner/Trace/States.antt =====
-- The states that a session has reported that has ended.
use jlu_drcom_win.Runner.Trace.{
  Farewell, farewell, IsServed, Story, never_began, no_salt, no_session, had_session,
}
use jlu_drcom_win.Base.{
  ℕ, suc, ◌≤◌, ◌≡◌, sym, ap, ◌∙◌, inl, inr, Bool, true, false, none, List, [], ◌∷◌, ◌++◌,
  append_assoc, append-nil, replicate, arith,
}
use jlu_drcom_win.Protocol.Types.{Bytes}
use jlu_drcom_win.Protocol.Response.{response_matcher}
use jlu_drcom_win.Config.Types.{Config}
use jlu_drcom_win.Transport.Failure.{Failure, panicked}
use jlu_drcom_win.Runner.World.{
  State, login_challenge, logging_in, online, failing, Env, World, Context,
}
use jlu_drcom_win.Runner.Rounds.{Ended}

abbrev pub failed_state : Bool → List State
failed_state true = failing ∷ []
failed_state false = []

-- A login, so many heartbeats, one that failed or none, and the logout.
abbrev pub served_states : ℕ → Bool → Farewell → List State
served_states k fails out =
    login_challenge ∷ logging_in ∷ (replicate k online ++ (failed_state fails ++ farewell out))

-- What a session reports that has ended, with at most so many heartbeats.
pub data IsTrace (n : ℕ) (states : List State) : Type 0 where
  unstarted : states ≡ [] → IsTrace n states
  unchallenged : states ≡ login_challenge ∷ failing ∷ [] → IsTrace n states
  unanswered : states ≡ login_challenge ∷ logging_in ∷ failing ∷ [] → IsTrace n states
  served :
      (k : ℕ) (fails : Bool) (out : Farewell)
      → k ≤ n
      → states ≡ served_states k fails out
      → IsTrace n states

module _ {E : Type 0} (env : Env E) (md5 : Bytes → Bytes) (cfg : Config) (Crash : Type 0)
    (exchange_crash : (ctx : Context) (p : Bytes) (file : Bool) (e : E)
      → (env.exchange ctx p (response_matcher p file) e).0 ≡ panicked
      → Crash)
    (read_crash : (n : ℕ) (e : E) → env.read n e ≡ none → Crash) where
  -- What it has reported is the list of a session.
  said :
      (k : ℕ) (fails : Bool) (out : Farewell) (x v : List State)
      → x ≡ login_challenge ∷ logging_in ∷ (replicate k online ++ failed_state fails)
      → v ≡ x ++ farewell out
      → v ≡ served_states k fails out
  said k fails out x v s q =
      q
      ∙ ap (λ l. l ++ farewell out) s
      ∙ ap (λ l. login_challenge ∷ logging_in ∷ l)
          (append_assoc (replicate k online) (failed_state fails) (farewell out))

  served-IsTrace :
      (n : ℕ) (w : World E) (e : Failure) (x v : World E) (out : Farewell)
      → (s : IsServed env md5 cfg Crash exchange_crash read_crash n w e x)
      → Ended env md5 cfg Crash exchange_crash read_crash
          (login_challenge ∷ logging_in ∷ [])
          s.count
          s.last
          e
          x
      → v.reported ≡ x.reported ++ farewell out
      → IsTrace n v.reported
  served-IsTrace n w e x v out s (inl (u, h, q)) r =
      served s.count true out (omega (arith, s.fewer))
        (said s.count true out x.reported v.reported q r)
  served-IsTrace n w e x v out s (inr (u, h, t, q)) r =
      served (suc s.count) false out (omega (arith, s.fewer)) (
        said (suc s.count) false out x.reported v.reported
          (q
            ∙ ap (λ l. login_challenge ∷ logging_in ∷ l)
                (sym (append-nil (replicate (suc s.count) online))))
          r)

  pub Story-IsTrace :
      (n : ℕ) (w : World E) (e : Failure) (v : World E)
      → Story env md5 cfg Crash exchange_crash read_crash n w e v
      → IsTrace n v.reported
  Story-IsTrace n w e v (never_began p x q) = unstarted q
  Story-IsTrace n w e v (no_salt u p l g q) = unchallenged q
  Story-IsTrace n w e v (no_session u t salt p l g q) = unanswered q
  Story-IsTrace n w e v (had_session x out p s h q) = served-IsTrace n w e x v out s s.ended q
