-- ===== src/Runner/Beat.antt =====
-- HeartbeatOnce of internal/runner/runner.go: what a heartbeat does to the session, when it succeeds and when it fails.
pub mod Parts
pub mod Sends
pub mod Step1
use jlu_drcom_win.Base.{
  ℕ, ◌+◌, ◌%◌, ◌≤◌, ◌<◌, ◌^◌, ◌≡◌, ◌≢◌, refl, sym, subst, ap, ◌∙◌, ◌⊎◌, inl, inr, Bool, true, false,
  Option, none, some, List, [], ◌∷◌, ◌++◌, arith, length, ◌||◌, ◌==◌, if◌then◌else◌, Option-cases,
  Bool-cases,
}
use jlu_drcom_win.Protocol.Types.{Bytes, Session, IsSession, Result, ok, err}
use jlu_drcom_win.Protocol.Buffer.{byte, slice, slice?, slice?-slice, length-slice}
use jlu_drcom_win.Protocol.Layout.{render, fit, length-render}
use jlu_drcom_win.Protocol.Heartbeat.{
  build_keep_alive_auth, build_first_heartbeat, build_extra_heartbeat, build_heartbeat_step1,
  build_heartbeat_step2, parse_heartbeat_step1_response,
}
use jlu_drcom_win.Protocol.Heartbeat.Packets.{
  build_keep_alive_auth-table, keep_alive_rows, build_heartbeats-table, build_heartbeats-none,
  build_heartbeat_step2-table, base_rows, token_row,
}
use jlu_drcom_win.Protocol.Response.{response_matcher}
use jlu_drcom_win.Protocol.Response.Phases.{accepted, step1-parses}
use jlu_drcom_win.Config.Types.{Config, protocol_config}
use jlu_drcom_win.Transport.Failure.{Phase, Failure, Outcome, done, failed, panicked}
use jlu_drcom_win.Runner.World.{
  Env, World, Act, Context, session_context, build, build_pure, parsed, get_session, set_session,
  pure, built, ◌>>=◌,
}
use jlu_drcom_win.Runner.Rules.{Holds, bind-Holds, Holds-weaken}
use jlu_drcom_win.Runner.Exchange.{Same, Replied, exchange-Holds}
use jlu_drcom_win.Runner.Steps.{
  next_count, exchange, keep_alive_auth, count_up, send_first_or_extra, first_or_extra, send_step1,
  send_step2, heartbeat_once,
}
use jlu_drcom_win.Runner.Beat.Parts.{
  Kept, is_due, after_extra, Counted, Failing, Kept-Same, Same-env, Answered, sent-Holds,
  keep_alive_auth-Holds, count_up-Holds, exchange_count-Holds, drawing-Holds,
}
use jlu_drcom_win.Runner.Beat.Sends.{first_or_extra-Holds, send_step2-Holds}
use jlu_drcom_win.Runner.Beat.Step1.{send_step1-Holds}

module _ {E : Type 0} (env : Env E) (md5 : Bytes → Bytes) (cfg : Config) (Crash : Type 0)
    (exchange_crash : (ctx : Context) (p : Bytes) (file : Bool) (e : E)
      → (env.exchange ctx p (response_matcher p file) e).0 ≡ panicked
      → Crash)
    (read_crash : (n : ℕ) (e : E) → env.read n e ≡ none → Crash) where
  abbrev first_part : Act E (Unit {0})
  first_part = get_session >>= λ s. first_or_extra env md5 cfg s

  abbrev step1_part : Act E Bytes
  step1_part = get_session >>= λ s. send_step1 env md5 cfg s

  abbrev step2_part : Bytes → Act E (Unit {0})
  step2_part token = get_session >>= λ s. send_step2 env md5 cfg token s

  part1-Holds :
      (w v : World E)
      → Kept w v
      → Holds
          (λ u t. Counted w (after_extra v.session.heartbeat_count) t)
          (Failing w)
          Crash
          (first_part v)
  unfolding ◌>>=◌ get_session
  part1-Holds w v k = first_or_extra-Holds env md5 cfg Crash exchange_crash read_crash w v k

  part2-Holds :
      (w v : World E) (n : ℕ)
      → Counted w n v
      → Holds (λ u t. Counted w (next_count n) t) (Failing w) Crash (step1_part v)
  unfolding ◌>>=◌ get_session
  part2-Holds w v n c =
      subst
        (λ m.
          Holds (λ u t. Counted w (next_count m) t) (Failing w) Crash
            (send_step1 env md5 cfg v.session v))
        c.1 (send_step1-Holds env md5 cfg Crash exchange_crash read_crash w v c.0)

  part3-Holds :
      (w v : World E) (n : ℕ) (token : Bytes)
      → Counted w n v
      → Holds (λ u t. Counted w (next_count n) t) (Failing w) Crash (step2_part token v)
  unfolding ◌>>=◌ get_session
  part3-Holds w v n token c =
      subst
        (λ m.
          Holds (λ u t. Counted w (next_count m) t) (Failing w) Crash
            (send_step2 env md5 cfg token v.session v))
        c.1 (send_step2-Holds env md5 cfg Crash exchange_crash read_crash token w v c.0)

  after_keep_alive :
      (w v : World E)
      → Kept w v
      → v.session ≡ w.session
      → Holds
          (λ u t. Counted w (next_count (next_count (after_extra w.session.heartbeat_count))) t)
          (Failing w)
          Crash
          ((first_part >>= λ _. step1_part >>= λ token. step2_part token) v)
  after_keep_alive w v k e =
      bind-Holds (λ _ t. Counted w n t) (Failing w) _ (Failing w) Crash _ _ v
        (subst
          (λ s.
            Holds (λ u t. Counted w (after_extra s.heartbeat_count) t) (Failing w) Crash
              (first_part v))
          e (part1-Holds w v k))
        (λ e u h. h)
        (λ _ u c.
          bind-Holds (λ _ t. Counted w (next_count n) t) (Failing w) _ (Failing w) Crash _ _ u
            (part2-Holds w u n c) (λ e t h. h)
            (λ token t d. part3-Holds w t (next_count n) token d))
    where
      n : ℕ
      n = after_extra w.session.heartbeat_count

  steps-Holds :
      (w v : World E)
      → Kept w v
      → v.session ≡ w.session
      → Holds
          (λ u t. Counted w (next_count (next_count (after_extra w.session.heartbeat_count))) t)
          (Failing w)
          Crash
          ((get_session >>= λ s. first_or_extra env md5 cfg s >>= λ _. get_session >>= λ s.
              send_step1 env md5 cfg s >>= λ token.
              get_session >>= λ s. send_step2 env md5 cfg token s)
            v)
  unfolding ◌>>=◌ get_session
  steps-Holds w v k e = after_keep_alive w v k e

  -- HeartbeatOnce, from a well-formed session, on every outcome of its four exchanges. When it
  -- succeeds, the count is two more, and one more than that if it was zero or a multiple of 21
  -- (modulo 2^64 at each step). When it fails or succeeds, the runner's state, what it reported,
  -- the digest and the server's indicator are unchanged and the session is well formed. It panics
  -- only if the exchanger or the random reader does.
  pub heartbeat_once-Holds :
      (w : World E)
      → IsSession w.session
      → Holds
          (λ u t. Counted w (next_count (next_count (after_extra w.session.heartbeat_count))) t)
          (Failing w)
          Crash
          (heartbeat_once env md5 cfg w)
  unfolding heartbeat_once
  heartbeat_once-Holds w valid =
      bind-Holds (λ _ u. Kept w u × (u.session ≡ w.session)) (Failing w) _ (Failing w) Crash _ _ w
        (keep_alive_auth-Holds env md5 cfg Crash exchange_crash read_crash w w unchanged)
        (λ e u h. h) (λ _ v h. steps-Holds w v h.0 h.1)
    where
      unchanged : Kept w w
      unchanged = record {
        state = refl;
        reported = refl;
        md5_password = refl;
        indicator = refl;
        valid = valid;
      }
