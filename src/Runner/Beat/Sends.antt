-- ===== src/Runner/Beat/Sends.antt =====
-- The heartbeat that is due at some counts, and step 2.
use jlu_drcom_win.Base.{
  ℕ, ◌≡◌, refl, ap, ◌∙◌, inl, inr, Bool, true, false, none, ◌==◌, if◌then◌else◌, Bool-cases,
}
use jlu_drcom_win.Protocol.Types.{Bytes}
use jlu_drcom_win.Protocol.Heartbeat.{build_first_heartbeat, build_extra_heartbeat}
use jlu_drcom_win.Protocol.Heartbeat.Packets.{
  build_heartbeats-table, build_heartbeats-none, build_heartbeat_step2-table,
}
use jlu_drcom_win.Protocol.Response.{response_matcher}
use jlu_drcom_win.Config.Types.{Config, protocol_config}
use jlu_drcom_win.Transport.Failure.{Phase, panicked}
use jlu_drcom_win.Runner.World.{Env, World, Context, build, build_pure, pure}
use jlu_drcom_win.Runner.Rules.{Holds, bind-Holds, Holds-weaken}
use jlu_drcom_win.Runner.Steps.{next_count, send_first_or_extra, first_or_extra, send_step2}
use jlu_drcom_win.Runner.Beat.Parts.{
  Kept, is_due, after_extra, Counted, Failing, Kept-Same, Same-env, exchange_count-Holds,
  drawing-Holds,
}

module _ {E : Type 0} (env : Env E) (md5 : Bytes → Bytes) (cfg : Config) (Crash : Type 0)
    (exchange_crash : (ctx : Context) (p : Bytes) (file : Bool) (e : E)
      → (env.exchange ctx p (response_matcher p file) e).0 ≡ panicked
      → Crash)
    (read_crash : (n : ℕ) (e : E) → env.read n e ≡ none → Crash) where
  first_or_extra_packet-Holds :
      (w v : World E)
      → Kept w v
      → Holds
          (λ _ u. Kept w u × (u.session ≡ v.session))
          (Failing w)
          Crash
          (build
            (if v.session.heartbeat_count == 0
              then build_first_heartbeat (protocol_config cfg) v.session env.read
              else build_extra_heartbeat (protocol_config cfg) v.session env.read)
            v)
  first_or_extra_packet-Holds w v k = elim (Bool-cases (v.session.heartbeat_count == 0)) [
    | inl first ↦ rw first (
        drawing-Holds env md5 cfg Crash exchange_crash read_crash
          (λ _ u. Kept w u × (u.session ≡ v.session)) w v
          (build_first_heartbeat (protocol_config cfg) v.session env.read)
          (λ drawn next q. (
            _,
            (build_heartbeats-table (protocol_config cfg) v.session env.read v.env next drawn q).0,
            (Kept-Same w v _ k (Same-env v next), refl),
          ))
          (λ q. (build_heartbeats-none (protocol_config cfg) v.session env.read v.env q).0))
    | inr extra ↦ rw extra (
        drawing-Holds env md5 cfg Crash exchange_crash read_crash
          (λ _ u. Kept w u × (u.session ≡ v.session)) w v
          (build_extra_heartbeat (protocol_config cfg) v.session env.read)
          (λ drawn next q. (
            _,
            (build_heartbeats-table (protocol_config cfg) v.session env.read v.env next drawn q).1,
            (Kept-Same w v _ k (Same-env v next), refl),
          ))
          (λ q. (build_heartbeats-none (protocol_config cfg) v.session env.read v.env q).1))
  ]

  send_first_or_extra-Holds :
      (w v : World E)
      → Kept w v
      → Holds
          (λ u t. Counted w (next_count v.session.heartbeat_count) t)
          (Failing w)
          Crash
          (send_first_or_extra env md5 cfg v.session v)
  unfolding send_first_or_extra
  send_first_or_extra-Holds w v k =
      bind-Holds (λ _ u. Kept w u × (u.session ≡ v.session)) (Failing w) _ (Failing w) Crash _ _ v
        (first_or_extra_packet-Holds w v k) (λ e u h. h)
        (λ packet u h.
          Holds-weaken _ _ (λ _ t. Counted w (next_count v.session.heartbeat_count) t) (Failing w)
            Crash _
            (exchange_count-Holds env md5 cfg Crash exchange_crash read_crash w u
              Phase.first_extra_heartbeat packet true h.0)
            (λ _ t c. (c.0, c.1 ∙ ap (λ s. next_count s.heartbeat_count) h.1)) (λ e t c. c))

  pub first_or_extra-Holds :
      (w v : World E)
      → Kept w v
      → Holds
          (λ u t. Counted w (after_extra v.session.heartbeat_count) t)
          (Failing w)
          Crash
          (first_or_extra env md5 cfg v.session v)
  unfolding first_or_extra pure
  first_or_extra-Holds w v k = elim (Bool-cases (is_due v.session.heartbeat_count)) [
    | inl due ↦ rw due (send_first_or_extra-Holds w v k)
    | inr not_due ↦ rw not_due (k, refl)
  ]

  pub send_step2-Holds :
      (token : Bytes) (w v : World E)
      → Kept w v
      → Holds
          (λ u t. Counted w (next_count v.session.heartbeat_count) t)
          (Failing w)
          Crash
          (send_step2 env md5 cfg token v.session v)
  unfolding send_step2 build_pure
  send_step2-Holds token w v k =
      bind-Holds (λ _ u. Kept w u × (u.session ≡ v.session)) (Failing w) _ (Failing w) Crash _ _ v
        (rw (build_heartbeat_step2-table (protocol_config cfg) v.session token) (k, refl))
        (λ e u h. h)
        (λ packet u h.
          Holds-weaken _ _ (λ _ t. Counted w (next_count v.session.heartbeat_count) t) (Failing w)
            Crash _
            (exchange_count-Holds env md5 cfg Crash exchange_crash read_crash w u
              Phase.heartbeat_step2 packet false h.0)
            (λ _ t c. (c.0, c.1 ∙ ap (λ s. next_count s.heartbeat_count) h.1)) (λ e t c. c))
