-- ===== src/Runner/Beat/Step1.antt =====
-- Step 1 of a heartbeat: its packet, its reply, and the token that the session gets.
use jlu_drcom_win.Base.{
  ℕ, ◌%◌, ◌≡◌, refl, sym, subst, ◌∙◌, Bool, true, false, none, some, ◌++◌, arith, length,
}
use jlu_drcom_win.Protocol.Types.{Bytes, Session, ok}
use jlu_drcom_win.Protocol.Buffer.{byte, slice, slice?, slice?-slice, length-slice}
use jlu_drcom_win.Protocol.Layout.{render, fit, length-render}
use jlu_drcom_win.Protocol.Heartbeat.{build_heartbeat_step1, parse_heartbeat_step1_response}
use jlu_drcom_win.Protocol.Heartbeat.Packets.{
  build_heartbeats-table, build_heartbeats-none, base_rows, token_row,
}
use jlu_drcom_win.Protocol.Response.{response_matcher}
use jlu_drcom_win.Protocol.Response.Phases.{accepted, step1-parses}
use jlu_drcom_win.Config.Types.{Config, protocol_config}
use jlu_drcom_win.Transport.Failure.{Phase, panicked}
use jlu_drcom_win.Runner.World.{
  Env, World, Act, Context, session_context, build, build_pure, parsed, get_session, set_session,
  pure, ◌>>=◌,
}
use jlu_drcom_win.Runner.Rules.{Holds, bind-Holds}
use jlu_drcom_win.Runner.Steps.{next_count, exchange, count_up, send_step1}
use jlu_drcom_win.Runner.Beat.Parts.{
  Kept, Counted, Failing, Kept-Same, Same-env, Answered, sent-Holds, count_up-Holds, drawing-Holds,
}

module _ {E : Type 0} (env : Env E) (md5 : Bytes → Bytes) (cfg : Config) (Crash : Type 0)
    (exchange_crash : (ctx : Context) (p : Bytes) (file : Bool) (e : E)
      → (env.exchange ctx p (response_matcher p file) e).0 ≡ panicked
      → Crash)
    (read_crash : (n : ℕ) (e : E) → env.read n e ≡ none → Crash) where
  -- What the packet of step 1 is for its matcher and for the reply's parser.
  record IsStep1 (s : Session) (packet : Bytes) : Type 0 where
    kind : byte packet 0 ≡ 0x07
    phase : byte packet 5 ≡ 0x01
    count : byte packet 1 ≡ s.heartbeat_count % 256
    token : slice? 8 12 packet ≡ some (slice 8 12 packet)

  abbrev step1_packet : Session → Bytes → Bytes
  step1_packet s drawn =
      render 0 40 (base_rows s 0x01 (protocol_config cfg).keep_alive_version drawn ++ token_row s)

  step1_token :
      (s : Session) (drawn : Bytes)
      → slice? 8 12 (step1_packet s drawn) ≡ some (slice 8 12 (step1_packet s drawn))
  step1_token s drawn = slice?-slice 8 12 (step1_packet s drawn) (omega arith) (omega (arith, long))
    where
      long : length (step1_packet s drawn) ≡ 40
      long = length-render 0 40 _ (omega arith)

  step1_packet-IsStep1 : (s : Session) (drawn : Bytes) → IsStep1 s (step1_packet s drawn)
  unfolding render fit
  step1_packet-IsStep1 s drawn = record {
    kind = refl;
    phase = refl;
    count = refl;
    token = step1_token s drawn;
  }

  abbrev StepOne : World E → World E → Bytes → World E → Type 0
  StepOne w v packet u = Kept w u × (u.session ≡ v.session) × IsStep1 v.session packet

  step1-Holds :
      (w v : World E)
      → Kept w v
      → Holds
          (StepOne w v)
          (Failing w)
          Crash
          (build (build_heartbeat_step1 (protocol_config cfg) v.session env.read) v)
  step1-Holds w v k =
      drawing-Holds env md5 cfg Crash exchange_crash read_crash (StepOne w v) w v
        (build_heartbeat_step1 (protocol_config cfg) v.session env.read)
        (λ drawn next q. (
          step1_packet v.session drawn,
          (build_heartbeats-table (protocol_config cfg) v.session env.read v.env next drawn q).2,
          (Kept-Same w v _ k (Same-env v next), refl, step1_packet-IsStep1 v.session drawn),
        ))
        (λ q. (build_heartbeats-none (protocol_config cfg) v.session env.read v.env q).2)

  -- A reply to step 1 holds a token.
  reply_token :
      (packet p : Bytes)
      → byte packet 0 ≡ 0x07
      → response_matcher packet false p ≡ some (ok true)
      → length (slice 16 20 p) ≡ 4
  reply_token packet p e h =
      length-slice 16 20 p (omega arith) (ground (arith, accepted packet p false h))

  Kept-token :
      (w u : World E) (token : Bytes)
      → Kept w u
      → length token ≡ 4
      → Kept w (record u { session = record u.session { heartbeat_token = token } })
  Kept-token w u token k e = record {
    state = k.state;
    reported = k.reported;
    md5_password = k.md5_password;
    indicator = k.indicator;
    valid = record {
      login_salt = k.valid.login_salt;
      logout_salt = k.valid.logout_salt;
      md5_password = k.valid.md5_password;
      server_drcom_indicator = k.valid.server_drcom_indicator;
      heartbeat_token = e;
      heartbeat_count = k.valid.heartbeat_count;
    };
  }

  -- What is done with the reply to step 1.
  abbrev finish_step1 : Session → Bytes → Bytes → Act E Bytes
  finish_step1 s token p = parsed (parse_heartbeat_step1_response p s) >>= λ s'.
      set_session s' >>= λ _. count_up env md5 cfg >>= λ _. pure token

  finish_step1-Holds :
      (w u : World E) (packet token p : Bytes)
      → Kept w u
      → IsStep1 u.session packet
      → response_matcher packet false p ≡ some (ok true)
      → Holds
          (λ _ t. Counted w (next_count u.session.heartbeat_count) t)
          (Failing w)
          Crash
          (finish_step1 u.session token p u)
  unfolding ◌>>=◌ set_session parsed pure count_up get_session
  finish_step1-Holds w u packet token p k f h =
      rw (step1-parses packet p u.session k.valid.heartbeat_token h f.kind f.phase f.count) (
        count_up-Holds env md5 cfg Crash exchange_crash read_crash w
          (record u { session = record u.session { heartbeat_token = slice 16 20 p } })
          (Kept-token w u (slice 16 20 p) k (reply_token packet p f.kind h)))

  pub send_step1-Holds :
      (w v : World E)
      → Kept w v
      → Holds
          (λ _ t. Counted w (next_count v.session.heartbeat_count) t)
          (Failing w)
          Crash
          (send_step1 env md5 cfg v.session v)
  unfolding send_step1 build_pure
  send_step1-Holds w v k =
      bind-Holds (StepOne w v) (Failing w) _ (Failing w) Crash _ _ v (step1-Holds w v k)
        (λ e u h. h) sent_token
    where
      finished :
          (packet token p : Bytes) (u t : World E)
          → StepOne w v packet u
          → Answered w u packet false p t
          → Holds
              (λ _ t. Counted w (next_count v.session.heartbeat_count) t)
              (Failing w)
              Crash
              (finish_step1 v.session token p t)
      finished packet token p u t h g =
          subst
            (λ s.
              Holds (λ _ t. Counted w (next_count s.heartbeat_count) t) (Failing w) Crash
                (finish_step1 s token p t))
            same
            (finish_step1-Holds w t packet token p g.0
              (subst (λ s. IsStep1 s packet) (sym same) h.2) g.2)
        where
          same : t.session ≡ v.session
          same = g.1 ∙ h.1

      sent_token :
          (packet : Bytes) (u : World E)
          → StepOne w v packet u
          → Holds
              (λ _ t. Counted w (next_count v.session.heartbeat_count) t)
              (Failing w)
              Crash
              ((build_pure (slice? 8 12 packet) >>= λ token.
                  exchange env md5 cfg session_context Phase.heartbeat_step1 packet false >>= λ p.
                  finish_step1 v.session token p)
                u)
      sent_token packet u h =
          bind-Holds (λ _ t. t ≡ u) (Failing w) _ (Failing w) Crash _ _ u (rw (h.2.token) refl)
            (λ e t g. g)
            (λ token t g.
              bind-Holds (Answered w u packet false) (Failing w) _ (Failing w) Crash _ _ t
                (rw g (
                  sent-Holds env md5 cfg Crash exchange_crash read_crash w u Phase.heartbeat_step1
                    packet false h.0))
                (λ e t g. g) (λ p t g. finished packet token p u t h g))
