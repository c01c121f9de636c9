-- ===== src/Runner/Login/Second.antt =====
-- The second exchange of a login, under LoggingIn.
use jlu_drcom_win.Base.{
  ℕ, ◌≤◌, ◌≡◌, ◌⊎◌, inl, inr, refl, ap, ◌∙◌, none, some, Bool, true, false, Bool-cases, arith,
  length,
}
use jlu_drcom_win.Protocol.Types.{Bytes, Session, Error, ok, err}
use jlu_drcom_win.Protocol.Buffer.{length-slice, slice}
use jlu_drcom_win.Protocol.Login.{parse_login_response}
use jlu_drcom_win.Protocol.Login.Replies.{parse_login_response_cases}
use jlu_drcom_win.Protocol.Response.{response_matcher}
use jlu_drcom_win.Config.Types.{Config}
use jlu_drcom_win.Transport.Failure.{
  Phase, Failure, is_rejected, authentication_rejected, parse, Outcome, done, failed, panicked,
}
use jlu_drcom_win.Runner.World.{
  Env, World, Act, Context, session_context, build, built, parsed, map_failure, relabel, ◌>>=◌,
}
use jlu_drcom_win.Runner.Rules.{
  Holds, bind-Holds, build-Holds, Holds-weaken, Holds-and, relabel-Holds-self, parsed-Holds-self,
}
use jlu_drcom_win.Runner.Exchange.{Same, exchange-Holds}
use jlu_drcom_win.Runner.Steps.{exchange, login_failure}
use jlu_drcom_win.Runner.Salt.{Same-trans}
use jlu_drcom_win.Runner.Login.Draw.{IsNew, drawing, drawing-IsNew, drawing_crash}

module _ {E : Type 0} (env : Env E) (md5 : Bytes → Bytes) (cfg : Config) (Crash : Type 0)
    (exchange_crash : (ctx : Context) (p : Bytes) (file : Bool) (e : E)
      → (env.exchange ctx p (response_matcher p file) e).0 ≡ panicked
      → Crash)
    (read_crash : (n : ℕ) (e : E) → env.read n e ≡ none → Crash) where
  -- What a login leaves when it succeeds.
  abbrev pub Logged : World E → World E → Session → Type 0
  Logged w v s = Same w v × IsNew s

  parsed-Logged :
      (p : Bytes) (s : Session) (w v : World E)
      → IsNew s
      → Same w v
      → Holds (λ s u. Logged w u s) (λ e u. Same w u) Crash (parsed (parse_login_response p s) v)
  unfolding parsed
  parsed-Logged p s w v h r = elim (parse_login_response_cases p s h.0.server_drcom_indicator) [
    | inl c ↦ rw c.2 r
    | inr (inl c) ↦ rw c.2 r
    | inr (inr (inl c)) ↦ rw c.3 r
    | inr (inr (inr c)) ↦ rw c.2 (r, with_indicator c.0)
  ]
    where
      with_indicator : 39 ≤ length p → IsNew (record s { server_drcom_indicator = slice 23 39 p })
      with_indicator l = (
        record {
          login_salt = h.0.login_salt;
          logout_salt = h.0.logout_salt;
          md5_password = h.0.md5_password;
          server_drcom_indicator = length-slice 23 39 p (omega arith) l;
          heartbeat_token = h.0.heartbeat_token;
          heartbeat_count = h.0.heartbeat_count;
        },
        h.1,
      )

  relabel-Holds :
      (f : Failure → Failure) (w : World E) (r : Outcome Bytes × World E)
      → Holds (λ p u. Same w u) (λ e u. Same w u) Crash r
      → Holds (λ p u. Same w u) (λ e u. Same w u) Crash (relabel f r)
  relabel-Holds f w (done p, u) h = h
  relabel-Holds f w (failed e, u) h = h
  relabel-Holds f w (panicked, u) h = h

  -- The second exchange of a login, with the salt of the first one.
  abbrev pub second : Bytes → Act E Session
  second salt = build (drawing env md5 cfg salt) >>= λ built.
      map_failure (login_failure env md5 cfg)
        (exchange env md5 cfg session_context Phase.login built.0 false)
      >>= λ p. parsed (parse_login_response p built.1)

  -- The error of a login for that of its second exchange: a rejection is one of the account.
  abbrev pub IsRenamed : Failure → Failure → Type 0
  IsRenamed x e =
      ((is_rejected x ≡ true) × (e ≡ authentication_rejected)) ⊎ ((is_rejected x ≡ false) × (e ≡ x))

  login_failure-IsRenamed : (x e : Failure) → e ≡ login_failure env md5 cfg x → IsRenamed x e
  login_failure-IsRenamed x e q = elim (Bool-cases (is_rejected x)) [
    | inl r ↦ inl (r, ground (arith, q, r))
    | inr r ↦ inr (r, ground (arith, q, r))
  ]

  -- A login packet that was built, an exchange that returned a reply, and the parser's session.
  pub record Accepted (salt : Bytes) (w : World E) (s : Session) (v : World E) : Type 0 where
    pub packet : Bytes
    pub draft : Session
    pub start : World E
    pub reply : Bytes
    pub built : build (drawing env md5 cfg salt) w ≡ (done (packet, draft), start)
    pub replied :
        exchange env md5 cfg session_context Phase.login packet false start ≡ (done reply, v)
    pub accepted : parse_login_response reply draft ≡ some (ok s)

  -- A login packet that was built, and an exchange that failed or a reply that the parser refused.
  pub data Refused (salt : Bytes) (w : World E) (e : Failure) (v : World E) : Type 0 where
    unheard :
        (packet : Bytes) (draft : Session) (start : World E) (x : Failure)
        → build (drawing env md5 cfg salt) w ≡ (done (packet, draft), start)
        → exchange env md5 cfg session_context Phase.login packet false start ≡ (failed x, v)
        → IsRenamed x e
        → Refused salt w e v
    rebuffed :
        (packet : Bytes) (draft : Session) (start : World E) (reply : Bytes) (x : Error)
        → build (drawing env md5 cfg salt) w ≡ (done (packet, draft), start)
        → exchange env md5 cfg session_context Phase.login packet false start ≡ (done reply, v)
        → parse_login_response reply draft ≡ some (err x)
        → e ≡ parse x
        → Refused salt w e v

  sent :
      (packet : Bytes) (w v : World E)
      → Same w v
      → Holds
          (λ p u. Same w u)
          (λ e u. Same w u)
          Crash
          (map_failure
            (login_failure env md5 cfg)
            (exchange env md5 cfg session_context Phase.login packet false)
            v)
  unfolding map_failure
  sent packet w v s =
      relabel-Holds (login_failure env md5 cfg) w
        (exchange env md5 cfg session_context Phase.login packet false v)
        (Holds-weaken _ _ (λ p u. Same w u) (λ e u. Same w u) Crash _
          (exchange-Holds env md5 cfg Crash exchange_crash session_context packet false v
            Phase.login)
          (λ p u h. Same-trans w v u s h.0) (λ e u h. Same-trans w v u s h))

  -- The reply is parsed.
  replied-Holds :
      (salt packet : Bytes) (draft : Session) (p : Bytes) (w v u : World E)
      → build (drawing env md5 cfg salt) w ≡ (done (packet, draft), v)
      → exchange env md5 cfg session_context Phase.login packet false v ≡ (done p, u)
      → IsNew draft
      → Same w u
      → Holds
          (λ s t. Accepted salt w s t × Logged w t s)
          (λ e t. Refused salt w e t × Same w t)
          Crash
          (parsed (parse_login_response p draft) u)
  replied-Holds salt packet draft p w v u b q n r =
      Holds-weaken _ _ (λ s t. Accepted salt w s t × Logged w t s)
        (λ e t. Refused salt w e t × Same w t) Crash _
        (Holds-and _ _ (λ s t. Logged w t s) (λ e t. Same w t) Crash _
          (parsed-Holds-self (parse_login_response p draft) u) (parsed-Logged p draft w u n r))
        (λ s t h. (
          record {
            packet = packet;
            draft = draft;
            start = v;
            reply = p;
            built = b;
            replied = q ∙ ap (λ x. (done p, x)) h.0.1;
            accepted = h.0.0;
          },
          h.1,
        ))
        (λ e t h.
          (rebuffed packet draft v p h.0.0 b (q ∙ ap (λ x. (done p, x)) h.0.3) h.0.1 h.0.2, h.1))

  pub second-Holds :
      (salt : Bytes) (w : World E)
      → length salt ≡ 4
      → Holds
          (λ s t. Accepted salt w s t × Logged w t s)
          (λ e t. Refused salt w e t × Same w t)
          Crash
          (second salt w)
  unfolding map_failure build
  second-Holds salt w h =
      bind-Holds (λ a v. (build (drawing env md5 cfg salt) w ≡ (done a, v)) × Same w v × IsNew a.1)
        (λ e v. ⊥) (λ s t. Accepted salt w s t × Logged w t s)
        (λ e t. Refused salt w e t × Same w t) Crash _ _ w
        (build-Holds
          (λ a v. (build (drawing env md5 cfg salt) w ≡ (done a, v)) × Same w v × IsNew a.1)
          (λ e v. ⊥) Crash (drawing env md5 cfg salt) w
          (λ a e q. (
            ap (built w) q,
            record { state = refl; reported = refl; session = refl },
            drawing-IsNew env md5 cfg salt w.env e a h q,
          ))
          (drawing_crash env md5 cfg Crash read_crash salt w.env h))
        (λ e u s. absurd s)
        (λ a v s.
          bind-Holds
            (λ p u.
              (exchange env md5 cfg session_context Phase.login a.0 false v ≡ (done p, u))
              × Same w u)
            (λ e u.
              ((x : Failure) × (exchange env md5 cfg session_context Phase.login a.0 false v
                  ≡ (failed x, u))
                × (e ≡ login_failure env md5 cfg x))
              × Same w u)
            (λ s t. Accepted salt w s t × Logged w t s) (λ e t. Refused salt w e t × Same w t) Crash
            _ _ v
            (Holds-and _ _ (λ p u. Same w u) (λ e u. Same w u) Crash _
              (relabel-Holds-self (login_failure env md5 cfg)
                (exchange env md5 cfg session_context Phase.login a.0 false v))
              (sent a.0 w v s.1))
            (λ e u g.
              (unheard a.0 a.1 v g.0.0 s.0 g.0.1 (login_failure-IsRenamed g.0.0 e g.0.2), g.1))
            (λ p u r. replied-Holds salt a.0 a.1 p w v u s.0 r.0 s.2 r.1))
