-- ===== src/Config/Parse/Sound.antt =====
-- What holds of the settings that ParseWithDetector returns.
use jlu_drcom_win.Base.{◌≡◌, refl, subst, inl, inr, Option, none, some, ℤ, pos, negsuc, arith}
use jlu_drcom_win.Config.Types.{Config}
use jlu_drcom_win.Config.Validate.{Invalid, validate}
use jlu_drcom_win.Config.Validate.Bounds.{IsValid, Within, validate_cases}
use jlu_drcom_win.Config.Values.{Values, Checked, good, bad, Library, ◌>>=◌, parse_toml}
use jlu_drcom_win.Config.Parse.{
  Detector, Identity, times, validated, finish, parse_identity, parse_rest, parse_with_detector,
}

-- A property of the value, where there is one.
abbrev Yields : {A : Type 0} → (A → Type 0) → Checked A → Type 0
Yields P (good a) = P a
Yields P (bad e) = Unit {0}

bind-Yields :
    {A B : Type 0} (P : B → Type 0) (m : Checked A) (f : A → Checked B)
    → ((a : A) → Yields P (f a))
    → Yields P (m >>= f)
unfolding ◌>>=◌
bind-Yields P (good a) f h = h a
bind-Yields P (bad e) f h = tt

-- Validated settings whose durations, in nanoseconds, are those of the file.
pub record IsReady (c : Config) : Type 0 where
  pub valid : IsValid c
  pub receive_timeout : Within c.receive_timeout 100000000 30000000000
  pub heartbeat_interval : Within c.heartbeat_interval 1000000000 300000000000

times_ms-Within : (n : ℤ) → Within n 100 30000 → Within (times n 1000000) 100000000 30000000000
times_ms-Within (pos n) h = omega arith
times_ms-Within (negsuc n) h = absurd (omega arith)

times_s-Within : (n : ℤ) → Within n 1 300 → Within (times n 1000000000) 1000000000 300000000000
times_s-Within (pos n) h = omega arith
times_s-Within (negsuc n) h = absurd (omega arith)

validated-IsReady :
    (c : Config) (o : Option Invalid) → validate c ≡ o → Yields IsReady (validated c o)
validated-IsReady c (some e) q = tt
validated-IsReady c none q = ready (valid_if q)
  where
    valid_if : validate c ≡ none → IsValid c
    valid_if q = elim (validate_cases c) [ inl h ↦ h.1 | inr h ↦ absurd (ground arith) ]

    ready : IsValid c → Yields IsReady (validated c none)
    ready v = record {
      valid = record {
        username = v.username;
        password = v.password;
        host_name = v.host_name;
        os_info = v.os_info;
        server_port = v.server_port;
        bind_port = v.bind_port;
        receive_timeout = v.receive_timeout;
        retry_count = v.retry_count;
        heartbeat_interval = v.heartbeat_interval;
        adapter = v.adapter;
        bind_ip = v.bind_ip;
      };
      receive_timeout = times_ms-Within c.receive_timeout_millis v.receive_timeout;
      heartbeat_interval = times_s-Within c.heartbeat_interval_secs v.heartbeat_interval;
    }

parse_rest-IsReady :
    (library : Library) (values : Values) (identity : Identity)
    → Yields IsReady (parse_rest library values identity)
unfolding parse_rest finish
parse_rest-IsReady library values identity = bind-Yields _ _ _ λ h. bind-Yields _ _ _ λ o.
    bind-Yields _ _ _ λ s. bind-Yields _ _ _ λ b. bind-Yields _ _ _ λ d. bind-Yields _ _ _ λ p.
      bind-Yields _ _ _ λ a. bind-Yields _ _ _ λ k. bind-Yields _ _ _ λ f. bind-Yields _ _ _ λ e.
        bind-Yields _ _ _ λ sp. bind-Yields _ _ _ λ bp. bind-Yields _ _ _ λ t.
          bind-Yields _ _ _
            λ r. bind-Yields _ _ _ λ i. bind-Yields _ _ _ λ u. validated-IsReady _ _ refl

-- Settings that ParseWithDetector returns, whatever the file says and the detector finds, are
-- within the bounds of Validate. Their receive timeout lies between 0.1 and 30 seconds, and their
-- heartbeat interval between 1 and 300 seconds.
pub parse_with_detector-IsReady :
    (library : Library) (detect : Detector) (decoded : Option Values) (c : Config)
    → parse_with_detector library detect decoded ≡ good c
    → IsReady c
unfolding parse_with_detector
parse_with_detector-IsReady library detect decoded c q = subst (Yields IsReady) q (
    bind-Yields IsReady (parse_toml decoded) _ λ values.
      bind-Yields IsReady (parse_identity library detect values) _
        λ identity. parse_rest-IsReady library values identity)
