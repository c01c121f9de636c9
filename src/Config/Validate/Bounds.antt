-- ===== src/Config/Validate/Bounds.antt =====
-- The settings that Validate lets pass, and what that means for the packets.
use jlu_drcom_win.Base.{
  ℕ, ◌/◌, ◌≤◌, ◌≡◌, ◌≢◌, ◌⊎◌, inl, inr, refl, Bool, true, false, not, ◌||◌, ◌==◌, ltb,
  if◌then◌else◌, ℤ, pos, ◌≤ℤ◌, Option, none, some, [], ◌∷◌, length, arith,
}
use jlu_drcom_win.Protocol.Types.{Bytes}
use jlu_drcom_win.Protocol.Buffer.{byte}
use jlu_drcom_win.Config.Types.{Config}
use jlu_drcom_win.Config.Validate.{
  Invalid, username_length, password_length, host_name_length, os_info_length, server_port,
  bind_port, receive_timeout, retry_count, heartbeat_interval, unusable_adapter, bind_ip_differs,
  same_bytes, usable_ipv4, is_zero_mac, outside, validate,
}

pub same_bytes_cases :
    (a b : Bytes) → ((same_bytes a b ≡ true) × (a ≡ b)) ⊎ ((same_bytes a b ≡ false) × (a ≢ b))
same_bytes_cases [] [] = inl (refl, refl)
same_bytes_cases [] (y ∷ b) = ground arith
same_bytes_cases (x ∷ a) [] = ground arith
same_bytes_cases (x ∷ a) (y ∷ b) = ground (arith, same_bytes_cases a b)

-- An address of four bytes that a host can have.
abbrev pub IsUsable : Bytes → Type 0
IsUsable ip =
    (byte ip 0 ≢ 127)
    × (ip ≢ 0 ∷ 0 ∷ 0 ∷ 0 ∷ [])
    × (byte ip 0 / 16 ≢ 14)
    × ((byte ip 0 ≢ 169) ⊎ (byte ip 1 ≢ 254))

abbrev pub Within : ℤ → ℕ → ℕ → Type 0
Within a low high = (pos low ≤ℤ a) × (a ≤ℤ pos high)

pub record IsValid (c : Config) : Type 0 where
  pub username : (1 ≤ length c.username) × (length c.username ≤ 36)
  pub password : (1 ≤ length c.password) × (length c.password ≤ 255)
  pub host_name : length c.host_name ≤ 32
  pub os_info : length c.os_info ≤ 54
  pub server_port : Within c.server_port 1 65535
  pub bind_port : Within c.bind_port 1 65535
  pub receive_timeout : Within c.receive_timeout_millis 100 30000
  pub retry_count : Within c.retry_count 0 10
  pub heartbeat_interval : Within c.heartbeat_interval_secs 1 300
  pub adapter : IsUsable c.ip × (c.mac ≢ 0 ∷ 0 ∷ 0 ∷ 0 ∷ 0 ∷ 0 ∷ [])
  pub bind_ip : c.bind_ip ≡ c.ip

-- A chain of guards: what it returns without a complaint, and else.
abbrev Verdict : Type 0 → Option Invalid → Type 0
Verdict P o = ((o ≡ none) × P) ⊎ ((e : Invalid) × (o ≡ some e) × (¬ P))

-- A guard that is false exactly when `P` holds.
abbrev Guards : Bool → Type 0 → Type 0
Guards b P = ((b ≡ true) × (¬ P)) ⊎ ((b ≡ false) × P)

guard_first :
    {b : Bool} {rest : Option Invalid} {P Q : Type 0} (e : Invalid)
    → Guards b P
    → Verdict Q rest
    → Verdict (P × Q) (if b then some e else rest)
guard_first e (inl (q, fails)) v = rw q (inr (e, refl, λ h. fails h.0))
guard_first e (inr (q, holds)) (inl (r, h)) = rw q (inl (r, (holds, h)))
guard_first e (inr (q, holds)) (inr (f, r, fails)) = rw q (inr (f, r, λ h. fails h.1))

guard_last :
    {b : Bool} {P : Type 0} (e : Invalid) → Guards b P → Verdict P (if b then some e else none)
guard_last e (inl (q, fails)) = rw q (inr (e, refl, fails))
guard_last e (inr (q, holds)) = rw q (inl (refl, holds))

restated : {P Q : Type 0} {o : Option Invalid} → (P → Q) → (Q → P) → Verdict P o → Verdict Q o
restated f g (inl (q, h)) = inl (q, f h)
restated f g (inr (e, q, fails)) = inr (e, q, λ h. fails (g h))

-- At least one byte and at most so many; at most so many.
length_cases :
    (bytes : Bytes) (high : ℕ)
    → Guards
        ((length bytes == 0) || ltb high (length bytes))
        ((1 ≤ length bytes) × (length bytes ≤ high))
length_cases bytes high = ground arith

longer_cases : (bytes : Bytes) (high : ℕ) → Guards (ltb high (length bytes)) (length bytes ≤ high)
longer_cases bytes high = ground arith

outside_cases : (a : ℤ) (low high : ℕ) → Guards (outside a low high) (Within a low high)
outside_cases a low high = ground arith

adapter_cases :
    (ip mac : Bytes)
    → Guards
        (not (usable_ipv4 ip) || is_zero_mac mac)
        (IsUsable ip × (mac ≢ 0 ∷ 0 ∷ 0 ∷ 0 ∷ 0 ∷ 0 ∷ []))
unfolding usable_ipv4 is_zero_mac
adapter_cases ip mac = ground (
  arith,
  same_bytes_cases ip (0 ∷ 0 ∷ 0 ∷ 0 ∷ []),
  same_bytes_cases mac (0 ∷ 0 ∷ 0 ∷ 0 ∷ 0 ∷ 0 ∷ []),
)

bind_cases : (a b : Bytes) → Guards (not (same_bytes a b)) (a ≡ b)
bind_cases a b = ground (arith, same_bytes_cases a b)

-- Validate accepts exactly the settings within these bounds, whose addresses are usable.
pub validate_cases :
    (c : Config)
    → ((validate c ≡ none) × IsValid c) ⊎ ((e : Invalid) × (validate c ≡ some e) × (¬ IsValid c))
unfolding validate
validate_cases c =
    restated
      (λ (u, (p, (h, (o, (sp, (bp, (t, (r, (b, (a, i)))))))))). record {
        username = u;
        password = p;
        host_name = h;
        os_info = o;
        server_port = sp;
        bind_port = bp;
        receive_timeout = t;
        retry_count = r;
        heartbeat_interval = b;
        adapter = a;
        bind_ip = i;
      })
      (λ v. (
        v.username,
        (
          v.password,
          (
            v.host_name,
            (
              v.os_info,
              (
                v.server_port,
                (
                  v.bind_port,
                  (
                    v.receive_timeout,
                    (v.retry_count, (v.heartbeat_interval, (v.adapter, v.bind_ip))),
                  ),
                ),
              ),
            ),
          ),
        ),
      ))
      (guard_first username_length (length_cases c.username 36) (
        guard_first password_length (length_cases c.password 255) (
          guard_first host_name_length (longer_cases c.host_name 32) (
            guard_first os_info_length (longer_cases c.os_info 54) (
              guard_first server_port (outside_cases c.server_port 1 65535) (
                guard_first bind_port (outside_cases c.bind_port 1 65535) (
                  guard_first receive_timeout (outside_cases c.receive_timeout_millis 100 30000) (
                    guard_first retry_count (outside_cases c.retry_count 0 10) (
                      guard_first heartbeat_interval (outside_cases c.heartbeat_interval_secs 1 300)
                        (guard_first unusable_adapter (adapter_cases c.ip c.mac)
                          (guard_last bind_ip_differs (bind_cases c.bind_ip c.ip))))))))))))
