-- ===== src/Runner/Rules.antt =====
-- Postconditions of actions: one for a value, one for an error, and a type for a panic.
use jlu_drcom_win.Base.{◌≡◌, refl, Option, some, none}
use jlu_drcom_win.Transport.Failure.{Failure, parse, Outcome, done, failed, panicked}
use jlu_drcom_win.Runner.World.{World, Act, continue, ◌>>=◌, build, built, relabel, parsed}
use jlu_drcom_win.Protocol.Types.{Error, Result, ok, err}

module _ {E A : Type 0} where
  abbrev pub Holds :
      (A → World E → Type 0) → (Failure → World E → Type 0) → Type 0 → Outcome A × World E → Type 0
  Holds D F Crash (done a, w) = D a w
  Holds D F Crash (failed e, w) = F e w
  Holds D F Crash (panicked, w) = Crash

module _ {E A B : Type 0} where
  -- The rule of a sequence.
  pub Holds-continue :
      (D' : A → World E → Type 0) (F' : Failure → World E → Type 0) (D : B → World E → Type 0)
      (F : Failure → World E → Type 0) (Crash : Type 0) (f : A → Act E B) (r : Outcome A × World E)
      → Holds D' F' Crash r
      → ((e : Failure) (w : World E) → F' e w → F e w)
      → ((a : A) (w : World E) → D' a w → Holds D F Crash (f a w))
      → Holds D F Crash (continue f r)
  Holds-continue D' F' D F Crash f (done a, w) h k g = g a w h
  Holds-continue D' F' D F Crash f (failed e, w) h k g = k e w h
  Holds-continue D' F' D F Crash f (panicked, w) h k g = h

  pub bind-Holds :
      (D' : A → World E → Type 0) (F' : Failure → World E → Type 0) (D : B → World E → Type 0)
      (F : Failure → World E → Type 0) (Crash : Type 0) (m : Act E A) (f : A → Act E B)
      (w : World E)
      → Holds D' F' Crash (m w)
      → ((e : Failure) (v : World E) → F' e v → F e v)
      → ((a : A) (v : World E) → D' a v → Holds D F Crash (f a v))
      → Holds D F Crash ((m >>= f) w)
  unfolding ◌>>=◌
  bind-Holds D' F' D F Crash m f w h k g = Holds-continue D' F' D F Crash f (m w) h k g

module _ {E A : Type 0} where
  pub build-Holds :
      (D : A → World E → Type 0) (F : Failure → World E → Type 0) (Crash : Type 0)
      (builder : E → Option (A × E)) (w : World E)
      → ((a : A) (e : E) → builder w.env ≡ some (a, e) → D a (record w { env = e }))
      → (builder w.env ≡ none → Crash)
      → Holds D F Crash (build builder w)
  unfolding build
  build-Holds D F Crash builder w d c = go (builder w.env) refl
    where
      go : (r : Option (A × E)) → builder w.env ≡ r → Holds D F Crash (built w r)
      go none q = c q
      go (some (a, e)) q = d a e q

  -- The rule of consequence.
  pub Holds-weaken :
      (D' : A → World E → Type 0) (F' : Failure → World E → Type 0) (D : A → World E → Type 0)
      (F : Failure → World E → Type 0) (Crash : Type 0) (r : Outcome A × World E)
      → Holds D' F' Crash r
      → ((a : A) (v : World E) → D' a v → D a v)
      → ((e : Failure) (v : World E) → F' e v → F e v)
      → Holds D F Crash r
  Holds-weaken D' F' D F Crash (done a, w) h d f = d a w h
  Holds-weaken D' F' D F Crash (failed e, w) h d f = f e w h
  Holds-weaken D' F' D F Crash (panicked, w) h d f = h

  -- Two postconditions of one outcome.
  pub Holds-and :
      (D' : A → World E → Type 0) (F' : Failure → World E → Type 0) (D : A → World E → Type 0)
      (F : Failure → World E → Type 0) (Crash : Type 0) (r : Outcome A × World E)
      → Holds D' F' (Unit {0}) r
      → Holds D F Crash r
      → Holds (λ a v. D' a v × D a v) (λ e v. F' e v × F e v) Crash r
  Holds-and D' F' D F Crash (done a, w) k h = (k, h)
  Holds-and D' F' D F Crash (failed e, w) k h = (k, h)
  Holds-and D' F' D F Crash (panicked, w) k h = h

  -- The postcondition that says which outcome it is.
  pub Holds-self :
      (r : Outcome A × World E)
      → Holds (λ a v. r ≡ (done a, v)) (λ e v. r ≡ (failed e, v)) (Unit {0}) r
  Holds-self (done a, w) = refl
  Holds-self (failed e, w) = refl
  Holds-self (panicked, w) = tt

  -- An error that is renamed, and the result of a parser.
  pub relabel-Holds-self :
      (f : Failure → Failure) (r : Outcome A × World E)
      → Holds
          (λ a v. r ≡ (done a, v))
          (λ e v. (x : Failure) × (r ≡ (failed x, v)) × (e ≡ f x))
          (Unit {0})
          (relabel f r)
  relabel-Holds-self f (done a, w) = refl
  relabel-Holds-self f (failed e, w) = (e, refl, refl)
  relabel-Holds-self f (panicked, w) = tt

  pub parsed-Holds-self :
      (r : Option (Result A)) (w : World E)
      → Holds
          (λ a v. (r ≡ some (ok a)) × (w ≡ v))
          (λ e v. (x : Error) × (r ≡ some (err x)) × (e ≡ parse x) × (w ≡ v))
          (Unit {0})
          (parsed r w)
  unfolding parsed
  parsed-Holds-self none w = tt
  parsed-Holds-self (some (ok a)) w = (refl, refl)
  parsed-Holds-self (some (err x)) w = (x, refl, refl, refl)
