-- ===== src/Config/Select/Best.antt =====
-- The candidate that the loop holds has the best score so far.
use jlu_drcom_win.Base.{
  ℕ, ◌≤◌, ◌<◌, ◌≡◌, ◌≢◌, ◌⊎◌, inl, inr, refl, sym, ap, ◌∙◌, subst, Bool, true, false, ◌&&◌, ◌||◌,
  ◌==◌, arith, ==_iff, List, [], ◌∷◌, Option, none, some, All,
}
use native.Mathlib.Decide.{dec_lt}
use jlu_drcom_win.Protocol.Types.{Bytes}
use jlu_drcom_win.Config.Validate.{same_bytes}
use jlu_drcom_win.Config.Select.{Candidate, Found, nothing, found, differs, consider}

abbrev pub Any : (Candidate → Type 0) → List Candidate → Type 0
Any P [] = ⊥
Any P (c ∷ cs) = P c ⊎ Any P cs

same_bytes_refl : (b : Bytes) → same_bytes b b ≡ true
same_bytes_refl [] = refl
same_bytes_refl (x ∷ b) = ground (arith, same_bytes_refl b)

differs_refl : (c : Candidate) → differs c c ≡ false
unfolding differs
differs_refl c = ground (arith, same_bytes_refl c.name, same_bytes_refl c.ip)

-- No score, or one of at most so much; another score.
abbrev pub IsAtMost : ℕ → Option ℕ → Type 0
IsAtMost t none = Unit {0}
IsAtMost t (some s) = s ≤ t

abbrev pub IsOther : ℕ → Option ℕ → Type 0
IsOther t none = Unit {0}
IsOther t (some s) = s ≢ t

module _ (scored : Candidate → Option ℕ) where
  -- No rival, or one: a candidate with the best score that differs in name or address.
  abbrev pub HasRival : Bool → Candidate → ℕ → List Candidate → Type 0
  HasRival false b t cs = All (λ c. IsOther t (scored c) ⊎ (differs b c ≡ false)) cs
  HasRival true b t cs = Any (λ c. (scored c ≡ some t) × (differs b c ≡ true)) cs

  pub record IsTop (b : Candidate) (t : ℕ) (a : Bool) (cs : List Candidate) : Type 0 where
    pub listed : Any (λ c. c ≡ b) cs
    pub scores : scored b ≡ some t
    pub most : All (λ c. IsAtMost t (scored c)) cs
    pub rival : HasRival a b t cs

  -- What the loop has found among these candidates.
  abbrev pub IsBest : Found → List Candidate → Type 0
  IsBest nothing cs = All (λ c. scored c ≡ none) cs
  IsBest (found b t a) cs = IsTop b t a cs

  most_none :
      (t : ℕ) (cs : List Candidate)
      → All (λ c. scored c ≡ none) cs
      → All (λ c. IsAtMost t (scored c)) cs
  most_none t [] h = tt
  most_none t (c ∷ cs) h = (subst (IsAtMost t) (sym h.0) tt, most_none t cs h.1)

  rival_none :
      (b : Candidate) (t : ℕ) (cs : List Candidate)
      → All (λ c. scored c ≡ none) cs
      → HasRival false b t cs
  rival_none b t [] h = tt
  rival_none b t (c ∷ cs) h = (inl (subst (IsOther t) (sym h.0) tt), rival_none b t cs h.1)

  grown : (t s : ℕ) → t < s → (o : Option ℕ) → IsAtMost t o → IsAtMost s o
  grown t s l none h = tt
  grown t s l (some n) h = omega (arith, h, l)

  smaller : (t s : ℕ) → t < s → (o : Option ℕ) → IsAtMost t o → IsOther s o
  smaller t s l none h = tt
  smaller t s l (some n) h = λ e. absurd (omega (arith, e, h, l))

  most_grown :
      (t s : ℕ) (cs : List Candidate)
      → t < s
      → All (λ c. IsAtMost t (scored c)) cs
      → All (λ c. IsAtMost s (scored c)) cs
  most_grown t s [] l h = tt
  most_grown t s (c ∷ cs) l h = (grown t s l (scored c) h.0, most_grown t s cs l h.1)

  rival_grown :
      (b : Candidate) (t s : ℕ) (cs : List Candidate)
      → t < s
      → All (λ c. IsAtMost t (scored c)) cs
      → HasRival false b s cs
  rival_grown b t s [] l h = tt
  rival_grown b t s (c ∷ cs) l h = (inl (smaller t s l (scored c) h.0), rival_grown b t s cs l h.1)

  -- A candidate is considered.
  module _ (c : Candidate) (s : ℕ) (e : scored c ≡ some s) (cs : List Candidate) where
    own_most : (t : ℕ) → s ≤ t → IsAtMost t (scored c)
    own_most t l = subst (IsAtMost t) (sym e) l

    first : All (λ c. scored c ≡ none) cs → IsTop c s false (c ∷ cs)
    first h = record {
      listed = inl refl;
      scores = e;
      most = (own_most s (omega arith), most_none s cs h);
      rival = (inr (differs_refl c), rival_none c s cs h);
    }

    better : (b : Candidate) (t : ℕ) (a : Bool) → t < s → IsTop b t a cs → IsTop c s false (c ∷ cs)
    better b t a l h = record {
      listed = inl refl;
      scores = e;
      most = (own_most s (omega arith), most_grown t s cs l h.most);
      rival = (inr (differs_refl c), rival_grown c t s cs l h.most);
    }

    rivals :
        (b : Candidate) (t : ℕ) (a same different : Bool)
        → (s == t) ≡ same
        → differs b c ≡ different
        → HasRival a b t cs
        → HasRival (a || (same && different)) b t (c ∷ cs)
    rivals b t true same different p q h = inr h
    rivals b t false true true p q h = inl (e ∙ ap some ((==_iff s t).0 p), q)
    rivals b t false true false p q h = (inr q, h)
    rivals b t false false different p q h =
        (inl (subst (IsOther t) (sym e) (ground (arith, p))), h)

    kept :
        (b : Candidate) (t : ℕ) (a : Bool)
        → s ≤ t
        → IsTop b t a cs
        → IsTop b t (a || ((s == t) && differs b c)) (c ∷ cs)
    kept b t a l h = record {
      listed = inr h.listed;
      scores = h.scores;
      most = (own_most t l, h.most);
      rival = rivals b t a (s == t) (differs b c) refl refl h.rival;
    }

    at_score : (f : Found) → IsBest f cs → IsBest (consider c (some s) f) (c ∷ cs)
    at_score nothing h = first h
    at_score (found b t a) h = elim (dec_lt t s) [
      | yes l ↦ subst (λ x. IsBest x (c ∷ cs)) (sym (taken b t a l)) (better b t a l h)
      | no l ↦
          subst (λ x. IsBest x (c ∷ cs)) (sym (passed b t a (omega (arith, l))))
            (kept b t a (omega (arith, l)) h)
    ]
      where
        taken :
            (b : Candidate) (t : ℕ) (a : Bool)
            → t < s
            → consider c (some s) (found b t a) ≡ found c s false
        taken b t a l = ground arith

        passed :
            (b : Candidate) (t : ℕ) (a : Bool)
            → s ≤ t
            → consider c (some s) (found b t a) ≡ found b t (a || ((s == t) && differs b c))
        passed b t a l = ground arith

  -- A candidate is passed over.
  passed_over :
      (c : Candidate) (cs : List Candidate) (f : Found)
      → scored c ≡ none
      → IsBest f cs
      → IsBest f (c ∷ cs)
  passed_over c cs nothing e h = (e, h)
  passed_over c cs (found b t true) e h = record {
    listed = inr h.listed;
    scores = h.scores;
    most = (subst (IsAtMost t) (sym e) tt, h.most);
    rival = inr h.rival;
  }
  passed_over c cs (found b t false) e h = record {
    listed = inr h.listed;
    scores = h.scores;
    most = (subst (IsAtMost t) (sym e) tt, h.most);
    rival = (inl (subst (IsOther t) (sym e) tt), h.rival);
  }

  pub consider-IsBest :
      (c : Candidate) (o : Option ℕ) (cs : List Candidate) (f : Found)
      → scored c ≡ o
      → IsBest f cs
      → IsBest (consider c o f) (c ∷ cs)
  consider-IsBest c none cs f e h = passed_over c cs f e h
  consider-IsBest c (some s) cs f e h = at_score c s e cs f h
