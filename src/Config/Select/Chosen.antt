-- ===== src/Config/Select/Chosen.antt =====
-- The adapter that is chosen has the best score, and no rival.
use jlu_drcom_win.Base.{
  ℕ, ◌≡◌, ◌≢◌, ◌⊎◌, inl, inr, refl, sym, subst, arith, Bool, true, false, List, [], ◌∷◌, Option,
  none, some, All,
}
use jlu_drcom_win.Protocol.Types.{Bytes}
use jlu_drcom_win.Config.Types.{NetworkInfo}
use jlu_drcom_win.Config.Parse.{DetectorError, ambiguous, not_found}
use jlu_drcom_win.Config.Validate.Bounds.{same_bytes_cases}
use jlu_drcom_win.Config.Select.{
  Text, Candidate, score, Found, nothing, found, differs, consider, scan, conclude,
  select_auto_network,
}
use jlu_drcom_win.Config.Select.Best.{
  Any, IsAtMost, IsOther, HasRival, IsTop, IsBest, consider-IsBest,
}

module _ (scored : Candidate → Option ℕ) where
  abbrev reverse_onto : List Candidate → List Candidate → List Candidate
  reverse_onto [] seen = seen
  reverse_onto (c ∷ cs) seen = reverse_onto cs (c ∷ seen)

  scan-reverse :
      (cs seen : List Candidate) (f : Found)
      → IsBest scored f seen
      → IsBest scored (scan scored cs f) (reverse_onto cs seen)
  unfolding scan
  scan-reverse [] seen f h = h
  scan-reverse (c ∷ cs) seen f h =
      scan-reverse cs (c ∷ seen) (consider c (scored c) f)
        (consider-IsBest scored c (scored c) seen f refl h)

  All-reverse_onto :
      (P : Candidate → Type 0) (cs seen : List Candidate)
      → All P (reverse_onto cs seen)
      → All P cs × All P seen
  All-reverse_onto P [] seen h = (tt, h)
  All-reverse_onto P (c ∷ cs) seen h = (
    ((All-reverse_onto P cs (c ∷ seen) h).1.0, (All-reverse_onto P cs (c ∷ seen) h).0),
    (All-reverse_onto P cs (c ∷ seen) h).1.1,
  )

  Any-reverse_onto :
      (P : Candidate → Type 0) (cs seen : List Candidate)
      → Any P (reverse_onto cs seen)
      → Any P cs ⊎ Any P seen
  Any-reverse_onto P [] seen h = inr h
  Any-reverse_onto P (c ∷ cs) seen h = elim (Any-reverse_onto P cs (c ∷ seen) h) [
    | inl x ↦ inl (inr x)
    | inr (inl p) ↦ inl (inl p)
    | inr (inr x) ↦ inr x
  ]

  Any-reverse_onto_nil :
      (P : Candidate → Type 0) (cs : List Candidate) → Any P (reverse_onto cs []) → Any P cs
  Any-reverse_onto_nil P cs h = elim (Any-reverse_onto P cs [] h) [ inl x ↦ x | inr x ↦ absurd x ]

  rival_back :
      (a : Bool) (b : Candidate) (t : ℕ) (cs : List Candidate)
      → HasRival scored a b t (reverse_onto cs [])
      → HasRival scored a b t cs
  rival_back true b t cs h =
      Any-reverse_onto_nil (λ c. (scored c ≡ some t) × (differs b c ≡ true)) cs h
  rival_back false b t cs h =
      (All-reverse_onto (λ c. IsOther t (scored c) ⊎ (differs b c ≡ false)) cs [] h).0

  IsBest-back :
      (f : Found) (cs : List Candidate) → IsBest scored f (reverse_onto cs []) → IsBest scored f cs
  IsBest-back nothing cs h = (All-reverse_onto (λ c. scored c ≡ none) cs [] h).0
  IsBest-back (found b t a) cs h = record {
    listed = Any-reverse_onto_nil (λ c. c ≡ b) cs h.listed;
    scores = h.scores;
    most = (All-reverse_onto (λ c. IsAtMost t (scored c)) cs [] h.most).0;
    rival = rival_back a b t cs h.rival;
  }

-- What the loop found, and what is made of it.
pub record Concluded (text : Text) (candidates : List Candidate) (hint : Bytes) : Type 0 where
  pub best : Found
  pub is_best : IsBest (score text (text.lower (text.trim hint))) best candidates
  pub result : select_auto_network text candidates hint ≡ conclude best

pub select_auto_network-Concluded :
    (text : Text) (candidates : List Candidate) (hint : Bytes) → Concluded text candidates hint
unfolding select_auto_network
select_auto_network-Concluded text candidates hint = record {
  best = scan (score text (text.lower (text.trim hint))) candidates nothing;
  is_best =
      IsBest-back (score text (text.lower (text.trim hint)))
        (scan (score text (text.lower (text.trim hint))) candidates nothing) candidates
        (scan-reverse (score text (text.lower (text.trim hint))) candidates [] nothing tt);
  result = refl;
}

-- The same adapter, as far as the selection goes.
abbrev pub IsSame : Candidate → Candidate → Type 0
IsSame b c = (b.name ≡ c.name) × (b.ip ≡ c.ip)

differs_cases :
    (b c : Candidate)
    → ((differs b c ≡ false) × IsSame b c)
      ⊎ ((differs b c ≡ true) × ((b.name ≢ c.name) ⊎ (b.ip ≢ c.ip)))
unfolding differs
differs_cases b c = ground (arith, same_bytes_cases b.name c.name, same_bytes_cases b.ip c.ip)

module _ (scored : Candidate → Option ℕ) where
  -- A candidate with a score that no other one exceeds.
  pub record IsHighest (b : Candidate) (t : ℕ) (cs : List Candidate) : Type 0 where
    pub listed : Any (λ c. c ≡ b) cs
    pub scores : scored b ≡ some t
    pub most : All (λ c. IsAtMost t (scored c)) cs

  -- Only one adapter has the highest score; two that differ in name or address have it; and none has
  -- a score.
  pub data Choice (cs : List Candidate) (r : NetworkInfo ⊎ DetectorError) : Type 0 where
    one_highest :
        (b : Candidate) (t : ℕ)
        → IsHighest b t cs
        → All (λ c. IsOther t (scored c) ⊎ IsSame b c) cs
        → r ≡ inl (record { interface_name = b.name; ip = b.ip; mac = b.mac })
        → Choice cs r
    two_highest :
        (b : Candidate) (t : ℕ)
        → IsHighest b t cs
        → Any (λ c. (scored c ≡ some t) × ((b.name ≢ c.name) ⊎ (b.ip ≢ c.ip))) cs
        → r ≡ inr ambiguous
        → Choice cs r
    none_scored : All (λ c. scored c ≡ none) cs → r ≡ inr not_found → Choice cs r

  agreeing :
      (b : Candidate) (t : ℕ) (cs : List Candidate)
      → All (λ c. IsOther t (scored c) ⊎ (differs b c ≡ false)) cs
      → All (λ c. IsOther t (scored c) ⊎ IsSame b c) cs
  agreeing b t [] h = tt
  agreeing b t (c ∷ cs) (inl o, h) = (inl o, agreeing b t cs h)
  agreeing b t (c ∷ cs) (inr q, h) = (inr (ground (arith, q, differs_cases b c)), agreeing b t cs h)

  disagreeing :
      (b : Candidate) (t : ℕ) (cs : List Candidate)
      → Any (λ c. (scored c ≡ some t) × (differs b c ≡ true)) cs
      → Any (λ c. (scored c ≡ some t) × ((b.name ≢ c.name) ⊎ (b.ip ≢ c.ip))) cs
  disagreeing b t [] h = absurd h
  disagreeing b t (c ∷ cs) (inl q) = inl (q.0, other (differs_cases b c))
    where
      other :
          ((differs b c ≡ false) × IsSame b c)
            ⊎ ((differs b c ≡ true) × ((b.name ≢ c.name) ⊎ (b.ip ≢ c.ip)))
          → (b.name ≢ c.name) ⊎ (b.ip ≢ c.ip)
      other (inl h) = ground (arith, q.1, h.0)
      other (inr h) = h.1
  disagreeing b t (c ∷ cs) (inr h) = inr (disagreeing b t cs h)

  IsTop-IsHighest :
      (b : Candidate) (t : ℕ) (a : Bool) (cs : List Candidate)
      → IsTop scored b t a cs
      → IsHighest b t cs
  IsTop-IsHighest b t a cs h = record { listed = h.listed; scores = h.scores; most = h.most }

  conclude-Choice : (f : Found) (cs : List Candidate) → IsBest scored f cs → Choice cs (conclude f)
  conclude-Choice nothing cs h = none_scored h refl
  conclude-Choice (found b t true) cs h =
      two_highest b t (IsTop-IsHighest b t true cs h) (disagreeing b t cs h.rival) refl
  conclude-Choice (found b t false) cs h =
      one_highest b t (IsTop-IsHighest b t false cs h) (agreeing b t cs h.rival) refl

-- The adapter that is selected is one of the candidates with the highest score, where all candidates
-- of that score agree with it in name and address. The selection is ambiguous where two of them
-- differ in one of these, and fails with not found where no candidate has a score; it has no other
-- outcome.
pub select_auto_network-Chosen :
    (text : Text) (candidates : List Candidate) (hint : Bytes)
    → Choice
        (score text (text.lower (text.trim hint)))
        candidates
        (select_auto_network text candidates hint)
select_auto_network-Chosen text candidates hint =
    from_conclusion (select_auto_network-Concluded text candidates hint)
  where
    from_conclusion :
        Concluded text candidates hint
        → Choice
            (score text (text.lower (text.trim hint)))
            candidates
            (select_auto_network text candidates hint)
    from_conclusion c =
        subst (Choice (score text (text.lower (text.trim hint))) candidates) (sym c.result)
          (conclude-Choice (score text (text.lower (text.trim hint))) c.best candidates c.is_best)
