-- ===== src/Cep/Engine/Matches.antt =====
-- The loops of the engine over its patterns.
use gress.Common.{
  ◌≡◌, refl, ap, sym, ◌∙◌, String, false, none, some, List, [], ◌∷◌, ℤ, All, All-append, arith,
  Bool-cases, inl, inr, string_key,
}
use gress.Common.Dict.{Dict, get, put, remove, get-put, get-remove}
use gress.Cep.Value.{Floats, EventMap}
use gress.Cep.Pattern.{Pattern}
use gress.Cep.Match.{PartialMatch, MatchedPattern}
use gress.Cep.Match.Explained.{Explained, Progress}
use gress.Cep.Engine.{Readings, or_empty, process_pattern, process_patterns}
use gress.Cep.Engine.Soundness.{process_pattern-Sound}

pub other : (j k : String) → string_key.beq j k ≡ false → string_key.beq k j ≡ false
other j k e = ground (arith, e, string_key.beq_iff k j, string_key.beq_iff j k)

module _ (N : Floats) where
  -- No key stands twice.
  abbrev pub Distinct : Dict String (Pattern N.F) → Type 0
  Distinct [] = Unit
  Distinct ((k, p) ∷ patterns) = (get patterns k ≡ none) × Distinct patterns

  pub Distinct-put :
      (patterns : Dict String (Pattern N.F)) (k : String) (p : Pattern N.F)
      → Distinct patterns
      → Distinct (put patterns k p)
  unfolding put get
  Distinct-put [] k p h = (refl, tt)
  Distinct-put ((j, q) ∷ patterns) k p h = elim (Bool-cases (string_key.beq j k)) [
    | inl e ↦ rw e h
    | inr e ↦ rw e (
      get-put patterns k j p
          ∙ ground (arith, h.0, e, string_key.beq_iff k j, string_key.beq_iff j k),
      Distinct-put patterns k p h.1,
    )
  ]

  pub Distinct-remove :
      (patterns : Dict String (Pattern N.F)) (k : String)
      → Distinct patterns
      → Distinct (remove patterns k)
  unfolding remove
  Distinct-remove [] k h = tt
  Distinct-remove ((j, q) ∷ patterns) k h = elim (Bool-cases (string_key.beq j k)) [
    | inl e ↦ rw e (Distinct-remove patterns k h.1)
    | inr e ↦ rw e (
      get-remove patterns k j
          ∙ ground (arith, h.0, e, string_key.beq_iff k j, string_key.beq_iff j k),
      Distinct-remove patterns k h.1,
    )
  ]

  -- The partial matches of every pattern are in progress.
  abbrev pub Partials : Dict String (Pattern N.F) → Dict String (List (PartialMatch N.F)) → Type 0
  Partials patterns partials =
      All (λ (e : String × Pattern N.F). All (Progress N e.1.events) (or_empty (get partials e.0)))
        patterns

  pub Partials-put :
      (patterns : Dict String (Pattern N.F)) (partials : Dict String (List (PartialMatch N.F)))
      (k : String) (pms : List (PartialMatch N.F))
      → get patterns k ≡ none
      → Partials patterns partials
      → Partials patterns (put partials k pms)
  unfolding get
  Partials-put [] partials k pms free h = tt
  Partials-put ((j, p) ∷ patterns) partials k pms free h = elim (Bool-cases (string_key.beq j k)) [
    | inl e ↦ absurd (ground (arith, e, free))
    | inr e ↦ (
      rw (get-put partials k j pms) (rw (other j k e) h.0),
      Partials-put patterns partials k pms (rw e at free) h.1,
    )
  ]

  -- Every pattern stands under its identifier.
  abbrev pub Named : Dict String (Pattern N.F) → Type 0
  Named patterns = All (λ (e : String × Pattern N.F). e.0 ≡ e.1.id) patterns

  pub Named-put :
      (patterns : Dict String (Pattern N.F)) (p : Pattern N.F)
      → Named patterns
      → Named (put patterns p.id p)
  unfolding put
  Named-put [] p h = (refl, tt)
  Named-put ((j, q) ∷ patterns) p h = elim (Bool-cases (string_key.beq j p.id)) [
    | inl e ↦ rw e ((string_key.beq_iff j p.id).0 e, h.1)
    | inr e ↦ rw e (h.0, Named-put patterns p h.1)
  ]

  pub Named-remove :
      (patterns : Dict String (Pattern N.F)) (k : String)
      → Named patterns
      → Named (remove patterns k)
  unfolding remove
  Named-remove [] k h = tt
  Named-remove ((j, q) ∷ patterns) k h = elim (Bool-cases (string_key.beq j k)) [
    | inl e ↦ rw e (Named-remove patterns k h.1)
    | inr e ↦ rw e (h.0, Named-remove patterns k h.1)
  ]

  -- A match of the pattern that is registered under its identifier: it bears the pattern's name and is
  -- explained by its steps.
  pub record IsMatchOf (patterns : Dict String (Pattern N.F)) (m : MatchedPattern N.F)
      : Type 0 where
    pub pattern : Pattern N.F
    pub registered : get patterns m.pattern_id ≡ some pattern
    pub named : m.pattern_name ≡ pattern.name
    pub explained : Explained N pattern.events m.matched_events

  first_key :
      (k j : String) (p : Pattern N.F) (patterns : Dict String (Pattern N.F))
      → k ≡ j
      → get ((k, p) ∷ patterns) j ≡ some p
  unfolding get
  first_key k j p patterns same = ground (arith, same, string_key.beq_iff k j)

  first_pattern :
      (k : String) (p : Pattern N.F) (patterns : Dict String (Pattern N.F))
      (matches : List (MatchedPattern N.F))
      → k ≡ p.id
      → All
          (λ m.
            (m.pattern_id ≡ p.id)
            × (m.pattern_name ≡ p.name)
            × Explained N p.events m.matched_events)
          matches
      → All (IsMatchOf ((k, p) ∷ patterns)) matches
  first_pattern k p patterns [] same h = tt
  first_pattern k p patterns (m ∷ matches) same h = (
    record {
      pattern = p;
      registered = first_key k m.pattern_id p patterns (same ∙ sym h.0.0);
      named = h.0.1;
      explained = h.0.2;
    },
    first_pattern k p patterns matches same h.1,
  )

  still_there :
      (k j : String) (p q : Pattern N.F) (patterns : Dict String (Pattern N.F))
      → get patterns k ≡ none
      → get patterns j ≡ some q
      → get ((k, p) ∷ patterns) j ≡ some q
  unfolding get
  still_there k j p q patterns free found = elim (Bool-cases (string_key.beq k j)) [
    | inl e ↦
        let same : k ≡ j = (string_key.beq_iff k j).0 e in
        absurd (ground (arith, free, found, ap (get patterns) same))
    | inr e ↦ rw e found
  ]

  later_patterns :
      (k : String) (p : Pattern N.F) (patterns : Dict String (Pattern N.F))
      (matches : List (MatchedPattern N.F))
      → get patterns k ≡ none
      → All (IsMatchOf patterns) matches
      → All (IsMatchOf ((k, p) ∷ patterns)) matches
  unfolding get
  later_patterns k p patterns [] free h = tt
  later_patterns k p patterns (m ∷ matches) free h = (
    record {
      pattern = h.0.pattern;
      registered = still_there k m.pattern_id p h.0.pattern patterns free h.0.registered;
      named = h.0.named;
      explained = h.0.explained;
    },
    later_patterns k p patterns matches free h.1,
  )

  module _ (timeout_duration : ℤ) (clock : Readings) (event : EventMap N.F) (event_time : ℤ) where
    abbrev loop :
        Dict String (Pattern N.F)
        → Dict String (List (PartialMatch N.F))
        → Dict String (List (PartialMatch N.F)) × List (MatchedPattern N.F)
    loop = process_patterns N timeout_duration clock event event_time

    get-process_patterns :
        (patterns : Dict String (Pattern N.F)) (partials : Dict String (List (PartialMatch N.F)))
        (k : String)
        → get patterns k ≡ none
        → get (loop patterns partials).0 k ≡ get partials k
    unfolding process_patterns get
    get-process_patterns [] partials k free = refl
    get-process_patterns ((j, p) ∷ patterns) partials k free =
        elim (Bool-cases (string_key.beq j k)) [
          | inl e ↦ absurd (ground (arith, e, free))
          | inr e ↦
              let pms =
                process_pattern N timeout_duration clock event event_time p
                  (or_empty (get partials j)) in
              get-process_patterns patterns (put partials j pms.0) k (rw e at free)
              ∙ (get-put partials j k pms.0 ∙ rw e refl)
        ]

    pub process_patterns-Partials :
        (patterns : Dict String (Pattern N.F)) (partials : Dict String (List (PartialMatch N.F)))
        → Distinct patterns
        → Named patterns
        → Partials patterns partials
        → Partials patterns (loop patterns partials).0
          × All (IsMatchOf patterns) (loop patterns partials).1
    unfolding process_patterns
    process_patterns-Partials [] partials d named h = (tt, tt)
    process_patterns-Partials ((k, p) ∷ patterns) partials d named h =
        let (done, matched) =
          process_pattern-Sound N timeout_duration p clock event event_time
            (or_empty (get partials k)) h.0 in
        let r =
          process_pattern N timeout_duration clock event event_time p (or_empty (get partials k)) in
        let next = put partials k r.0 in
        let (rest, more) =
          process_patterns-Partials patterns next d.1 named.1
            (Partials-put patterns partials k r.0 d.0 h.1) in
        let here : get (loop patterns next).0 k ≡ some r.0 =
          get-process_patterns patterns next k d.0
          ∙ (get-put partials k k r.0 ∙ ground (arith, string_key.beq_iff k k)) in
        (
          (rw here done, rest),
          All-append (IsMatchOf ((k, p) ∷ patterns)) r.1 (loop patterns next).1
              (first_pattern k p patterns r.1 named.0 matched)
              (later_patterns k p patterns (loop patterns next).1 d.0 more),
        )
