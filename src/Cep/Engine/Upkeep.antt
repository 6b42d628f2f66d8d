-- ===== src/Cep/Engine/Upkeep.antt =====
-- The partial matches of an engine as patterns are registered and unregistered, and after a cleanup.
use gress.Common.{
  ℕ, suc, ◌≡◌, refl, ◌∙◌, sym, String, true, none, some, List, [], ◌∷◌, ℤ, All, arith, Bool-cases,
  inl, inr, string_key,
}
use gress.Common.Dict.{Dict, get, put, remove, get-put, get-remove}
use gress.Cep.Value.{Floats}
use gress.Cep.Pattern.{Pattern}
use gress.Cep.Match.{PartialMatch}
use gress.Cep.Match.Explained.{Progress}
use gress.Cep.Engine.{or_empty, has_timed_out, live_matches, clean_patterns}
use gress.Cep.Engine.Matches.{other, Distinct, Partials, Partials-put}

module _ (N : Floats) where
  Partials-empty :
      (patterns : Dict String (Pattern N.F)) (partials : Dict String (List (PartialMatch N.F)))
      (k : String)
      → Partials N patterns partials
      → Partials N patterns (put partials k [])
  Partials-empty [] partials k h = tt
  Partials-empty ((j, q) ∷ patterns) partials k h = (
    elim (Bool-cases (string_key.beq k j)) [
      | inl e ↦ rw (get-put partials k j []) (rw e tt)
      | inr e ↦ rw (get-put partials k j []) (rw e h.0)
    ],
    Partials-empty patterns partials k h.1,
  )

  pub Partials-register :
      (patterns : Dict String (Pattern N.F)) (partials : Dict String (List (PartialMatch N.F)))
      (k : String) (p : Pattern N.F)
      → Partials N patterns partials
      → Partials N (put patterns k p) (put partials k [])
  unfolding put
  Partials-register [] partials k p h =
      (rw (get-put partials k k []) (rw ((string_key.beq_iff k k).1 refl) tt), tt)
  Partials-register ((j, q) ∷ patterns) partials k p h = elim (Bool-cases (string_key.beq j k)) [
    | inl e ↦
        let same : string_key.beq k j ≡ true =
          (string_key.beq_iff k j).1 (sym ((string_key.beq_iff j k).0 e)) in
        rw e (rw (get-put partials k j []) (rw same tt), Partials-empty patterns partials k h.1)
    | inr e ↦ rw e (
      rw (get-put partials k j []) (rw (other j k e) h.0),
      Partials-register patterns partials k p h.1,
    )
  ]

  pub Partials-remove :
      (patterns : Dict String (Pattern N.F)) (partials : Dict String (List (PartialMatch N.F)))
      (k : String)
      → Partials N patterns partials
      → Partials N (remove patterns k) (remove partials k)
  unfolding remove
  Partials-remove [] partials k h = tt
  Partials-remove ((j, q) ∷ patterns) partials k h = elim (Bool-cases (string_key.beq j k)) [
    | inl e ↦ rw e (Partials-remove patterns partials k h.1)
    | inr e ↦ rw e (
      rw (get-remove partials k j) (rw (other j k e) h.0),
      Partials-remove patterns partials k h.1,
    )
  ]

  All-live_matches :
      (timeout_duration : ℤ) (checked : String → ℕ → ℤ) (place : ℕ) (p : Pattern N.F)
      (pms : List (PartialMatch N.F))
      → All (Progress N p.events) pms
      → All (Progress N p.events) (live_matches N timeout_duration checked place p pms)
  All-live_matches timeout_duration checked place p [] h = tt
  All-live_matches timeout_duration checked place p (pm ∷ pms) h =
      elim (Bool-cases (has_timed_out timeout_duration (checked p.id place) p pm)) [
        | inl e ↦ rw e (All-live_matches timeout_duration checked (suc place) p pms h.1)
        | inr e ↦ rw e (h.0, All-live_matches timeout_duration checked (suc place) p pms h.1)
      ]

  module _ (timeout_duration : ℤ) (checked : String → ℕ → ℤ) where
    get-clean_patterns :
        (patterns : Dict String (Pattern N.F)) (partials : Dict String (List (PartialMatch N.F)))
        (k : String)
        → get patterns k ≡ none
        → get (clean_patterns N timeout_duration checked patterns partials) k ≡ get partials k
    unfolding get
    get-clean_patterns [] partials k free = refl
    get-clean_patterns ((j, p) ∷ patterns) partials k free =
        elim (Bool-cases (string_key.beq j k)) [
          | inl e ↦ absurd (ground (arith, e, free))
          | inr e ↦
              let live = live_matches N timeout_duration checked 0 p (or_empty (get partials j)) in
              get-clean_patterns patterns (put partials j live) k (rw e at free)
              ∙ (get-put partials j k live ∙ rw e refl)
        ]

    pub clean_patterns-Partials :
        (patterns : Dict String (Pattern N.F)) (partials : Dict String (List (PartialMatch N.F)))
        → Distinct N patterns
        → Partials N patterns partials
        → Partials N patterns (clean_patterns N timeout_duration checked patterns partials)
    clean_patterns-Partials [] partials d h = tt
    clean_patterns-Partials ((k, p) ∷ patterns) partials d h =
        let live = live_matches N timeout_duration checked 0 p (or_empty (get partials k)) in
        let next = put partials k live in
        let here : get (clean_patterns N timeout_duration checked patterns next) k ≡ some live =
          get-clean_patterns patterns next k d.0
          ∙ (get-put partials k k live ∙ ground (arith, string_key.beq_iff k k)) in
        (
          rw here (All-live_matches timeout_duration checked 0 p (or_empty (get partials k)) h.0),
          clean_patterns-Partials patterns next d.1
              (Partials-put N patterns partials k live d.0 h.1),
        )
