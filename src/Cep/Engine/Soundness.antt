-- ===== src/Cep/Engine/Soundness.antt =====
-- What the matches of the engine have to do with their pattern.
use gress.Common.{
  ℕ, suc, ◌≡◌, refl, ◌∙◌, true, false, List, [], ◌∷◌, ◌++◌, ℤ, length, drop, All, All-append, arith,
  Bool-cases, inl, inr, nat_key,
}
use gress.Common.Dict.{get}
use gress.Cep.Value.{Floats, EventMap}
use gress.Cep.Pattern.{EventPattern, Pattern, is_quantifier_satisfied, matches_event_pattern}
use gress.Cep.Match.{
  PartialMatch, MatchedPattern, Advanced, create_matched_pattern, can_start_new_match,
  create_partial_match, try_advance, first_step,
}
use gress.Cep.Match.Explained.{Explained, satisfied, start, Progress, Sound, RunFits-nil}
use gress.Cep.Match.Advance.{try_advance-Sound}
use gress.Cep.Engine.{Readings, is_stale, sort_out, advance_partial_matches, process_pattern}

drop-length : {A : Type 0} (xs ys : List A) → drop (length xs) (xs ++ ys) ≡ ys
drop-length [] ys = refl
drop-length (x ∷ xs) ys = drop-length xs ys

module _ (N : Floats) (timeout_duration : ℤ) (pattern : Pattern N.F) where
  abbrev steps : List (EventPattern N.F)
  steps = pattern.events

  -- Every match names the pattern and is explained by its steps.
  abbrev pub Matched : List (MatchedPattern N.F) → Type 0
  Matched matches =
      All
        (λ (m : MatchedPattern N.F).
          (m.pattern_id ≡ pattern.id)
          × (m.pattern_name ≡ pattern.name)
          × Explained N steps m.matched_events)
        matches

  abbrev pub InProgress : List (PartialMatch N.F) → Type 0
  InProgress pms = All (Progress N steps) pms

  module _ (clock : Readings) (event : EventMap N.F) (event_time : ℤ) where
    sort_out-Sound :
        (a : Advanced N.F) (active : List (PartialMatch N.F)) (matches : List (MatchedPattern N.F))
        → Sound N steps a
        → InProgress active
        → Matched matches
        → (let r = sort_out N timeout_duration clock event event_time pattern a (active, matches) in
            InProgress r.0 × Matched r.1)
    unfolding create_matched_pattern
    sort_out-Sound (pm, advanced, true) active matches s ha hm = (ha, ((refl, refl, s.1 refl), hm))
    sort_out-Sound (pm, true, false) active matches s ha hm = ((s.0 refl, ha), hm)
    sort_out-Sound (pm, false, false) active matches s ha hm = (ha, hm)

    try_advance-drop :
        (pm : PartialMatch N.F)
        → Progress N steps pm
        → Sound N steps
            (try_advance N pattern.conditions event event_time (drop pm.current_step steps) pm)
    try_advance-drop pm h =
        let rest : drop pm.current_step steps ≡ h.rest =
          rw⁻¹ h.split (rw h.stands.step (drop-length h.steps h.rest)) in
        rw rest (
          rw h.split at
            (try_advance-Sound N pattern.conditions event event_time h.rest h.steps pm h.stands))

    advance_partial_matches-Sound :
        (place : ℕ) (pms : List (PartialMatch N.F))
        → InProgress pms
        → (let r =
              advance_partial_matches N timeout_duration clock event event_time place pattern pms in
            InProgress r.0 × Matched r.1)
    unfolding advance_partial_matches
    advance_partial_matches-Sound place [] h = (tt, tt)
    advance_partial_matches-Sound place (pm ∷ pms) h =
        let (ha, hm) = advance_partial_matches-Sound (suc place) pms h.1 in
        let later =
          advance_partial_matches N timeout_duration clock event event_time (suc place) pattern
            pms in
        elim (Bool-cases (is_stale N timeout_duration clock event event_time place pattern pm)) [
          | inl stale ↦ rw stale (ha, hm)
          | inr fresh ↦ rw fresh (
              sort_out-Sound
                (try_advance N pattern.conditions event event_time (drop pm.current_step steps) pm)
                later.0 later.1 (try_advance-drop pm h.0) ha hm)
        ]

  module _ (clock : Readings) (event : EventMap N.F) (event_time : ℤ) where
    -- A new partial match stands at its first event.
    start-Progress :
        (all : List (EventPattern N.F)) (pm : PartialMatch N.F)
        → can_start_new_match N all event ≡ true
        → pm.matched_events ≡ event ∷ []
        → pm.current_step ≡ first_step N all
        → pm.event_counts ≡ (0, 1) ∷ []
        → Progress N all pm
    unfolding can_start_new_match get
    start-Progress [] pm can matched step counts = absurd (ground (arith, can))
    start-Progress (p ∷ rest) pm can matched step counts =
        let positive : p.negated ≡ false = ground (arith, can) in
        let fit : matches_event_pattern N event p ≡ true = ground (arith, can) in
        elim (Bool-cases (is_quantifier_satisfied p 1)) [
          | inl enough ↦ record {
            steps = p ∷ [];
            rest = rest;
            split = refl;
            stands = record {
              events = event ∷ [];
              run = [];
              matched = matched;
              explained = satisfied p (event ∷ []) start positive (fit, tt) enough;
              step = step ∙ rw enough refl;
              fits = RunFits-nil N rest;
              count = rw counts (rw step (rw enough refl));
              later = λ k h. rw counts (ground (arith, h, step, enough));
            };
          }
          | inr more ↦ record {
            steps = [];
            rest = p ∷ rest;
            split = refl;
            stands = record {
              events = [];
              run = event ∷ [];
              matched = matched;
              explained = start;
              step = step ∙ rw more refl;
              fits = ((fit, tt), λ negated. absurd (ground (arith, positive, negated)));
              count = rw counts (rw step (rw more refl));
              later = λ k h. rw counts (ground (arith, h, step, more));
            };
          }
        ]

    pub process_pattern-Sound :
        (pms : List (PartialMatch N.F))
        → InProgress pms
        → (let r = process_pattern N timeout_duration clock event event_time pattern pms in
            InProgress r.0 × Matched r.1)
    unfolding process_pattern create_partial_match
    process_pattern-Sound pms h =
        let r = advance_partial_matches N timeout_duration clock event event_time 0 pattern pms in
        let (ha, hm) = advance_partial_matches-Sound clock event event_time 0 pms h in
        let new = create_partial_match N (clock.created pattern.id) event_time pattern event in
        elim (Bool-cases (can_start_new_match N steps event)) [
          | inl can ↦ rw can (
            All-append (Progress N steps) r.0 (new ∷ []) ha
                (start-Progress steps new can refl refl refl, tt),
            hm,
          )
          | inr cannot ↦ rw cannot (ha, hm)
        ]
