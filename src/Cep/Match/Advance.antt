-- ===== src/Cep/Match/Advance.antt =====
-- An event keeps a partial match in progress or completes it.
use mathlib.Core.List.{append-nil, append_assoc}
use gress.Common.{
  ℕ, suc, ◌<◌, ◌≡◌, inl, inr, refl, ap, ◌∙◌, Bool, true, false, none, List, [], ◌∷◌, ◌++◌,
  if◌then◌else◌, ℤ, length, length-append, All-append, arith, Bool-cases, nat_key, sub_time, ==_iff,
}
use gress.Common.Dict.{get, get-put}
use gress.Cep.Value.{Floats, EventMap}
use gress.Cep.Pattern.{EventPattern, Condition, is_quantifier_satisfied, matches_event_pattern}
use gress.Cep.Match.{
  PartialMatch, Advanced, or_zero, check_temporal, passes, violated, too_early, TemporalOutcome,
  check_if_completed, advance_negated, after_temporal, advance_matched, with_event, try_advance,
  violates, is_longer,
}
use gress.Cep.Match.Explained.{
  Fits, Explained, satisfied, skipped, absent, Stands, Sound, dropped-Sound, active-Sound,
  next-Stands,
}

module _ (N : Floats) where
  check_if_completed-Sound :
      (conditions : List Condition) (steps rest : List (EventPattern N.F)) (p : EventPattern N.F)
      (pm : PartialMatch N.F)
      → Explained N (steps ++ p ∷ []) pm.matched_events
      → Stands N (steps ++ p ∷ []) rest pm
      → Sound N (steps ++ p ∷ rest) (check_if_completed N conditions rest pm)
  check_if_completed-Sound conditions steps [] p pm e h = (λ f. absurd (ground (arith, f)), λ f. e)
  check_if_completed-Sound conditions steps (q ∷ rest) p pm e h =
      active-Sound N (steps ++ p ∷ q ∷ rest) pm (record {
        steps = steps ++ p ∷ [];
        rest = q ∷ rest;
        split = append_assoc steps (p ∷ []) (q ∷ rest);
        stands = h;
      })

  module _ (conditions : List Condition) (event : EventMap N.F) (event_time : ℤ)
      (steps rest : List (EventPattern N.F)) (p : EventPattern N.F) (pm : PartialMatch N.F)
      (h : Stands N steps (p ∷ rest) pm) where
    later_steps : (k : ℕ) → length steps < k → get pm.event_counts k ≡ none
    later_steps k lt = h.later k (omega (arith, h.step, lt))

    one_more :
        (n : ℕ) → pm.current_step ≡ length steps → suc pm.current_step ≡ length (steps ++ p ∷ [])
    one_more n e = omega (arith, e, length-append steps (p ∷ []))

    advance_negated-Sound :
        p.negated ≡ true
        → Sound N (steps ++ p ∷ rest) (advance_negated N conditions event event_time p rest pm)
    advance_negated-Sound negated =
        let buffer = pm.negation_buffer ++ event ∷ [] in
        let kept = record pm { negation_buffer = buffer } in
        let gone = record pm { current_step = suc pm.current_step; negation_buffer = [] } in
        let e : Explained N (steps ++ p ∷ []) pm.matched_events =
          rw h.matched
            (rw (h.fits.1 negated) (rw (append-nil h.events) (absent p h.explained negated))) in
        elim (Bool-cases (violates N p buffer)) [
          | inl bad ↦ rw bad (dropped-Sound N (steps ++ p ∷ rest) kept)
          | inr fine ↦
              elim (Bool-cases
                (is_longer p.temporal_constraint (sub_time event_time pm.last_event_time))) [
                  | inl over ↦ rw fine (
                      rw over (
                        check_if_completed-Sound conditions steps rest p gone e
                          (next-Stands N steps rest p gone e (one_more 0 h.step) later_steps)))
                  | inr waiting ↦ rw fine (
                      rw waiting (
                        active-Sound N (steps ++ p ∷ rest) kept (record {
                          steps = steps;
                          rest = p ∷ rest;
                          split = refl;
                          stands = record {
                            events = h.events;
                            run = h.run;
                            matched = h.matched;
                            explained = h.explained;
                            step = h.step;
                            fits = h.fits;
                            count = h.count;
                            later = h.later;
                          };
                        })))
                ]
        ]

    with_event-Stands :
        p.negated ≡ false
        → Fits N p event
        → Stands N steps (p ∷ rest) (with_event N conditions event event_time pm)
    with_event-Stands positive fit = record {
      events = h.events;
      run = h.run ++ event ∷ [];
      matched = ap (λ xs. xs ++ event ∷ []) h.matched ∙ append_assoc h.events h.run (event ∷ []);
      explained = h.explained;
      step = h.step;
      fits = (
        All-append (Fits N p) h.run (event ∷ []) h.fits.0 (fit, tt),
        λ negated. absurd (ground (arith, positive, negated)),
      );
      count = rw get-put (
          ground (
            arith,
            ==_iff pm.current_step pm.current_step,
            h.count,
            length-append h.run (event ∷ []),
          ));
      later = λ k lt. rw get-put (ground (arith, ==_iff pm.current_step k, lt, h.later k lt));
    }

    after_temporal-Sound :
        (o : TemporalOutcome)
        → p.negated ≡ false
        → Fits N p event
        → Sound N (steps ++ p ∷ rest) (after_temporal N conditions event event_time o p rest pm)
    unfolding with_event-Stands
    after_temporal-Sound violated positive fit = dropped-Sound N (steps ++ p ∷ rest) pm
    after_temporal-Sound too_early positive fit =
        active-Sound N (steps ++ p ∷ rest) pm
          (record { steps = steps; rest = p ∷ rest; split = refl; stands = h })
    after_temporal-Sound passes positive fit =
        let added = with_event N conditions event event_time pm in
        let s = with_event-Stands positive fit in
        let gone = record added { current_step = suc pm.current_step } in
        let n = suc (or_zero (get pm.event_counts pm.current_step)) in
        elim (Bool-cases (is_quantifier_satisfied p n)) [
          | inl enough ↦
              let counted : n ≡ length s.run =
                omega (arith, h.count, length-append h.run (event ∷ [])) in
              let e : Explained N (steps ++ p ∷ []) added.matched_events =
                rw s.matched
                  (satisfied p s.run h.explained positive s.fits.0 (rw⁻¹ counted enough)) in
              rw enough (
                check_if_completed-Sound conditions steps rest p gone e (
                  next-Stands N steps rest p gone e (one_more 0 h.step)
                    (λ k lt. s.later k (omega (arith, h.step, lt)))))
          | inr more ↦ rw more (
              active-Sound N (steps ++ p ∷ rest) added
                (record { steps = steps; rest = p ∷ rest; split = refl; stands = s }))
        ]

  choose-Sound :
      (all : List (EventPattern N.F)) (negated fits optional : Bool) (a b c d : Advanced N.F)
      → (negated ≡ true → Sound N all a)
      → (negated ≡ false → fits ≡ true → Sound N all b)
      → (negated ≡ false → optional ≡ true → Sound N all c)
      → Sound N all d
      → Sound N all (if negated then a else if fits then b else if optional then c else d)
  choose-Sound all true fits optional a b c d ha hb hc hd = ha refl
  choose-Sound all false true optional a b c d ha hb hc hd = hb refl refl
  choose-Sound all false false true a b c d ha hb hc hd = hc refl refl
  choose-Sound all false false false a b c d ha hb hc hd = hd

  -- tryAdvanceMatch keeps a partial match in progress, or completes one that the whole pattern explains.
  pub try_advance-Sound :
      (conditions : List Condition) (event : EventMap N.F) (event_time : ℤ)
      (rest steps : List (EventPattern N.F)) (pm : PartialMatch N.F)
      → Stands N steps rest pm
      → Sound N (steps ++ rest) (try_advance N conditions event event_time rest pm)
  unfolding try_advance
  try_advance-Sound conditions event event_time [] steps pm h = (
    λ f. absurd (ground (arith, f)),
    λ f. rw h.matched (rw h.fits (rw (append-nil h.events) (rw (append-nil steps) h.explained))),
  )
  try_advance-Sound conditions event event_time (p ∷ rest) steps pm h =
      let gone = record pm { current_step = suc pm.current_step } in
      let skip : p.negated ≡ false → p.optional ≡ true → Stands N (steps ++ p ∷ []) rest gone =
        λ positive optional.
          next-Stands N steps rest p gone
            (rw h.matched (skipped p h.run h.explained positive optional h.fits.0))
            (one_more conditions event event_time steps rest p pm h 0 h.step)
            (later_steps conditions event event_time steps rest p pm h) in
      choose-Sound (steps ++ p ∷ rest) p.negated (matches_event_pattern N event p) p.optional
        (advance_negated N conditions event event_time p rest pm)
        (advance_matched N conditions event event_time p rest pm)
        (try_advance N conditions event event_time rest gone) (pm, false, false)
        (advance_negated-Sound conditions event event_time steps rest p pm h)
        (after_temporal-Sound conditions event event_time steps rest p pm h
          (check_temporal p.temporal_constraint (sub_time event_time pm.last_event_time)))
        (λ positive optional. rw⁻¹ (append_assoc steps (p ∷ []) rest) (
          try_advance-Sound conditions event event_time rest (steps ++ p ∷ []) gone
            (skip positive optional)))
        (dropped-Sound N (steps ++ p ∷ rest) pm)
