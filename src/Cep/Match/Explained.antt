-- ===== src/Cep/Match/Explained.antt =====
-- What the events of a partial match have to do with the steps of its pattern.
use mathlib.Core.List.{append-nil}
use gress.Common.{
  ℕ, ◌<◌, ◌≡◌, refl, ap, sym, true, false, none, List, [], ◌∷◌, ◌++◌, length, length-append, All,
  arith, nat_key,
}
use gress.Common.Dict.{get}
use gress.Cep.Value.{Floats, EventMap}
use gress.Cep.Pattern.{EventPattern, is_quantifier_satisfied, matches_event_pattern}
use gress.Cep.Match.{PartialMatch, Advanced, or_zero}

module _ (N : Floats) where
  abbrev pub Fits : EventPattern N.F → EventMap N.F → Type 0
  Fits p event = matches_event_pattern N event p ≡ true

  -- The events fall into runs, one for each step in their order, of events that match the step: as many
  -- as satisfy its quantifier, perhaps fewer if the step is optional, and none if it is negated.
  pub data Explained : List (EventPattern N.F) → List (EventMap N.F) → Type 0 where
    start : Explained [] []
    satisfied :
        {steps : List (EventPattern N.F)} {events : List (EventMap N.F)} (p : EventPattern N.F)
        (run : List (EventMap N.F))
        → Explained steps events
        → p.negated ≡ false
        → All (Fits p) run
        → is_quantifier_satisfied p (length run) ≡ true
        → Explained (steps ++ p ∷ []) (events ++ run)
    skipped :
        {steps : List (EventPattern N.F)} {events : List (EventMap N.F)} (p : EventPattern N.F)
        (run : List (EventMap N.F))
        → Explained steps events
        → p.negated ≡ false
        → p.optional ≡ true
        → All (Fits p) run
        → Explained (steps ++ p ∷ []) (events ++ run)
    absent :
        {steps : List (EventPattern N.F)} {events : List (EventMap N.F)} (p : EventPattern N.F)
        → Explained steps events
        → p.negated ≡ true
        → Explained (steps ++ p ∷ []) events

  -- The run of the current step: of events that match it, if there is one, and none at a negated step.
  abbrev pub RunFits : List (EventPattern N.F) → List (EventMap N.F) → Type 0
  RunFits [] run = run ≡ []
  RunFits (p ∷ rest) run = All (Fits p) run × (p.negated ≡ true → run ≡ [])

  -- A partial match that stands before the steps `rest`, with `steps` behind it.
  pub record Stands (steps rest : List (EventPattern N.F)) (pm : PartialMatch N.F) : Type 0 where
    pub events : List (EventMap N.F)
    pub run : List (EventMap N.F)
    pub matched : pm.matched_events ≡ events ++ run
    pub explained : Explained steps events
    pub step : pm.current_step ≡ length steps
    pub fits : RunFits rest run
    pub count : or_zero (get pm.event_counts pm.current_step) ≡ length run
    pub later : (k : ℕ) → pm.current_step < k → get pm.event_counts k ≡ none

  -- A partial match of a pattern.
  pub record Progress (all : List (EventPattern N.F)) (pm : PartialMatch N.F) : Type 0 where
    pub steps : List (EventPattern N.F)
    pub rest : List (EventPattern N.F)
    pub split : steps ++ rest ≡ all
    pub stands : Stands steps rest pm

  -- What an advanced partial match has to be: in progress, or explained by the whole pattern.
  abbrev pub Sound : List (EventPattern N.F) → Advanced N.F → Type 0
  Sound all (pm, advanced, completed) =
      (advanced ≡ true → Progress all pm) × (completed ≡ true → Explained all pm.matched_events)

  pub dropped-Sound :
      (all : List (EventPattern N.F)) (pm : PartialMatch N.F) → Sound all (pm, false, false)
  dropped-Sound all pm = (λ h. absurd (ground (arith, h)), λ h. absurd (ground (arith, h)))

  pub active-Sound :
      (all : List (EventPattern N.F)) (pm : PartialMatch N.F)
      → Progress all pm
      → Sound all (pm, true, false)
  active-Sound all pm h = (λ e. h, λ e. absurd (ground (arith, e)))

  pub RunFits-nil : (rest : List (EventPattern N.F)) → RunFits rest []
  RunFits-nil [] = refl
  RunFits-nil (p ∷ rest) = (tt, λ h. refl)

  -- A step that has ended: the next one stands at no event yet.
  pub next-Stands :
      (steps rest : List (EventPattern N.F)) (p : EventPattern N.F) (pm : PartialMatch N.F)
      → Explained (steps ++ p ∷ []) pm.matched_events
      → pm.current_step ≡ length (steps ++ p ∷ [])
      → ((k : ℕ) → length steps < k → get pm.event_counts k ≡ none)
      → Stands (steps ++ p ∷ []) rest pm
  next-Stands steps rest p pm e step later = record {
    events = pm.matched_events;
    run = [];
    matched = sym (append-nil pm.matched_events);
    explained = e;
    step = step;
    fits = RunFits-nil rest;
    count = ap or_zero (later pm.current_step (omega (arith, step, length-append steps (p ∷ []))));
    later = λ k h. later k (omega (arith, h, step, length-append steps (p ∷ [])));
  }
