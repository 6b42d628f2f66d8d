-- ===== src/Join/Window/Fired.antt =====
-- The results that a window of the join fires.
use mathlib.Core.List.{Perm, append_assoc}
use mathlib.Core.List.Perm
use gress.Common.{
  ℕ, ◌≡◌, refl, ap, ◌∙◌, sym, String, Bool, true, false, ◌||◌, ◌&&◌, Option, none, some, List, [],
  ◌∷◌, ◌++◌, map, ◌==◌, ==_iff, if◌then◌else◌, ℤ, arith, string_key,
}
use gress.Common.Dict.{get}
use gress.Stream.{Event}
use gress.Window.Assign.{Assigner}
use gress.Window.Operator.{Format}
use gress.Join.Config.{JoinType, keeps_left, keeps_right}
use gress.Join.Window.{
  Match, WindowJoinState, is_matched_left, is_matched_right, matched_result, unmatched_left,
  unmatched_right, window_results,
}
use gress.Join.Window.Pairs.{
  map-Perm, some_of, some_of-Perm, some_of-append, all_pairs, has_right, has_left, starts_with,
  ends_with, starts_with-all_pairs, ends_with-all_pairs,
}
use gress.Join.Window.Complete.{
  map-append, pair_of, sides, both, Call, test, run_calls, IsComplete, run_calls-AllComplete,
  found-IsComplete,
}

is_matched_left-some_of :
    (matches : List Match) (p : ℕ)
    → is_matched_left matches p ≡ some_of (starts_with p) (map pair_of matches)
is_matched_left-some_of [] p = refl
is_matched_left-some_of (m ∷ matches) p =
    ap (λ b. m.left == p || b) (is_matched_left-some_of matches p)

is_matched_right-some_of :
    (matches : List Match) (p : ℕ)
    → is_matched_right matches p ≡ some_of (ends_with p) (map pair_of matches)
is_matched_right-some_of [] p = refl
is_matched_right-some_of (m ∷ matches) p =
    ap (λ b. m.right == p || b) (is_matched_right-some_of matches p)

sides-matched_result :
    (matches : List Match) → map sides (map matched_result matches) ≡ map both (map pair_of matches)
sides-matched_result [] = refl
sides-matched_result (m ∷ matches) =
    ap (λ xs. (some m.left, some m.right) ∷ xs) (sides-matched_result matches)

module _ (test : ℕ → ℕ → Bool) where
  -- The events of a side without a partner among the others.
  abbrev pub lone_left : List ℕ → List ℕ → List (Option ℕ × Option ℕ)
  lone_left rights [] = []
  lone_left rights (l ∷ lefts) =
      let rest = lone_left rights lefts in
      if has_right test rights l then rest else (some l, none) ∷ rest

  abbrev pub lone_right : List ℕ → List ℕ → List (Option ℕ × Option ℕ)
  lone_right lefts [] = []
  lone_right lefts (r ∷ rights) =
      let rest = lone_right lefts rights in
      if has_left test lefts r then rest else (none, some r) ∷ rest

  -- The join of two lists: all pairs that match, and the events without a partner that the type of
  -- the join keeps.
  pub joined : JoinType → List ℕ → List ℕ → List (Option ℕ × Option ℕ)
  joined kind lefts rights =
      map both (all_pairs test lefts rights)
      ++ ((if keeps_left kind then lone_left rights lefts else [])
          ++ (if keeps_right kind then lone_right lefts rights else []))

module _ {V : Type 0} (event : ℕ → Event V) (test : ℕ → ℕ → Bool) (matches : List Match)
    (lefts rights : List ℕ)
    (complete : Perm (map pair_of matches) (all_pairs test lefts rights)) where
  matched_left :
      (p : ℕ) → is_matched_left matches p ≡ (some_of (λ l. l == p) lefts && has_right test rights p)
  matched_left p =
      is_matched_left-some_of matches p
      ∙ (some_of-Perm (starts_with p) complete ∙ starts_with-all_pairs test p lefts rights)

  matched_right :
      (p : ℕ) → is_matched_right matches p ≡ (some_of (λ r. r == p) rights && has_left test lefts p)
  matched_right p =
      is_matched_right-some_of matches p
      ∙ (some_of-Perm (ends_with p) complete ∙ ends_with-all_pairs test p lefts rights)

  sides-unmatched_left :
      (end : ℤ) (seen ps : List ℕ)
      → lefts ≡ seen ++ ps
      → map sides (unmatched_left event end matches ps) ≡ lone_left test rights ps
  sides-unmatched_left end seen [] split = refl
  sides-unmatched_left end seen (p ∷ ps) split =
      let here : some_of (λ l. l == p) lefts ≡ true =
        rw split (some_of-append (λ l. l == p) seen (p ∷ ps) ∙ ground (arith, ==_iff p p)) in
      let rest =
        sides-unmatched_left end (seen ++ p ∷ []) ps
          (split ∙ sym (append_assoc seen (p ∷ []) ps)) in
      ground (arith, matched_left p, here, rest)

  sides-unmatched_right :
      (end : ℤ) (seen ps : List ℕ)
      → rights ≡ seen ++ ps
      → map sides (unmatched_right event end matches ps) ≡ lone_right test lefts ps
  sides-unmatched_right end seen [] split = refl
  sides-unmatched_right end seen (p ∷ ps) split =
      let here : some_of (λ r. r == p) rights ≡ true =
        rw split (some_of-append (λ r. r == p) seen (p ∷ ps) ∙ ground (arith, ==_iff p p)) in
      let rest =
        sides-unmatched_right end (seen ++ p ∷ []) ps
          (split ∙ sym (append_assoc seen (p ∷ []) ps)) in
      ground (arith, matched_right p, here, rest)

map_if :
    {A B : Type 0} (f : A → B) (b : Bool) (xs : List A) (ys : List B)
    → map f xs ≡ ys
    → map f (if b then xs else []) ≡ (if b then ys else [])
map_if f true xs ys h = h
map_if f false xs ys h = refl

module _ {V : Type 0} (event : ℕ → Event V) (kind : JoinType) (condition : Event V → Event V → Bool)
    (assigner : Assigner) (format : Format) where
  abbrev tests : ℕ → ℕ → Bool
  tests = test event kind condition assigner format

  window_results-joined :
      (state : WindowJoinState)
      → IsComplete event kind condition assigner format state
      → Perm
          (map sides (window_results event kind state))
          (joined tests kind state.left_events state.right_events)
  unfolding window_results joined
  window_results-joined state complete =
      let end = state.window.end in
      let lefts = state.left_events in
      let rights = state.right_events in
      let alone = unmatched_left event end state.matches lefts in
      let alone' = unmatched_right event end state.matches rights in
      rw
        (map-append sides (map matched_result state.matches)
          ((if keeps_left kind then alone else []) ++ (if keeps_right kind then alone' else [])))
        (rw
          (map-append sides (if keeps_left kind then alone else [])
            (if keeps_right kind then alone' else []))
          (rw
            (map_if sides (keeps_left kind) alone (lone_left tests rights lefts) (
              sides-unmatched_left event tests state.matches lefts rights complete end [] lefts
                refl))
            (rw
              (map_if sides (keeps_right kind) alone' (lone_right tests lefts rights) (
                sides-unmatched_right event tests state.matches lefts rights complete end [] rights
                  refl))
              (rw (sides-matched_result state.matches) (
                Perm.append_right
                  ((if keeps_left kind then lone_left tests rights lefts else [])
                    ++ (if keeps_right kind then lone_right tests lefts rights else []))
                  (map-Perm both complete))))))

  -- After any calls on a new operator, the results that a window fires are, up to their order, the join
  -- of the left and the right events that it holds: every pair that the condition matches, as often as
  -- it occurs, and for an outer join each event of a kept side that has no partner in the window.
  pub fired-joined :
      (calls : List Call) (key : String) (state : WindowJoinState)
      → get (run_calls event kind condition assigner format calls []) key ≡ some state
      → Perm (map sides (window_results event kind state)) (
          joined
            (test event kind condition assigner format)
            kind
            state.left_events
            state.right_events)
  fired-joined calls key state found =
      let states = run_calls event kind condition assigner format calls [] in
      let all = run_calls-AllComplete event kind condition assigner format calls [] tt in
      window_results-joined state
        (found-IsComplete event kind condition assigner format states key state all found)
