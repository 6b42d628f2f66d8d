-- ===== src/Operators/Tests.antt =====
-- The operators at concrete inputs.
use gress.Common.{
  if◌then◌else◌, ℕ, ◌+◌, ◌≡◌, refl, String, Bool, Option, none, some, List, [], ◌∷◌, pos,
  string_key, ltb, ◌==◌,
}
use gress.Common.Dict.{get, put}
use gress.Stream.{Event}
use gress.Operators.{aggregate_process, output_event, current, new_branches}
use gress.Operators.Keyed.{
  aggregate_all, answer, fold, select, aggregate_process-fold, reduce_all, combine,
  reduce_all-combine,
}
use gress.Operators.Branches.{branch_all, output_of, first_hundred, get-branch_all-new}

abbrev click : String → ℕ → Event ℕ
click key value = record {
  key = key;
  value = value;
  event_time = pos 7;
  headers = [];
  offset = pos 0;
  partition = pos 0;
}

abbrev clicks : List (Event ℕ)
clicks = click "a" 1 ∷ click "" 2 ∷ click "a" 9 ∷ click "a" 4 ∷ []

-- A sum that refuses a 9.
abbrev sum : ℕ → Event ℕ → ℕ × Option String
sum a event = if event.value == 9 then (0, some "nine") else (a + event.value, none)

sum_of_a :
    aggregate_process 0 sum (click "a" 5) (("a", 5) ∷ ("default", 2) ∷ [])
    ≡ (("a", 10) ∷ ("default", 2) ∷ [], output_event "a" 10 (click "a" 5) ∷ [], none)
unfolding aggregate_process get put
sum_of_a = refl

aggregate_process-fold_example :
    let (state, results, failure) =
      aggregate_process 0 sum (click "a" 5) (aggregate_all 0 sum clicks []) in
    (results, failure)
    ≡ answer 0 sum "a" (click "a" 5) (sum (fold 0 sum 0 (select "a" clicks)) (click "a" 5))
aggregate_process-fold_example = aggregate_process-fold 0 sum clicks (click "a" 5)

abbrev add : ℕ → ℕ → ℕ × Option String
add m n = if n == 9 then (0, some "nine") else (m + n, none)

abbrev is_zero_value : ℕ → Bool
is_zero_value n = n == 0

reduce_all-combine_example :
    current is_zero_value (get (reduce_all is_zero_value add clicks []) "a")
    ≡ combine is_zero_value add none (select "a" clicks)
reduce_all-combine_example = reduce_all-combine is_zero_value add clicks "a"

abbrev is_small : Event ℕ → Bool
is_small event = ltb event.value 3

get-branch_all-new_example :
    output_of (get (branch_all clicks (new_branches (("small", is_small) ∷ []))) "small")
    ≡ first_hundred clicks (some is_small)
unfolding get
get-branch_all-new_example = get-branch_all-new clicks (("small", is_small) ∷ []) "small"
