-- ===== src/Window/Trigger/Counting.antt =====
-- A count trigger fires once for every run of as many elements as its limit.
use native.Mathlib.Decide.{dec_lt}
use native.Mathlib.Nat.{mul-add-div_right, div-eq_of_lt, mod-add-div'}
use gress.Common.{ap, ℕ, zero, suc, ◌+◌, ◌*◌, ◌/◌, ◌%◌, ◌<◌, ◌≡◌, refl, pos, arith, ◌∙◌}
use gress.Window.Trigger.{
  TriggerResult, continue_, fire, CountState, new_count_trigger, count_element,
}

abbrev count_fire : TriggerResult → ℕ → ℕ
count_fire fire n = suc n
count_fire _ n = n

-- The state after n elements, and how often the trigger has fired.
pub count_elements : ℕ → CountState → ℕ → CountState × ℕ
count_elements zero s fired = (s, fired)
count_elements (suc n) s fired =
    let (s', result) = count_element s in count_elements n s' (count_fire result fired)

abbrev counted : ℕ → ℕ → CountState
counted limit count = record { max_count = pos limit; count = pos count }

count_below :
    (limit count : ℕ)
    → count + 1 < limit
    → count_element (counted limit count) ≡ (counted limit (count + 1), continue_)
unfolding count_element
count_below limit count h = ground arith

count_last :
    (limit count : ℕ)
    → count + 1 ≡ limit
    → count_element (counted limit count) ≡ (counted limit 0, fire)
unfolding count_element
count_last limit count h = ground arith

-- The count and the number of fires after n elements account for all of them.
count_elements_sum :
    (n limit count fired total : ℕ)
    → count < limit
    → fired * limit + count + n ≡ total
    → (count' : ℕ) × (fired' : ℕ) × (count_elements n (counted limit count) fired
        ≡ (counted limit count', fired'))
      × (count' < limit)
      × (fired' * limit + count' ≡ total)
unfolding count_elements
count_elements_sum zero limit count fired total h e = (count, fired, refl, h, omega arith)
count_elements_sum (suc n) limit count fired total h e = elim (dec_lt (count + 1) limit) [
  | yes lt ↦
      rw (count_below limit count lt)
        (count_elements_sum n limit (count + 1) fired total lt (omega arith))
  | no ge ↦
      rw (count_last limit count (omega arith))
        (count_elements_sum n limit 0 (suc fired) total (omega arith) (omega arith))
]

-- With a positive limit, after n elements of whatever windows the trigger has fired n / limit times
-- and its count is n % limit.
pub count_elements_div :
    (n limit : ℕ)
    → 0 < limit
    → count_elements n (new_count_trigger (pos limit)) 0
      ≡ (record { max_count = pos limit; count = pos (n % limit) }, n / limit)
unfolding new_count_trigger
count_elements_div n limit h =
    let (count, fired, e, below, sum) = count_elements_sum n limit 0 0 n h (omega arith) in
    let (q, r) = split count fired below sum in e ∙ rw (q, r)
  where
    split :
        (count fired : ℕ)
        → count < limit
        → fired * limit + count ≡ n
        → (fired ≡ n / limit) × (count ≡ n % limit)
    split count fired below sum =
        let quotient : n / limit ≡ fired + count / limit =
          rw (← sum) (mul-add-div_right h fired count) in
        let fewer : fired ≡ n / limit = omega (arith, quotient, div-eq_of_lt below) in
        (fewer, omega (arith, sum, mod-add-div' n limit, ap (λ (m : ℕ). m * limit) fewer))
