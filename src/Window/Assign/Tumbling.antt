-- ===== src/Window/Assign/Tumbling.antt =====
-- Tumbling windows: the window of a timestamp holds it, and the windows do not overlap.
use native.Mathlib.Decide.{dec_lt, dec_le}
use native.Mathlib.Nat.{mod-eq_of_lt, mod-lt, mod_self, mod-add-div', sub-zero}
use gress.Common.{
  ℕ, zero, suc, ◌+◌, ◌-◌, ◌%◌, ◌*◌, ◌/◌, ◌≤◌, ◌<◌, ◌≡◌, Bool, true, false, if◌then◌else◌, ℤ, pos,
  negsuc, ◌+ℤ◌, ◌-ℤ◌, +ℤ_parts, -ℤ_parts, ◌≤ℤ◌, ◌<ℤ◌, ltb_ℤ, arith, pos_part, neg_part, eq_of_parts,
  ap, sym,
}
use gress.Stream.{Window, tumbling_window}
use gress.Window.Assign.{TumblingWindowAssigner, tumbling_at, last_start, truncate, remainder}

remainder-lt : (t : ℤ) (d : ℕ) → remainder t (suc d) < suc d
unfolding remainder
remainder-lt (pos n) d = omega arith
remainder-lt (negsuc n) d = omega arith

-- The timestamp lies in the window of its last start.
abbrev pub Holds : Window → ℤ → Type 0
Holds w t = (w.start ≤ℤ t) × (t <ℤ w.end)

pick_bounds :
    (t : ℤ) (r step offset : ℕ)
    → r < step
    → offset < step
    → let start = t -ℤ pos r +ℤ pos offset in
      let s = if ltb_ℤ t start then start -ℤ pos step else start in (s ≤ℤ t) × (t <ℤ s +ℤ pos step)
pick_bounds t r step offset hr ho =
    let base = t -ℤ pos r in
    let start = base +ℤ pos offset in
    ground (
      arith,
      -ℤ_parts t (pos r),
      +ℤ_parts base (pos offset),
      -ℤ_parts start (pos step),
      +ℤ_parts start (pos step),
      +ℤ_parts (start -ℤ pos step) (pos step),
    )

pub last_start_bounds :
    (t : ℤ) (step offset : ℕ)
    → offset < step
    → (last_start t (pos step) (pos offset) ≤ℤ t)
      × (t <ℤ last_start t (pos step) (pos offset) +ℤ pos step)
unfolding last_start truncate
last_start_bounds t zero offset h = absurd (omega arith)
last_start_bounds t (suc d) offset h =
    pick_bounds t (remainder t (suc d)) (suc d) offset (remainder-lt t d) h

-- x is a multiple of d: x + k * d = j * d.
IsMultiple : ℕ → ℤ → Type 0
IsMultiple d x = (j : ℕ) × (k : ℕ) × (pos_part x + k * d ≡ neg_part x + j * d)

-- Filling a number up to the next multiple of d.
round_up : (n d : ℕ) → 0 < d → (k : ℕ) × (n + (d - n % d) % d ≡ k * d)
round_up n d h = elim (dec_lt 0 (n % d)) [
  | yes some_left ↦ (
    n / d + 1,
    rw (mod-eq_of_lt {n = d - n % d} {m = d} (omega arith))
        (omega (arith, mod-add-div' n d, mod-lt n h)),
  )
  | no none_left ↦ (n / d, fill (n % d) (omega arith) (mod-add-div' n d))
]
  where
    fill : (r : ℕ) → r ≡ 0 → r + n / d * d ≡ n → n + (d - r) % d ≡ n / d * d
    fill r e f = rw e (rw (sub-zero) (rw (mod_self) (omega arith)))

truncate-IsMultiple : (t : ℤ) (d : ℕ) → IsMultiple (suc d) (truncate t (pos (suc d)))
unfolding truncate IsMultiple
truncate-IsMultiple (pos n) d =
    (n / suc d, 0, omega (arith, -ℤ_parts (pos n) (pos (n % suc d)), mod-add-div' n (suc d)))
truncate-IsMultiple (negsuc n) d =
    let (k, e) = round_up (n + 1) (suc d) (omega arith) in
    (0, k, omega (arith, e, -ℤ_parts (negsuc n) (pos ((suc d - (n + 1) % suc d) % suc d))))

same_multiple : (a b d : ℕ) → b * d ≤ a * d → a * d < b * d + d → a ≡ b
same_multiple a b d h k = grind (arith, mul_le a b d, mul_le b a d)
  where
    mul_le : (m n p : ℕ) → m < n → m * p + p ≤ n * p
    mul_le m n p l = grind arith

-- Two multiples of d that are less than d apart are the same.
multiples_apart :
    (d : ℕ) (x y : ℤ) → IsMultiple d x → IsMultiple d y → x ≤ℤ y → y <ℤ x +ℤ pos d → x ≡ y
unfolding IsMultiple
multiples_apart d x y (j, k, e) (i, l, f) h lt =
    let near : pos_part y + neg_part x < pos_part x + neg_part y + d =
      omega (arith, +ℤ_parts x (pos d)) in
    let same : i + k ≡ l + j = same_multiple (i + k) (l + j) d (omega arith) (omega arith) in
    eq_of_parts x y (omega (arith, ap (λ (m : ℕ). m * d) same))

step_back :
    (x : ℤ) (d offset : ℕ)
    → IsMultiple (suc d) x
    → (b : Bool)
    → IsMultiple
        (suc d)
        ((if b then x +ℤ pos offset -ℤ pos (suc d) else x +ℤ pos offset) -ℤ pos offset)
unfolding IsMultiple
step_back x d offset (j, k, e) true =
    let start = x +ℤ pos offset in
    (
      j,
      k + 1,
      omega (
        arith,
        e,
        +ℤ_parts x (pos offset),
        -ℤ_parts start (pos (suc d)),
        -ℤ_parts (start -ℤ pos (suc d)) (pos offset),
      ),
    )
step_back x d offset (j, k, e) false =
    let start = x +ℤ pos offset in
    (j, k, omega (arith, e, +ℤ_parts x (pos offset), -ℤ_parts start (pos offset)))

last_start-IsMultiple :
    (t : ℤ) (d offset : ℕ)
    → IsMultiple (suc d) (last_start t (pos (suc d)) (pos offset) -ℤ pos offset)
unfolding last_start
last_start-IsMultiple t d offset =
    step_back (truncate t (pos (suc d))) d offset (truncate-IsMultiple t d)
      (ltb_ℤ t (truncate t (pos (suc d)) +ℤ pos offset))

cancel_offset : (x y o : ℤ) → x -ℤ o ≡ y -ℤ o → x ≡ y
cancel_offset x y o e =
    eq_of_parts x y (omega (arith, -ℤ_parts x o, -ℤ_parts y o, ap pos_part e, ap neg_part e))

-- Two last starts that are less than a step apart are the same.
starts_apart :
    (t u : ℤ) (step offset : ℕ)
    → 0 < step
    → last_start t (pos step) (pos offset) ≤ℤ last_start u (pos step) (pos offset)
    → last_start u (pos step) (pos offset) <ℤ last_start t (pos step) (pos offset) +ℤ pos step
    → last_start t (pos step) (pos offset) ≡ last_start u (pos step) (pos offset)
starts_apart t u zero offset h le lt = absurd (omega arith)
starts_apart t u (suc d) offset h le lt =
    let x = last_start t (pos (suc d)) (pos offset) in
    let y = last_start u (pos (suc d)) (pos offset) in
    cancel_offset x y (pos offset) (
      multiples_apart (suc d) (x -ℤ pos offset) (y -ℤ pos offset) (last_start-IsMultiple t d offset)
        (last_start-IsMultiple u d offset)
        (omega (arith, le, -ℤ_parts x (pos offset), -ℤ_parts y (pos offset)))
        (omega (
          arith,
          lt,
          -ℤ_parts x (pos offset),
          -ℤ_parts y (pos offset),
          +ℤ_parts x (pos (suc d)),
          +ℤ_parts (x -ℤ pos offset) (pos (suc d)),
        )))

abbrev pub tumbling_of : ℕ → ℕ → Bool → TumblingWindowAssigner
tumbling_of size offset event_time = record {
  size = pos size;
  offset = pos offset;
  event_time = event_time;
}

-- With an offset of at least 0 and less than the size, the tumbling window of a timestamp holds it:
-- its start is not after it and its end is.
pub tumbling_at-Holds :
    (t : ℤ) (size offset : ℕ) (event_time : Bool)
    → offset < size
    → Holds (tumbling_at t (tumbling_of size offset event_time)) t
unfolding tumbling_at
tumbling_at-Holds t size offset event_time h = last_start_bounds t size offset h

-- With an offset of at least 0 and less than the size, any timestamp that the tumbling window of
-- t holds has the same window as t, for times before the zero time too.
pub tumbling_at_disjoint :
    (t u : ℤ) (size offset : ℕ) (event_time : Bool)
    → offset < size
    → Holds (tumbling_at t (tumbling_of size offset event_time)) u
    → tumbling_at u (tumbling_of size offset event_time)
      ≡ tumbling_at t (tumbling_of size offset event_time)
unfolding tumbling_at
tumbling_at_disjoint t u size offset event_time h (from, to) =
    let x = last_start t (pos size) (pos offset) in
    let y = last_start u (pos size) (pos offset) in
    let (below, above) = last_start_bounds u size offset h in
    elim (dec_le (pos_part x + neg_part y) (pos_part y + neg_part x)) [
      | yes le ↦ same_start (sym (starts_apart t u size offset (omega arith) le (omega arith)))
      | no gt ↦ same_start (starts_apart u t size offset (omega arith) (omega arith) (omega arith))
    ]
  where
    same_start :
        last_start u (pos size) (pos offset) ≡ last_start t (pos size) (pos offset)
        → tumbling_at u (tumbling_of size offset event_time)
          ≡ tumbling_at t (tumbling_of size offset event_time)
    same_start e =
        ap
          (λ (s : ℤ).
            let w : Window = record { start = s; end = s +ℤ pos size; kind = tumbling_window } in w)
          e

-- With an offset of -(k + 1), the window of a timestamp that is k + 1 or less before a multiple of
-- the size ends at or before the timestamp: it does not hold it.
pub tumbling_at_negative_offset :
    (t : ℤ) (d k : ℕ) (event_time : Bool)
    → suc d ≤ remainder t (suc d) + suc k
    → (tumbling_at t
        (record { size = pos (suc d); offset = negsuc k; event_time = event_time })).end
      ≤ℤ t
unfolding tumbling_at last_start truncate
tumbling_at_negative_offset t d k event_time h =
    let r = remainder t (suc d) in
    let base = t -ℤ pos r in
    let start = base +ℤ negsuc k in
    ground (
      arith,
      -ℤ_parts t (pos r),
      +ℤ_parts base (negsuc k),
      -ℤ_parts start (pos (suc d)),
      +ℤ_parts start (pos (suc d)),
      +ℤ_parts (start -ℤ pos (suc d)) (pos (suc d)),
    )
