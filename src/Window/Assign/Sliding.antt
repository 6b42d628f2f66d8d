-- ===== src/Window/Assign/Sliding.antt =====
-- Sliding windows: all of them hold the timestamp, and none that does is left out but by the limit
-- of 1001.
use gress.Common.{
  ℕ, zero, suc, ◌*◌, ◌≤◌, ◌<◌, ◌≡◌, Option, none, some, Bool, if◌then◌else◌, ℤ, pos, ◌+ℤ◌, ◌-ℤ◌,
  +ℤ_parts, -ℤ_parts, ◌≤ℤ◌, ltb_ℤ, arith, All, length, eq_of_parts, ap, ◌∙◌, get_elem?, sym,
  Bool-cases, inl, inr, false,
}
use gress.Stream.{Window, sliding_window}
use gress.Window.Assign.{SlidingWindowAssigner, sliding_at, slide_from, last_start}
use gress.Window.Assign.Tumbling.{Holds, last_start_bounds}

abbrev pub sliding_of : ℕ → ℕ → ℕ → Bool → SlidingWindowAssigner
sliding_of size slide offset event_time = record {
  size = pos size;
  slide = pos slide;
  offset = pos offset;
  event_time = event_time;
}

abbrev pub window_at : ℕ → ℤ → Window
window_at size start = record { start = start; end = start +ℤ pos size; kind = sliding_window }

slide_from-Holds :
    (rounds : ℕ) (t : ℤ) (size step : ℕ) (start : ℤ)
    → start ≤ℤ t
    → All (λ w. Holds w t) (slide_from rounds t (pos size) (pos step) start)
unfolding slide_from
slide_from-Holds zero t size step start h = tt
slide_from-Holds (suc rounds) t size step start h = ground (
  arith,
  slide_from-Holds rounds t size step (start -ℤ pos step)
      (omega (arith, -ℤ_parts start (pos step))),
)

length-slide_from :
    (rounds : ℕ) (t size step start : ℤ) → length (slide_from rounds t size step start) ≤ rounds
unfolding slide_from
length-slide_from zero t size step start = omega arith
length-slide_from (suc rounds) t size step start =
    ground (arith, length-slide_from rounds t size step (start -ℤ step))

back_zero : (x : ℤ) (step : ℕ) → x -ℤ pos (0 * step) ≡ x
back_zero x step = eq_of_parts _ x (omega (arith, -ℤ_parts x (pos (0 * step))))

back_suc : (x : ℤ) (k step : ℕ) → x -ℤ pos step -ℤ pos (k * step) ≡ x -ℤ pos (suc k * step)
back_suc x k step = eq_of_parts _ _ (
    omega (
      arith,
      -ℤ_parts x (pos step),
      -ℤ_parts (x -ℤ pos step) (pos (k * step)),
      -ℤ_parts x (pos (suc k * step)),
    ))

-- The window that starts k steps before the last start, if it reaches past t.
abbrev pub reaching : ℤ → ℕ → ℤ → Option Window
reaching t size start = if ltb_ℤ t (start +ℤ pos size) then some (window_at size start) else none

not_reaching :
    (t : ℤ) (size step k : ℕ) (start : ℤ)
    → ltb_ℤ t (start +ℤ pos size) ≡ false
    → reaching t size (start -ℤ pos (k * step)) ≡ none
not_reaching t size step k start h = ground (
  arith,
  +ℤ_parts start (pos size),
  -ℤ_parts start (pos (k * step)),
  +ℤ_parts (start -ℤ pos (k * step)) (pos size),
)

get_elem?-slide_from :
    (k rounds : ℕ) (t : ℤ) (size step : ℕ) (start : ℤ)
    → k < rounds
    → get_elem? (slide_from rounds t (pos size) (pos step) start) k
      ≡ reaching t size (start -ℤ pos (k * step))
unfolding slide_from
get_elem?-slide_from k zero t size step start h = absurd (omega arith)
get_elem?-slide_from zero (suc rounds) t size step start h =
    rw (back_zero start step) (ground arith)
get_elem?-slide_from (suc k) (suc rounds) t size step start h =
    elim (Bool-cases (ltb_ℤ t (start +ℤ pos size))) [
      | inl e ↦ rw e (
          get_elem?-slide_from k rounds t size step (start -ℤ pos step) (omega arith)
          ∙ ap (reaching t size) (back_suc start k step))
      | inr e ↦ rw e (sym (not_reaching t size step (suc k) start e))
    ]

-- With an offset of at least 0 and less than the slide, every sliding window of a timestamp holds
-- it, and there are at most 1001 of them.
pub sliding_at-Holds :
    (t : ℤ) (size slide offset : ℕ) (event_time : Bool)
    → offset < slide
    → All (λ w. Holds w t) (sliding_at t (sliding_of size slide offset event_time))
      × (length (sliding_at t (sliding_of size slide offset event_time)) ≤ 1001)
unfolding sliding_at
sliding_at-Holds t size slide offset event_time h = (
  slide_from-Holds 1001 t size slide (last_start t (pos slide) (pos offset))
      (last_start_bounds t slide offset h).0,
  length-slide_from 1001 t (pos size) (pos slide) (last_start t (pos slide) (pos offset)),
)

-- With an offset of at least 0, for every k up to 1000, the k-th sliding window of a timestamp
-- is the one that starts k slides before its last start, if that one reaches past the timestamp;
-- and if it does not, there is none.
pub get_elem?-sliding_at :
    (t : ℤ) (size slide offset k : ℕ) (event_time : Bool)
    → k < 1001
    → get_elem? (sliding_at t (sliding_of size slide offset event_time)) k
      ≡ reaching t size (last_start t (pos slide) (pos offset) -ℤ pos (k * slide))
unfolding sliding_at
get_elem?-sliding_at t size slide offset k event_time h =
    get_elem?-slide_from k 1001 t size slide (last_start t (pos slide) (pos offset)) h
