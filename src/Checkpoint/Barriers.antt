-- ===== src/Checkpoint/Barriers.antt =====
-- When all partitions have reached the barrier.
use gress.Common.{
  ◌≡◌, refl, ap, ◌∙◌, Bool, true, false, ◌&&◌, ◌||◌, List, [], ◌∷◌, ℤ, arith, int_key,
}
use gress.Common.Dict.{get, put, get-put}
use gress.Checkpoint.{Barriers, align_barrier, all_aligned, reset_barriers, is_true}

pub data BarrierCall : Type 0 where
  align : ℤ → BarrierCall
  reset : BarrierCall

pub run_barriers : List BarrierCall → Barriers → Barriers
run_barriers [] barriers = barriers
run_barriers (align partition ∷ calls) barriers =
    run_barriers calls (align_barrier partition barriers)
run_barriers (reset ∷ calls) barriers = run_barriers calls (reset_barriers barriers)

-- Has the partition been aligned since the last reset? `before` is whether it was before the calls.
abbrev pub aligned_since : ℤ → List BarrierCall → Bool → Bool
aligned_since p [] before = before
aligned_since p (align partition ∷ calls) before =
    aligned_since p calls (int_key.beq partition p || before)
aligned_since p (reset ∷ calls) before = aligned_since p calls false

abbrev pub every : (ℤ → Bool) → List ℤ → Bool
every test [] = true
every test (p ∷ partitions) = test p && every test partitions

marked :
    (calls : List BarrierCall) (p : ℤ) (barriers : Barriers)
    → is_true (get (run_barriers calls barriers) p)
      ≡ aligned_since p calls (is_true (get barriers p))
unfolding run_barriers align_barrier reset_barriers get
marked [] p barriers = refl
marked (align q ∷ calls) p barriers =
    marked calls p (put barriers q true)
    ∙ ap (aligned_since p calls) (ap is_true (get-put barriers q p true) ∙ ground arith)
marked (reset ∷ calls) p barriers = marked calls p []

-- After any calls of AlignBarrier and Reset on a new coordinated checkpoint, AllAligned answers true
-- exactly if each of the partitions has been aligned since the last Reset.
pub all_aligned-every :
    (calls : List BarrierCall) (partitions : List ℤ)
    → all_aligned partitions (run_barriers calls [])
      ≡ every (λ p. aligned_since p calls false) partitions
unfolding all_aligned get
all_aligned-every calls [] = refl
all_aligned-every calls (p ∷ partitions) =
    ap (λ b. b && all_aligned partitions (run_barriers calls [])) (marked calls p [])
    ∙ ap (λ b. aligned_since p calls false && b) (all_aligned-every calls partitions)
