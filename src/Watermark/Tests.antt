-- ===== src/Watermark/Tests.antt =====
-- Two partitions, with times in seconds.
use gress.Common.{
  ℕ, ◌*◌, ◌≡◌, ◌⊎◌, refl, true, none, some, List, [], ◌∷◌, ℤ, pos, arith, ◌-ℤ◌, ◌+ℤ◌, ◌≤ℤ◌, ◌<ℤ◌,
  sub_time, int_key,
}
use gress.Common.Dict.{get, put}
use gress.Watermark.{Manager, new_manager, is_late, generate_watermarks, Channel, mark_of}
use gress.Watermark.Idle.{history, expected_mark, marks-generate_watermarks}
use gress.Watermark.Lateness.{Update, update_all, is_overtaken, is_late_iff_overtaken}
use gress.Watermark.Global.{
  update, generate, run_calls, global_watermark_monotone, global_watermark-IsBehind,
  idle_mark_falls, generate_watermarks_sends, watermarks_of, IsBehind,
}

abbrev secs : ℕ → ℤ
secs n = pos (n * 1000000000)

abbrev out : Channel
out = record { sent = []; capacity = 10 }

abbrev two : Manager
two = record (new_manager (secs 1)) {
  partition_marks = (pos 0, secs 95) ∷ (pos 1, secs 85) ∷ [];
  last_event_time = (pos 0, secs 100) ∷ (pos 1, secs 90) ∷ [];
  global_watermark = secs 80;
  idle_timeout = secs 30;
}

two_reached :
    (update_all ((pos 0, secs 100) ∷ (pos 1, secs 90) ∷ []) (new_manager (secs 1))).partition_marks
    ≡ two.partition_marks
unfolding update_all new_manager get put mark_of ◌-ℤ◌
two_reached = refl

generates : (generate_watermarks (secs 101) two out).0.global_watermark ≡ secs 85
unfolding generate_watermarks sub_time get
generates = refl

is_late_iff_overtaken_example :
    is_late
      (secs 94)
      (pos 0)
      (update_all ((pos 0, secs 100) ∷ (pos 1, secs 90) ∷ []) (new_manager (secs 1)))
    ≡ is_overtaken (secs 94) (pos 0) ((pos 0, secs 100) ∷ (pos 1, secs 90) ∷ [])
is_late_iff_overtaken_example =
    is_late_iff_overtaken (secs 94) (pos 0) (secs 1) ((pos 0, secs 100) ∷ (pos 1, secs 90) ∷ [])

overtaken_94 : is_overtaken (secs 94) (pos 0) ((pos 0, secs 100) ∷ (pos 1, secs 90) ∷ []) ≡ true
unfolding is_overtaken mark_of ◌-ℤ◌
overtaken_94 = refl

global_watermark_monotone_example :
    secs 80
    ≤ℤ (run_calls
        (generate (secs 101) ∷ update (pos 1) (secs 99) ∷ generate (secs 102) ∷ [])
        (two, out)).0.global_watermark
global_watermark_monotone_example =
    global_watermark_monotone
      (generate (secs 101) ∷ update (pos 1) (secs 99) ∷ generate (secs 102) ∷ []) two out
      (omega arith)

global_watermark-IsBehind_example :
    let m' = (generate_watermarks (secs 101) two out).0 in
    (m'.global_watermark ≡ secs 80) ⊎ IsBehind m'.global_watermark m'.partition_marks
global_watermark-IsBehind_example =
    global_watermark-IsBehind (secs 101) two out
      (unfold generate_watermarks sub_time get in (omega arith, (omega arith, tt)))

-- The mark of partition 0 is at 95 seconds when an event of 20 seconds comes.
abbrev disordered : Manager
disordered = record two { last_event_time = (pos 0, secs 20) ∷ (pos 1, secs 90) ∷ [] }

idle_mark_falls_example :
    (get (generate_watermarks (secs 101) disordered out).0.partition_marks (pos 0)
      ≡ some (secs 101 -ℤ secs 30))
    × (secs 101 -ℤ secs 30 <ℤ secs 95)
idle_mark_falls_example =
    idle_mark_falls (secs 101) (pos 0) (secs 95) disordered out (unfold get in refl)
      (unfold sub_time get in refl) (unfold ◌-ℤ◌ in omega arith)

-- Partition 0 gets events of 100 and 20 seconds.
abbrev arrivals : List Update
arrivals = (pos 0, secs 100) ∷ (pos 1, secs 90) ∷ (pos 0, secs 20) ∷ []

marks-generate_watermarks_example :
    get
      (generate_watermarks
        (secs 101)
        (update_all arrivals (new_manager (secs 1)))
        out).0.partition_marks
      (pos 0)
    ≡ expected_mark (secs 101) (history (pos 0) arrivals)
marks-generate_watermarks_example =
    marks-generate_watermarks (secs 101) (pos 0) (secs 1) arrivals out

-- The mark of partition 0 goes to 71 seconds, the one of partition 1 stays at 85 seconds.
idle_arrivals :
    (expected_mark (secs 101) (history (pos 0) arrivals) ≡ some (secs 71))
    × (expected_mark (secs 101) (history (pos 1) arrivals) ≡ some (secs 85))
    × (expected_mark (secs 101) (history (pos 2) arrivals) ≡ none)
unfolding history ◌+ℤ◌ ◌-ℤ◌
idle_arrivals = (refl, refl, refl)

generate_watermarks_sends_example :
    let (m', output') = generate_watermarks (secs 101) two out in
    output'.sent ≡ watermarks_of m'.partition_marks
generate_watermarks_sends_example = generate_watermarks_sends (secs 101) two out (omega arith)
