-- ===== src/Watermark/Lateness.antt =====
-- When an event counts as late, after any sequence of event times.
use gress.Common.{
  ◌≡◌, refl, ◌∙◌, Bool, false, ◌&&◌, ◌||◌, Option, none, some, List, [], ◌∷◌, if◌then◌else◌, ℤ,
  eqb_ℤ, eqb_ℤ_iff, ltb_ℤ, arith, int_key,
}
use gress.Common.Dict.{Dict, get, put, get-put}
use gress.Watermark.{
  Manager, update_event_time, is_late, mark_of, before_mark, advances, new_manager,
}

-- One call of UpdateEventTime: the partition and the event time.
abbrev pub Update : Type 0
Update = ℤ × ℤ

unfoldable pub update_all : List Update → Manager → Manager
unfolding update_event_time
update_all [] m = m
update_all ((partition, time) ∷ us) m = update_all us (update_event_time partition time m)

-- Some update of the partition is more than five seconds later than the event.
unfoldable pub is_overtaken : ℤ → ℤ → List Update → Bool
is_overtaken event_time partition [] = false
is_overtaken event_time partition ((q, time) ∷ us) =
    (eqb_ℤ q partition && ltb_ℤ event_time (mark_of time)) || is_overtaken event_time partition us

module _ (event_time partition : ℤ) where
  advanced :
      (q mark : ℤ) (marks : Dict ℤ ℤ) (o : Option ℤ)
      → get marks q ≡ o
      → before_mark event_time (get (if advances mark o then put marks q mark else marks) partition)
        ≡ ((eqb_ℤ q partition && ltb_ℤ event_time mark)
            || before_mark event_time (get marks partition))
  advanced q mark marks none e =
      ground (arith, get-put marks q partition mark, eqb_ℤ_iff q partition)
  advanced q mark marks (some current) e =
      ground (arith, get-put marks q partition mark, eqb_ℤ_iff q partition)

  is_late-update :
      (q time : ℤ) (m : Manager)
      → is_late event_time partition (update_event_time q time m)
        ≡ ((eqb_ℤ q partition && ltb_ℤ event_time (mark_of time)) || is_late event_time partition m)
  unfolding is_late update_event_time
  is_late-update q time m = advanced q (mark_of time) m.partition_marks _ refl

  is_late-update_all :
      (us : List Update) (m : Manager)
      → is_late event_time partition (update_all us m)
        ≡ (is_overtaken event_time partition us || is_late event_time partition m)
  unfolding update_all is_overtaken
  is_late-update_all [] m = refl
  is_late-update_all ((q, time) ∷ us) m =
      is_late-update_all us (update_event_time q time m) ∙ ground (arith, is_late-update q time m)

-- After any event times on a new manager an event is late exactly when some event of its partition
-- was more than five seconds later, in whatever order they came.
pub is_late_iff_overtaken :
    (event_time partition interval : ℤ) (us : List Update)
    → is_late event_time partition (update_all us (new_manager interval))
      ≡ is_overtaken event_time partition us
unfolding new_manager is_late get
is_late_iff_overtaken event_time partition interval us =
    is_late-update_all event_time partition us (new_manager interval) ∙ ground arith
