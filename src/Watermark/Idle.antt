-- ===== src/Watermark/Idle.antt =====
-- The marks of the partitions after any event times and one generation, read off the event times alone.
use gress.Common.{
  ◌≡◌, refl, ap, ◌∙◌, Option, none, some, List, [], ◌∷◌, if◌then◌else◌, ℤ, pos, ◌+ℤ◌, ◌-ℤ◌,
  +ℤ_parts, -ℤ_parts, eqb_ℤ, eqb_ℤ_iff, ltb_ℤ, arith, Bool-cases, inl, inr, zero_time, sub_time,
  int_key,
}
use gress.Common.Dict.{get, put, get-put}
use gress.Watermark.{
  Manager, update_event_time, generate_watermarks, Channel, mark_of, advances, new_manager, refresh,
}
use gress.Watermark.Lateness.{Update, update_all}
use gress.Watermark.Global.{refreshed, get-scan}

-- What the event times of a partition have been: the one that came last, and the greatest.
pub record History : Type 0 where
  pub last : ℤ
  pub greatest : ℤ

abbrev pub preceded : ℤ → Option History → History
preceded time none = record { last = time; greatest = time }
preceded time (some h) = record {
  last = h.last;
  greatest = if ltb_ℤ time h.greatest then h.greatest else time;
}

unfoldable pub history : ℤ → List Update → Option History
history partition [] = none
history partition ((q, time) ∷ us) =
    let later = history partition us in
    if eqb_ℤ q partition then some (preceded time later) else later

-- No mark before the first event; thirty seconds before the present, if the event that came last is
-- earlier than that; otherwise five seconds before the greatest event time.
abbrev pub expected_mark : ℤ → Option History → Option ℤ
expected_mark now none = none
expected_mark now (some h) = some (
    if ltb_ℤ (h.last +ℤ pos 30000000000) now
    then now -ℤ pos 30000000000
    else h.greatest -ℤ pos 5000000000)

abbrev last_of : Option History → Option ℤ → Option ℤ
last_of none before = before
last_of (some h) before = some h.last

abbrev raised : Option History → Option ℤ → Option ℤ
raised none before = before
raised (some h) none = some (mark_of h.greatest)
raised (some h) (some current) =
    some (if ltb_ℤ current (mark_of h.greatest) then mark_of h.greatest else current)

raised-preceded :
    (time : ℤ) (later : Option History) (before : Option ℤ)
    → raised later (raised (some (preceded time none)) before)
      ≡ raised (some (preceded time later)) before
unfolding mark_of
raised-preceded time none before = refl
raised-preceded time (some h) none =
    ground (arith, -ℤ_parts time (pos 5000000000), -ℤ_parts h.greatest (pos 5000000000))
raised-preceded time (some h) (some current) =
    ground (arith, -ℤ_parts time (pos 5000000000), -ℤ_parts h.greatest (pos 5000000000))

last_of-preceded :
    (time : ℤ) (later : Option History) (before : Option ℤ)
    → last_of later (some time) ≡ last_of (some (preceded time later)) before
last_of-preceded time none before = refl
last_of-preceded time (some h) before = refl

module _ (partition : ℤ) where
  mark-update :
      (q time : ℤ) (m : Manager) (o : Option ℤ)
      → get m.partition_marks q ≡ o
      → get
          (if advances (mark_of time) o
            then put m.partition_marks q (mark_of time)
            else m.partition_marks)
          partition
        ≡ (if eqb_ℤ q partition
            then raised (some (preceded time none)) o
            else get m.partition_marks partition)
  mark-update q time m none e =
      ground (arith, get-put m.partition_marks q partition (mark_of time), eqb_ℤ_iff q partition)
  mark-update q time m (some current) e = ground (
    arith,
    get-put m.partition_marks q partition (mark_of time),
    eqb_ℤ_iff q partition,
    ap (get m.partition_marks),
    e,
  )

  mark-update_event_time :
      (q time : ℤ) (m : Manager)
      → get (update_event_time q time m).partition_marks partition ≡ (
          if eqb_ℤ q partition
          then raised (some (preceded time none)) (get m.partition_marks partition)
          else get m.partition_marks partition)
  unfolding update_event_time
  mark-update_event_time q time m = elim (Bool-cases (eqb_ℤ q partition)) [
    | inl e ↦
        let same : q ≡ partition = (eqb_ℤ_iff q partition).0 e in
        mark-update q time m (get m.partition_marks q) refl
        ∙ rw e (ap (λ k. raised (some (preceded time none)) (get m.partition_marks k)) same)
    | inr e ↦ mark-update q time m (get m.partition_marks q) refl ∙ rw e refl
  ]

  mark-update_all :
      (us : List Update) (m : Manager)
      → get (update_all us m).partition_marks partition
        ≡ raised (history partition us) (get m.partition_marks partition)
  unfolding update_all history
  mark-update_all [] m = refl
  mark-update_all ((q, time) ∷ us) m =
      let later = history partition us in
      mark-update_all us (update_event_time q time m)
      ∙ (ap (raised later) (mark-update_event_time q time m)
          ∙ elim (Bool-cases (eqb_ℤ q partition)) [
            | inl e ↦ rw e (raised-preceded time later (get m.partition_marks partition))
            | inr e ↦ rw e refl
          ])

  last-update_all :
      (us : List Update) (m : Manager)
      → get (update_all us m).last_event_time partition
        ≡ last_of (history partition us) (get m.last_event_time partition)
  unfolding update_all history update_event_time
  last-update_all [] m = refl
  last-update_all ((q, time) ∷ us) m =
      let later = history partition us in
      last-update_all us (update_event_time q time m)
      ∙ (ap (last_of later) (get-put m.last_event_time q partition time)
          ∙ elim (Bool-cases (eqb_ℤ q partition)) [
            | inl e ↦ rw e (last_of-preceded time later (get m.last_event_time partition))
            | inr e ↦ rw e refl
          ])

idle_timeout-update_all :
    (us : List Update) (m : Manager) → (update_all us m).idle_timeout ≡ m.idle_timeout
unfolding update_all update_event_time
idle_timeout-update_all [] m = refl
idle_timeout-update_all ((q, time) ∷ us) m = idle_timeout-update_all us (update_event_time q time m)

refreshed-expected :
    (now partition : ℤ) (m : Manager) (h : Option History)
    → m.idle_timeout ≡ pos 30000000000
    → get m.last_event_time partition ≡ last_of h none
    → refreshed now m partition (raised h none) ≡ expected_mark now h
unfolding refresh sub_time mark_of
refreshed-expected now partition m none timeout last = refl
refreshed-expected now partition m (some h) timeout last =
    rw timeout (rw last (ground (arith, -ℤ_parts now h.last, +ℤ_parts h.last (pos 30000000000))))

-- After any event times on a new manager, a generation leaves a partition without events without a
-- mark. The mark of any other partition is thirty seconds before the present, if the event of the
-- partition that came last is more than thirty seconds before the present, even where an event of it
-- that came earlier is more recent; otherwise it is five seconds before its greatest event time.
pub marks-generate_watermarks :
    (now partition interval : ℤ) (us : List Update) (output : Channel)
    → get
        (generate_watermarks now (update_all us (new_manager interval)) output).0.partition_marks
        partition
      ≡ expected_mark now (history partition us)
unfolding generate_watermarks new_manager get
marks-generate_watermarks now partition interval us output =
    let m = update_all us (new_manager interval) in
    get-scan now partition m m.partition_marks zero_time output
    ∙ (ap (refreshed now m partition) (mark-update_all partition us (new_manager interval))
        ∙ refreshed-expected now partition m (history partition us)
            (idle_timeout-update_all us (new_manager interval))
            (last-update_all partition us (new_manager interval)))
