-- ===== src/Watermark/Global.antt =====
-- The global watermark: it never falls, it stays behind every partition, and that the mark
-- of an idle partition can fall.
use mathlib.Core.List.{append-nil, append_assoc}
use gress.Common.{
  eqb_ℤ_iff, ◌∙◌, ◌+◌, ◌≤◌, ◌<◌, ◌≡◌, ◌⊎◌, inl, inr, refl, Bool, true, false, ◌||◌, Option, none,
  some, List, [], ◌∷◌, ◌++◌, ℤ, pos, ◌-ℤ◌, ◌≤ℤ◌, ◌<ℤ◌, ltb_ℤ, Bool-cases, arith, zero_time, is_zero,
  sub_time, All, length, int_key, length-append,
}
use gress.Common.Dict.{Dict, get}
use gress.Stream.{Watermark}
use gress.Watermark.{
  Manager, update_event_time, generate_watermarks, Channel, send, scan, lower, refresh,
  raise_global, is_empty, or_zero,
}

pub data Call : Type 0 where
  update : ℤ → ℤ → Call
  generate : ℤ → Call

-- The manager and its output channel after one call.
pub step : Call → Manager × Channel → Manager × Channel
step (update partition time) (m, output) = (update_event_time partition time m, output)
step (generate now) (m, output) = generate_watermarks now m output

unfoldable pub run_calls : List Call → Manager × Channel → Manager × Channel
unfolding step
run_calls [] s = s
run_calls (c ∷ cs) s = run_calls cs (step c s)

raise_global-le :
    (empty : Bool) (least global : ℤ) → pos 0 <ℤ global → global ≤ℤ raise_global empty least global
unfolding raise_global
raise_global-le empty least global h = ground arith

step-le :
    (c : Call) (m : Manager) (output : Channel)
    → pos 0 <ℤ m.global_watermark
    → m.global_watermark ≤ℤ (step c (m, output)).0.global_watermark
unfolding step update_event_time generate_watermarks
step-le (update partition time) m output h = omega arith
step-le (generate now) m output h =
    raise_global-le (is_empty m.partition_marks)
      (scan now m.idle_timeout m.last_event_time m.partition_marks zero_time output).least
      m.global_watermark h

-- Once the global watermark is past the zero time, no sequence of event times and generations, at
-- any readings of the clock, lowers it.
pub global_watermark_monotone :
    (cs : List Call) (m : Manager) (output : Channel)
    → pos 0 <ℤ m.global_watermark
    → m.global_watermark ≤ℤ (run_calls cs (m, output)).0.global_watermark
unfolding run_calls
global_watermark_monotone [] m output h = omega arith
global_watermark_monotone (c ∷ cs) m output h =
    let first : m.global_watermark ≤ℤ (step c (m, output)).0.global_watermark =
      step-le c m output h in
    omega (
      arith,
      first,
      global_watermark_monotone cs (step c (m, output)).0 (step c (m, output)).1 (omega arith),
    )

abbrev pub IsPast : Dict ℤ ℤ → Type 0
IsPast = All (λ entry. pos 0 <ℤ entry.1)

abbrev pub IsBehind : ℤ → Dict ℤ ℤ → Type 0
IsBehind t = All (λ entry. t ≤ℤ entry.1)

lower_bounds :
    (least mark : ℤ)
    → pos 0 <ℤ mark
    → (lower least mark ≤ℤ mark)
      × (is_zero (lower least mark) ≡ false)
      × ((is_zero least ≡ true) ⊎ (lower least mark ≤ℤ least))
unfolding lower
lower_bounds least mark h = ground arith

module _ (now idle_timeout : ℤ) (last : Dict ℤ ℤ) where
  scan-least :
      (marks : Dict ℤ ℤ) (least : ℤ) (output : Channel)
      → let done = scan now idle_timeout last marks least output in
        IsPast done.marks
        → IsBehind done.least done.marks × ((is_zero least ≡ true) ⊎ (done.least ≤ℤ least))
  unfolding scan
  scan-least [] least output h = ground arith
  scan-least ((partition, old) ∷ marks) least output h =
      let mark = refresh now idle_timeout (or_zero (get last partition)) old in
      let (lowest, zero_or_below) =
        scan-least marks (lower least mark)
          (send (record { timestamp = mark; partition = partition }) output) h.1 in
      let (below_mark, set, zero_or_le) = lower_bounds least mark h.0 in
      ((ground arith, lowest), ground arith)

-- Where every partition's mark is past the zero time after a generation, the global watermark is
-- either what it was or behind the mark of every partition.
pub global_watermark-IsBehind :
    (now : ℤ) (m : Manager) (output : Channel)
    → IsPast (generate_watermarks now m output).0.partition_marks
    → let m' = (generate_watermarks now m output).0 in
      (m'.global_watermark ≡ m.global_watermark) ⊎ IsBehind m'.global_watermark m'.partition_marks
unfolding generate_watermarks
global_watermark-IsBehind now m output h =
    raised _ _ _ _
      (scan-least now m.idle_timeout m.last_event_time m.partition_marks zero_time output h).0
  where
    raised :
        (empty : Bool) (least global : ℤ) (marks : Dict ℤ ℤ)
        → IsBehind least marks
        → (raise_global empty least global ≡ global)
          ⊎ IsBehind (raise_global empty least global) marks
    raised true least global marks b = inl refl
    raised false least global marks b = elim (Bool-cases (is_zero global || ltb_ℤ global least)) [
      | inl e ↦ inr (rw e b)
      | inr e ↦ inl (rw e)
    ]

abbrev pub refreshed : ℤ → Manager → ℤ → Option ℤ → Option ℤ
refreshed now m partition none = none
refreshed now m partition (some mark) =
    some (refresh now m.idle_timeout (or_zero (get m.last_event_time partition)) mark)

-- The mark of a partition after the loop of a generation.
pub get-scan :
    (now partition : ℤ) (m : Manager) (marks : Dict ℤ ℤ) (least : ℤ) (output : Channel)
    → get (scan now m.idle_timeout m.last_event_time marks least output).marks partition
      ≡ refreshed now m partition (get marks partition)
unfolding scan get
get-scan now partition m [] least output = refl
get-scan now partition m ((q, old) ∷ marks) least output =
    let mark = refresh now m.idle_timeout (or_zero (get m.last_event_time q)) old in
    ground (
      arith,
      eqb_ℤ_iff q partition,
      get-scan now partition m marks (lower least mark)
          (send (record { timestamp = mark; partition = q }) output),
    )

-- A partition whose last event is older than the idle timeout, while its mark is not (its latest
-- event came out of order), gets an earlier mark from a generation: the mark falls back to the idle
-- timeout before the present.
pub idle_mark_falls :
    (now partition mark : ℤ) (m : Manager) (output : Channel)
    → get m.partition_marks partition ≡ some mark
    → ltb_ℤ m.idle_timeout (sub_time now (or_zero (get m.last_event_time partition))) ≡ true
    → now -ℤ m.idle_timeout <ℤ mark
    → (get (generate_watermarks now m output).0.partition_marks partition
        ≡ some (now -ℤ m.idle_timeout))
      × (now -ℤ m.idle_timeout <ℤ mark)
unfolding generate_watermarks refresh
idle_mark_falls now partition mark m output known idle ahead =
    (get-scan now partition m m.partition_marks zero_time output ∙ rw known (rw idle), ahead)

-- The watermarks of a table of marks.
abbrev pub watermarks_of : Dict ℤ ℤ → List Watermark
watermarks_of [] = []
watermarks_of ((partition, mark) ∷ marks) =
    record { timestamp = mark; partition = partition } ∷ watermarks_of marks

send_room :
    (w : Watermark) (output : Channel)
    → length output.sent < output.capacity
    → send w output ≡ record output { sent = output.sent ++ w ∷ [] }
unfolding send
send_room w output h = ground arith

sent-scan :
    (now idle_timeout least : ℤ) (last marks : Dict ℤ ℤ) (output : Channel)
    → length output.sent + length marks ≤ output.capacity
    → let done = scan now idle_timeout last marks least output in
      done.output.sent ≡ output.sent ++ watermarks_of done.marks
unfolding scan
sent-scan now idle_timeout least last [] output room = rw append-nil
sent-scan now idle_timeout least last ((partition, old) ∷ marks) output room =
    let mark = refresh now idle_timeout (or_zero (get last partition)) old in
    let w : Watermark = record { timestamp = mark; partition = partition } in
    rw (send_room w output (omega arith)) (
      sent-scan now idle_timeout (lower least mark) last marks
        (record output { sent = output.sent ++ w ∷ [] })
        (omega (arith, length-append output.sent (w ∷ [])))
      ∙ rw append_assoc)

-- Where the channel has room for one watermark for each partition, a generation sends the new mark
-- of every partition, in the order of the table, and nothing else.
pub generate_watermarks_sends :
    (now : ℤ) (m : Manager) (output : Channel)
    → length output.sent + length m.partition_marks ≤ output.capacity
    → let (m', output') = generate_watermarks now m output in
      output'.sent ≡ output.sent ++ watermarks_of m'.partition_marks
unfolding generate_watermarks
generate_watermarks_sends now m output room =
    sent-scan now m.idle_timeout zero_time m.last_event_time m.partition_marks output room
