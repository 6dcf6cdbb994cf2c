-- ===== src/TimeWindow/Laws.antt =====
-- The window tests against intervals of minutes on the time line.
use eventy_backend.Base.{ℕ, ◌+◌, ◌≤◌, ◌<◌, ◌≡◌, ◌⊎◌, ◌↔◌, true, leb, if◌then◌else◌, arith}
use eventy_backend.Model.{TimeOfDay}
use eventy_backend.TimeWindow.{
  day_minutes, time_to_minutes, is_within, do_overlap, is_range_within_window, ranges_overlap,
}

-- A time that a clock shows.
pub record IsClockTime (t : TimeOfDay) : Type 0 where
  pub hour_bound : t.hour < 24
  pub minute_bound : t.minute < 60

-- Where an interval ends that starts at `start`: an end not after it is on the next day.
abbrev pub end_after : ℕ → ℕ → ℕ
end_after start stop = if leb stop start then stop + day_minutes else stop

-- The interval, moved by `shift` minutes, lies in the window.
abbrev pub LiesIn : ℕ → ℕ → ℕ → ℕ → ℕ → Type 0
LiesIn shift ev_start ev_end win_start win_end =
    (win_start ≤ ev_start + shift)
    × (end_after ev_start ev_end + shift ≤ end_after win_start win_end)

is_within_iff :
    (es ee ws we : ℕ)
    → es < day_minutes
    → ee < day_minutes
    → ws < day_minutes
    → we < day_minutes
    → (is_within es ee ws we ≡ true) ↔ (LiesIn 0 es ee ws we ⊎ LiesIn day_minutes es ee ws we)
unfolding is_within
is_within_iff es ee ws we h1 h2 h3 h4 = (ground arith, ground arith)

time_bound : (t : TimeOfDay) → IsClockTime t → time_to_minutes t < day_minutes
unfolding time_to_minutes
time_bound t h = omega arith

-- For clock times, an event time passes the window test exactly when the event's interval of
-- minutes lies in the window's interval, on the window's day or moved to the day after; an end that
-- is not after its start stands on the next day, for the event and the window alike.
pub is_range_within_window_iff :
    (ev_start ev_end win_start win_end : TimeOfDay)
    → IsClockTime ev_start
    → IsClockTime ev_end
    → IsClockTime win_start
    → IsClockTime win_end
    → let es = time_to_minutes ev_start in
      let ee = time_to_minutes ev_end in
      let ws = time_to_minutes win_start in
      let we = time_to_minutes win_end in
      (is_range_within_window ev_start ev_end win_start win_end ≡ true)
      ↔ (LiesIn 0 es ee ws we ⊎ LiesIn day_minutes es ee ws we)
unfolding is_range_within_window
is_range_within_window_iff es ee ws we h1 h2 h3 h4 =
    is_within_iff _ _ _ _ (time_bound es h1) (time_bound ee h2) (time_bound ws h3)
      (time_bound we h4)

-- The later of the two starts.
abbrev later_start : ℕ → ℕ → ℕ
later_start a b = if leb a b then b else a

do_overlap_common :
    (a_start a_end b_start b_end : ℕ)
    → a_start < day_minutes
    → b_start < b_end
    → do_overlap a_start a_end b_start b_end ≡ true
    → (a_start ≤ later_start a_start b_start)
      × (later_start a_start b_start < end_after a_start a_end)
      × (b_start ≤ later_start a_start b_start)
      × (later_start a_start b_start < b_end)
unfolding do_overlap
do_overlap_common a_start a_end b_start b_end c h e =
    (ground arith, ground arith, ground arith, ground arith)

do_overlap_of_common :
    (a_start a_end b_start b_end minute : ℕ)
    → a_start ≤ minute
    → minute < end_after a_start a_end
    → b_start ≤ minute
    → minute < b_end
    → do_overlap a_start a_end b_start b_end ≡ true
unfolding do_overlap
do_overlap_of_common a_start a_end b_start b_end minute h1 h2 h3 h4 = ground arith

-- For a first range that starts at a clock time, and a second that does not pass midnight and is
-- not empty, the two are said to overlap exactly when some minute belongs to both; the first range
-- may pass midnight.
pub ranges_overlap_iff :
    (a_start a_end b_start b_end : TimeOfDay)
    → IsClockTime a_start
    → time_to_minutes b_start < time_to_minutes b_end
    → (ranges_overlap a_start a_end b_start b_end ≡ true) ↔ (
        (minute : ℕ) × (time_to_minutes a_start ≤ minute)
        × (minute < end_after (time_to_minutes a_start) (time_to_minutes a_end))
        × (time_to_minutes b_start ≤ minute)
        × (minute < time_to_minutes b_end))
unfolding ranges_overlap
ranges_overlap_iff a_start a_end b_start b_end c h = (
  λ e.
      let (p, q, r, s) =
        do_overlap_common _ (time_to_minutes a_end) _ _ (time_bound a_start c) h e in
      (later_start (time_to_minutes a_start) (time_to_minutes b_start), p, q, r, s),
  λ (minute, p, q, r, s). do_overlap_of_common _ (time_to_minutes a_end) _ _ minute p q r s,
)
