-- ===== src/TimeWindow.antt =====
-- src/common/helpers/time.helper.ts: times of day as minutes, and windows that may pass midnight.
pub mod Laws
use eventy_backend.Base.{ℕ, ◌+◌, ◌*◌, Bool, ltb, leb, ◌&&◌, if◌then◌else◌}
use eventy_backend.Model.{TimeOfDay}

abbrev pub day_minutes : ℕ
day_minutes = 24 * 60

unfoldable pub time_to_minutes : TimeOfDay → ℕ
time_to_minutes t = t.hour * 60 + t.minute

-- The test on minutes, with the event and the window moved to the next day where the code does.
unfoldable pub is_within : ℕ → ℕ → ℕ → ℕ → Bool
is_within ev_start_raw ev_end_raw win_start win_end_raw =
    let win_wraps = leb win_end_raw win_start in
    let win_end : ℕ = if win_wraps then win_end_raw + day_minutes else win_end_raw in
    let ev_end_0 : ℕ =
      if leb ev_end_raw ev_start_raw then ev_end_raw + day_minutes else ev_end_raw in
    let shifted = win_wraps && ltb ev_start_raw win_start in
    let ev_start : ℕ = if shifted then ev_start_raw + day_minutes else ev_start_raw in
    let ev_end : ℕ = if shifted then ev_end_0 + day_minutes else ev_end_0 in
    leb win_start ev_start && leb ev_end win_end

unfoldable pub is_range_within_window : TimeOfDay → TimeOfDay → TimeOfDay → TimeOfDay → Bool
unfolding is_within
is_range_within_window ev_start ev_end win_start win_end =
    is_within (time_to_minutes ev_start) (time_to_minutes ev_end) (time_to_minutes win_start)
      (time_to_minutes win_end)

-- The overlap test on minutes.
unfoldable pub do_overlap : ℕ → ℕ → ℕ → ℕ → Bool
do_overlap a_start a_end_raw b_start b_end =
    let a_end : ℕ = if leb a_end_raw a_start then a_end_raw + day_minutes else a_end_raw in
    ltb a_start b_end && ltb b_start a_end

unfoldable pub ranges_overlap : TimeOfDay → TimeOfDay → TimeOfDay → TimeOfDay → Bool
unfolding do_overlap
ranges_overlap a_start a_end b_start b_end =
    do_overlap (time_to_minutes a_start) (time_to_minutes a_end) (time_to_minutes b_start)
      (time_to_minutes b_end)
