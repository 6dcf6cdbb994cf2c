-- ===== src/Examples/Prices.antt =====
-- Prices and times at concrete values.
use eventy_backend.Base.{none, [], ◌∷◌, All, ℕ, ◌≤◌, ◌<◌, ◌≡◌, ◌↔◌, ◌⊎◌, true, some, arith}
use eventy_backend.Model.{Discount, TimeOfDay}
use eventy_backend.TimeWindow.{day_minutes, time_to_minutes, is_range_within_window, ranges_overlap}
use eventy_backend.TimeWindow.Laws.{
  IsClockTime, LiesIn, end_after, is_range_within_window_iff, ranges_overlap_iff,
}
use eventy_backend.Discounts.Redeem.{listed_for_service}
use eventy_backend.Success.Checkout.{IsOffered}
use eventy_backend.Success.Listing.{listed_for_service_lem}
use eventy_backend.Examples.{tenth_off}

abbrev clock : ℕ → TimeOfDay
clock h = record { hour = h; minute = 30 }

late : IsClockTime (clock 22)
late = record { hour_bound = omega arith; minute_bound = omega arith }

early : IsClockTime (clock 2)
early = record { hour_bound = omega arith; minute_bound = omega arith }

-- An event from 22:30 to 2:30 in a window of the same hours.
is_range_within_window_iff_example :
    let s = time_to_minutes (clock 22) in
    let t = time_to_minutes (clock 2) in
    (is_range_within_window (clock 22) (clock 2) (clock 22) (clock 2) ≡ true)
    ↔ (LiesIn 0 s t s t ⊎ LiesIn day_minutes s t s t)
is_range_within_window_iff_example =
    is_range_within_window_iff (clock 22) (clock 2) (clock 22) (clock 2) late early late early

-- An event from 22:30 to 2:30 against a range from 2:30 to 22:30.
ranges_overlap_iff_example : (ranges_overlap (clock 22) (clock 2) (clock 2) (clock 22) ≡ true) ↔ (
    (minute : ℕ) × (time_to_minutes (clock 22) ≤ minute)
    × (minute < end_after (time_to_minutes (clock 22)) (time_to_minutes (clock 2)))
    × (time_to_minutes (clock 2) ≤ minute)
    × (minute < time_to_minutes (clock 22)))
unfolding time_to_minutes
ranges_overlap_iff_example =
    ranges_overlap_iff (clock 22) (clock 2) (clock 2) (clock 22) late (omega arith)

-- The listing shows the tenth off beside service 2.
listed_for_service_lem_example :
    ((d : Discount)
      → listed_for_service 100 2 (tenth_off ∷ []) ≡ some d
      → IsOffered 100 2 d × (d.code ≡ none))
    × (listed_for_service 100 2 (tenth_off ∷ []) ≡ none
        → All (λ d. ¬ (IsOffered 100 2 d × (d.code ≡ none))) (tenth_off ∷ []))
listed_for_service_lem_example = listed_for_service_lem 100 2 (tenth_off ∷ [])
