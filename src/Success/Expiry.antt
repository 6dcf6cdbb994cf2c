-- ===== src/Success/Expiry.antt =====
-- What the job that expires bookings leaves.
use eventy_backend.Base.{
  ℕ, ◌≡◌, Bool, true, not, ◌&&◌, List, [], ◌∷◌, All, arith, ◌==◌, nat_eq, includes, keep, map,
  Bool-cases, inl, inr,
}
use eventy_backend.Model.{
  BookingStatus, booking_status_eq, CancelledBy, Db, Booking, has_id, run_handler, update_where, ok,
}
use eventy_backend.Evolution.Updates.{All-map}
use eventy_backend.Evolution.Lookups.{kept_included}
use eventy_backend.Bookings.{is_paid, cancelled_now}
use eventy_backend.Cleanup.{is_expired, provider_reason, expire_booking, handle_expired_bookings}
use eventy_backend.Success.{All-updated, ensures_loop, loop_returns}

-- The booking has expired and is not paid.
abbrev pub is_overdue : ℕ → Db → Booking → Bool
is_overdue now db b = is_expired now b && not (is_paid db b.id)

-- Every overdue booking is still to be visited.
abbrev Left : ℕ → List Booking → Db → Type 0
Left now rest db =
    All (λ b. is_overdue now db b ≡ true → includes (map (λ x. x.id) rest) b.id ≡ true) db.bookings

skip_round :
    (now : ℕ) (x : Booking) (rest : List Booking) (db : Db)
    → (x.status == BookingStatus.confirmed && is_paid db x.id) ≡ true
    → Left now (x ∷ rest) db
    → Left now rest db
skip_round now x rest db paid left =
    All-map _ _ (λ b h late. ground (arith, h late)) db.bookings left

cancel_round :
    (now : ℕ) (x : Booking) (rest : List Booking) (db : Db)
    → Left now (x ∷ rest) db
    → All
        (λ b. is_overdue now db b ≡ true → includes (map (λ y. y.id) rest) b.id ≡ true)
        (update_where
          (has_id x.id)
          (cancelled_now now CancelledBy.system (provider_reason x.status))
          db.bookings)
cancel_round now x rest db left = All-updated _ (has_id x.id) _ db.bookings (
    All-map _ _ (λ b h. ((λ hit late. ground arith), (λ miss late. ground (arith, h late))))
      db.bookings left)

round-Left :
    (now : ℕ) (x : Booking) (rest : List Booking) (db : Db)
    → Left now (x ∷ rest) db
    → Left now rest (expire_booking now x db).0
unfolding expire_booking run_handler is_paid
round-Left now x rest db left =
    elim (Bool-cases (x.status == BookingStatus.confirmed && is_paid db x.id)) [
      | inl paid ↦ rw paid (skip_round now x rest db paid left)
      | inr unpaid ↦ rw unpaid (cancel_round now x rest db left)
    ]

expire_booking-returns : (now : ℕ) (x : Booking) (db : Db) → (expire_booking now x db).1 ≡ ok tt
unfolding expire_booking run_handler
expire_booking-returns now x db = ground arith

none-Left :
    (now : ℕ) (db : Db)
    → Left now [] db
    → All (λ b. is_expired now b ≡ true → is_paid db b.id ≡ true) db.bookings
none-Left now db left = All-map _ _ (λ b h e. ground (arith, h)) db.bookings left

-- The job returns, and each booking whose deadline has passed and that is still PENDING, QUOTE_SENT or
-- CONFIRMED after it is paid.
pub handle_expired_bookings_lem :
    (now : ℕ) (db : Db)
    → ((handle_expired_bookings now db).1 ≡ ok tt)
      × (let after = (handle_expired_bookings now db).0 in
          All (λ b. is_expired now b ≡ true → is_paid after b.id ≡ true) after.bookings)
unfolding handle_expired_bookings run_handler
handle_expired_bookings_lem now db = (
  loop_returns (expire_booking now) (expire_booking-returns now) (keep (is_expired now) db.bookings)
      db,
  none-Left now _ (
      ensures_loop (Left now) (expire_booking now)
        (λ x rest d left. (expire_booking-returns now x d, round-Left now x rest d left))
        (keep (is_expired now) db.bookings) db
        (All-map _ _ (λ b h e. h (ground arith)) db.bookings
          (kept_included (λ b. b.id) (is_expired now) db.bookings))),
)
