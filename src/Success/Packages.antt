-- ===== src/Success/Packages.antt =====
-- What the jobs on booked packages leave.
use eventy_backend.Base.{
  ℕ, ◌≡◌, refl, sym, nat_beq_iff, Bool, true, false, not, ◌&&◌, Option, none, some, List, ◌∷◌, All,
  arith, ◌==◌, nat_eq, includes, keep, map, if◌then◌else◌, Bool-cases, inl, inr,
}
use eventy_backend.Model.{
  PackageBookingStatus, package_booking_status_eq, payment_status_eq, PaymentStatus, Db, Payment,
  PackageBooking, Action, run_handler, update_where, ok,
}
use eventy_backend.Evolution.Updates.{All-map}
use eventy_backend.Evolution.Lookups.{kept_included}
use eventy_backend.Packages.{package_payment}
use eventy_backend.PackageBookings.{with_package_status, cancel_unpaid}
use eventy_backend.PackageBookings.Expiry.{
  is_stale_request, is_overdue, is_paid_payment, tell_both, expire_pending,
  expire_pending_package_bookings, expire_unpaid, expire_unpaid_package_bookings,
}
use eventy_backend.Success.{All-updated, ensures_loop, loop_returns}

-- Every row that the test selects is still to be visited.
abbrev Left : (PackageBooking → Bool) → List PackageBooking → List PackageBooking → Type 0
Left late rest rows = All (λ p. late p ≡ true → includes (map (λ x. x.id) rest) p.id ≡ true) rows

-- A visit moves the rows of one id to a status that the test does not select.
visited :
    (late : PackageBooking → Bool) (s : PackageBookingStatus) (x : PackageBooking)
    (rest rows : List PackageBooking)
    → ((p : PackageBooking) → late (with_package_status s p) ≡ false)
    → Left late (x ∷ rest) rows
    → Left late rest (update_where (λ p. p.id == x.id) (with_package_status s) rows)
visited late s x rest rows out left =
    All-updated _ (λ p. p.id == x.id) _ rows
      (All-map _ _ (λ p h. ((λ hit e. absurd (clash (out p) e)), (λ miss e. ground (arith, h e))))
        rows left)
  where
    clash : {b : Bool} → b ≡ false → b ≡ true → ⊥
    clash a b = cc

pending_rows :
    (now : ℕ) (x : PackageBooking) (db : Db)
    → (expire_pending now x db).0.package_bookings
      ≡ update_where
          (λ p. p.id == x.id)
          (with_package_status PackageBookingStatus.expired)
          db.package_bookings
unfolding expire_pending tell_both run_handler
pending_rows now x db = ground arith

pending_returns : (now : ℕ) (x : PackageBooking) (db : Db) → (expire_pending now x db).1 ≡ ok tt
unfolding expire_pending tell_both run_handler
pending_returns now x db = ground arith

-- The job returns, and no request for a package is then PENDING after its time.
pub expire_pending_package_bookings_lem :
    (now : ℕ) (db : Db)
    → ((expire_pending_package_bookings now db).1 ≡ ok tt)
      × All
          (λ p. is_stale_request now p ≡ false)
          (expire_pending_package_bookings now db).0.package_bookings
unfolding expire_pending_package_bookings run_handler
expire_pending_package_bookings_lem now db = (
  loop_returns (expire_pending now) (pending_returns now) _ db,
  All-map _ _ (λ p h. ground (arith, h)) _
      (ensures_loop (λ rest d. Left (is_stale_request now) rest d.package_bookings)
        (expire_pending now)
        (λ x rest d left. (
          pending_returns now x d,
          rw (pending_rows now x d) (
              visited (is_stale_request now) PackageBookingStatus.expired x rest d.package_bookings
                (λ p. ground arith) left),
        ))
        (keep (is_stale_request now) db.package_bookings) db
        (kept_included (λ p. p.id) (is_stale_request now) db.package_bookings)),
)

-- Its time to pay is over, and the payment that the job has read is not PAID.
abbrev pub is_lapsed : ℕ → Db → PackageBooking → Bool
is_lapsed now before p = is_overdue now p && not (is_paid_payment (package_payment before p.id))

-- What a round does to the rows.
unpaid_round :
    (now : ℕ) (x : PackageBooking) (o : Option Payment) (db : Db)
    → ((expire_unpaid now x o db).1 ≡ ok tt)
      × ((expire_unpaid now x o db).0.package_bookings ≡ (
          if is_paid_payment o
          then db.package_bookings
          else update_where
              (λ p. p.id == x.id)
              (with_package_status PackageBookingStatus.cancelled)
              db.package_bookings))
unfolding expire_unpaid tell_both cancel_unpaid run_handler
unpaid_round now x none db = (refl, refl)
unpaid_round now x (some p) db = elim (Bool-cases (p.status == PaymentStatus.paid)) [
  | inl h ↦ rw h (refl, refl)
  | inr h ↦ rw h (refl, refl)
]

skipped :
    (now : ℕ) (before : Db) (x : PackageBooking) (rest : List PackageBooking) (p : PackageBooking)
    → is_paid_payment (package_payment before x.id) ≡ true
    → is_lapsed now before p ≡ true
    → includes (map (λ y. y.id) (x ∷ rest)) p.id ≡ true
    → includes (map (λ y. y.id) rest) p.id ≡ true
skipped now before x rest p paid late there = elim (Bool-cases (x.id == p.id)) [
  | inl same ↦
      let own : is_paid_payment (package_payment before p.id) ≡ true =
        rw (sym ((nat_beq_iff x.id p.id).0 same)) paid in
      ground arith
  | inr other ↦ ground arith
]

unpaid_visit :
    (now : ℕ) (before : Db) (x : PackageBooking) (rest rows : List PackageBooking) (c : Bool)
    → is_paid_payment (package_payment before x.id) ≡ c
    → Left (is_lapsed now before) (x ∷ rest) rows
    → Left (is_lapsed now before) rest (
        if c
        then rows
        else update_where
            (λ p. p.id == x.id)
            (with_package_status PackageBookingStatus.cancelled)
            rows)
unpaid_visit now before x rest rows true paid left =
    All-map _ _ (λ p h e. skipped now before x rest p paid e (h e)) rows left
unpaid_visit now before x rest rows false due left =
    visited (is_lapsed now before) PackageBookingStatus.cancelled x rest rows (λ p. refl) left

-- The job returns, and each booked package whose time to pay is then over and that still waits for its
-- payment had a PAID payment when the job began.
pub expire_unpaid_package_bookings_lem :
    (now : ℕ) (db : Db)
    → ((expire_unpaid_package_bookings now db).1 ≡ ok tt)
      × All
          (λ p. is_overdue now p ≡ true → is_paid_payment (package_payment db p.id) ≡ true)
          (expire_unpaid_package_bookings now db).0.package_bookings
unfolding expire_unpaid_package_bookings run_handler
expire_unpaid_package_bookings_lem now db =
    let round : PackageBooking → Action (Unit {0}) =
      λ p. expire_unpaid now p (package_payment db p.id) in
    (
      loop_returns round (λ x d. (unpaid_round now x _ d).0) _ db,
      All-map _ _ (λ p h e. ground (arith, h)) _
          (ensures_loop (λ rest d. Left (is_lapsed now db) rest d.package_bookings) round
            (λ x rest d left. (
              (unpaid_round now x _ d).0,
              rw (unpaid_round now x (package_payment db x.id) d).1
                  (unpaid_visit now db x rest d.package_bookings _ refl left),
            ))
            (keep (is_overdue now) db.package_bookings) db
            (All-map _ _ (λ p h e. h (ground arith)) db.package_bookings
              (kept_included (λ p. p.id) (is_overdue now) db.package_bookings))),
    )
