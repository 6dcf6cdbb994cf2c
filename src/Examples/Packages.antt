-- ===== src/Examples/Packages.antt =====
-- Booked packages, on the small database.
use eventy_backend.Base.{ℕ, ◌≡◌, true, false, none, some, List, [], ◌∷◌, All}
use eventy_backend.Model.{
  PaymentStatus, payment_status_eq, PackageStatus, PackageBookingStatus, Payment, PackageBooking,
  Db, ok,
}
use eventy_backend.Packages.{package_payment}
use eventy_backend.PackageBookings.Expiry.{
  is_stale_request, is_overdue, is_paid_payment, expire_pending_package_bookings,
  expire_unpaid_package_bookings,
}
use eventy_backend.Success.Packages.{
  expire_pending_package_bookings_lem, expire_unpaid_package_bookings_lem,
}
use eventy_backend.System.{Request}
use eventy_backend.Examples.{sample, payment}

-- Package 40 of provider 1 was booked twice by customer 20: one request is old, one waits for its payment.
abbrev request : ℕ → PackageBookingStatus → PackageBooking
request id status = record {
  id = id;
  package_id = 40;
  customer_id = 20;
  event_id = some 3;
  status = status;
  total_amount = 9000;
  pending_expires_at = some 500;
  payment_expires_at = some 600;
}

abbrev package_payment_row : Payment
package_payment_row = record payment {
  id = 44;
  booking_id = none;
  package_event_booking_id = some 42;
  amount = 9000;
  subtotal_amount = 9000;
  status = PaymentStatus.processing;
}

abbrev with_packages : Db
with_packages = record sample {
  packages = record { id = 40; provider_id = 1; status = PackageStatus.active } ∷ [];
  package_bookings =
      request 41 PackageBookingStatus.pending
      ∷ request 42 PackageBookingStatus.pending_payment
      ∷ [];
  payments = package_payment_row ∷ [];
  next_id = 50;
}

-- Request 41 has expired.
expire_pending_package_bookings_lem_example :
    ((expire_pending_package_bookings 700 with_packages).1 ≡ ok tt)
    × All
        (λ p. is_stale_request 700 p ≡ false)
        (expire_pending_package_bookings 700 with_packages).0.package_bookings
expire_pending_package_bookings_lem_example = expire_pending_package_bookings_lem 700 with_packages

-- Booking 42 is cancelled.
expire_unpaid_package_bookings_lem_example :
    ((expire_unpaid_package_bookings 700 with_packages).1 ≡ ok tt)
    × All
        (λ p. is_overdue 700 p ≡ true → is_paid_payment (package_payment with_packages p.id) ≡ true)
        (expire_unpaid_package_bookings 700 with_packages).0.package_bookings
expire_unpaid_package_bookings_lem_example = expire_unpaid_package_bookings_lem 700 with_packages

-- The payment of the package is made and refunded, and the customer cancels too late.
abbrev week : List (ℕ × Request)
week =
    (100, Request.customer_confirms_package_payment 20 42)
    ∷ (110, Request.admin_refunds 44)
    ∷ (120, Request.customer_cancels_package 20 42 none)
    ∷ []
