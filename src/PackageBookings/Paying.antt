-- ===== src/PackageBookings/Paying.antt =====
-- src/modules/packages/packages.service.ts: the payment of a booked package as a whole.
pub mod Lawful
use eventy_backend.Base.{ℕ, Bool, Option, none, some, ◌==◌, nat_eq, is_some, if◌then◌else◌}
use eventy_backend.Model.{
  PaymentMethod, payment_method_eq, PaymentStatus, payment_status_eq, PackageBookingStatus,
  package_booking_status_eq, Reference, Db, Payment, PackageBooking, NoticeKind, Action, HttpError,
  ◌>>=◌, ◌>>◌, pure, gets, or_raise, raise_unless, modify, for_each, emit, given,
}
use eventy_backend.Packages.{
  package_payment, package_by_id, owner_user, package_partner_user_ids,
  progress_package_to_in_progress,
}
use eventy_backend.Payments.{Gateway, PaymentAnswer, set_payment, with_payment_status, paid_with}
use eventy_backend.PackageBookings.{own_package_booking}

abbrev pub intended : PaymentMethod → Option Reference → Payment → Payment
intended method reference p = record p {
  method = method;
  status = PaymentStatus.processing;
  provider_reference = given reference p.provider_reference;
}

-- The synchronous success, with a mock reference made of the booking and the time.
abbrev pub transferred : ℕ → ℕ → PaymentMethod → Payment → Payment
transferred now k method p = record p {
  method = method;
  status = PaymentStatus.paid;
  paid_at = some now;
  provider_reference = some (Reference.mock_transfer k now);
}

abbrev pub chosen : PaymentMethod → Payment → Payment
chosen method p = record p { method = method; status = PaymentStatus.processing }

-- A payment that clears starts the package and tells every partner.
unfoldable pub start_paid_package : ℕ → ℕ → PackageBooking → Action (Unit {0})
start_paid_package now user_id pb = do
  progress_package_to_in_progress now pb.id pb.event_id
  partners ← gets (λ d. package_partner_user_ids d pb.package_id)
  for_each partners (λ partner. emit NoticeKind.package_payment_confirmed user_id partner pb.id)

unfoldable pub pay_by :
    Gateway → ℕ → ℕ → PackageBooking → Payment → PaymentMethod → Action PaymentAnswer
unfolding start_paid_package
pay_by gateway now user_id pb payment method =
    if method == PaymentMethod.bank_transfer
    then (if is_some (gateway.create_intent payment).client_secret
        then (do
          modify
              (set_payment payment.id (intended method (gateway.create_intent payment).intent_id))
          pure PaymentAnswer.intent_created)
        else (do
          modify (set_payment payment.id (transferred now pb.id method))
          start_paid_package now user_id pb
          pure PaymentAnswer.confirmed))
    else (do
      modify (set_payment payment.id (chosen method))
      db ← gets (λ d. d)
      emit NoticeKind.package_payment_cash_chosen user_id
          (owner_user db (package_by_id db pb.package_id)) pb.id
      pure PaymentAnswer.cash_recorded)

unfoldable pub pay_package_booking : Gateway → ℕ → ℕ → ℕ → PaymentMethod → Action PaymentAnswer
unfolding pay_by
pay_package_booking gateway now user_id k method = do
  pb ← own_package_booking user_id k
  raise_unless (pb.status == PackageBookingStatus.pending_payment)
      (HttpError.bad_request "Package booking cannot be paid")
  found ← gets (λ d. package_payment d k)
  payment ← or_raise found (HttpError.not_found "No payment record found for this package booking")
  if payment.status == PaymentStatus.paid
      then pure PaymentAnswer.already_exists
      else pay_by gateway now user_id pb payment method

unfoldable pub confirm_package_card_payment : Gateway → ℕ → ℕ → ℕ → Action PaymentAnswer
confirm_package_card_payment gateway now user_id k = do
  pb ← own_package_booking user_id k
  found ← gets (λ d. package_payment d k)
  payment ← or_raise found (HttpError.not_found "No payment record found for this package booking")
  raise_unless (payment.status == PaymentStatus.processing)
      (HttpError.bad_request "Payment cannot be confirmed")
  reference ←
      or_raise payment.provider_reference
        (HttpError.bad_request "No pending gateway intent found for this payment")
  if (gateway.verify_intent reference).success
      then (do
        modify (
            set_payment payment.id
              (paid_with now (gateway.verify_intent reference).provider_reference))
        start_paid_package now user_id pb
        pure PaymentAnswer.confirmed)
      else (do
        modify (set_payment payment.id (with_payment_status PaymentStatus.failed))
        pure PaymentAnswer.failed)
