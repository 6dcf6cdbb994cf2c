-- ===== src/Refusal/Packages.antt =====
-- The handlers of a booked package write only once every check has passed.
use eventy_backend.Base.{ℕ, Option, none, some, String, Bool-cases, inl, inr, nat_eq, ◌==◌, is_some}
use eventy_backend.Model.{
  PaymentMethod, payment_method_eq, PaymentStatus, payment_status_eq, Db, Event, Payment,
  PackageBooking, NoticeKind, provider_of_user,
}
use eventy_backend.Refusal.{
  Harmless, Settled, Harmless-guard, Harmless-read, Harmless-lookup, Harmless-rest, Harmless-check,
  Harmless-then_transaction, Settled-bind, Settled-then, Settled-pure, Settled-gets,
  Settled-transaction, Settled-for_each, Settled-modify, Settled-emit, Settled-when,
}
use eventy_backend.Refusal.Payments.{progress_package_to_in_progress-Settled}
use eventy_backend.Packages.{package_payment}
use eventy_backend.Payments.{Gateway, PaymentAnswer}
use eventy_backend.PackageBookings.{
  owned_package_booking, own_package_booking, accept_package_booking, reject_package_booking,
  complete_event_of, complete_package_booking, cancel_unpaid, cancel_package_booking,
}
use eventy_backend.PackageBookings.Lawful.{owned_same, own_same}
use eventy_backend.PackageBookings.Paying.{
  start_paid_package, pay_by, pay_package_booking, confirm_package_card_payment,
}
use eventy_backend.PackageBookings.Expiry.{
  complete_finished, complete_finished_package_bookings, tell_both, expire_pending,
  expire_pending_package_bookings, expire_unpaid, expire_unpaid_package_bookings,
}

pub accept_package_booking-Harmless :
    (now u k : ℕ) (db : Db) → Harmless (accept_package_booking now u k) db
unfolding accept_package_booking
accept_package_booking-Harmless now u k db =
    Harmless-read (λ d. d) _ db
      (Harmless-lookup (provider_of_user db u) _ _ db λ p.
        Harmless-guard (owned_package_booking p.id k) _ db (owned_same p.id k db) λ pb.
          Harmless-check _ _ _ db (
            Harmless-then_transaction _ _ db
              (Settled-emit NoticeKind.package_booking_accepted u pb.customer_id k)))

pub reject_package_booking-Harmless :
    (now u k : ℕ) (why : Option String) (db : Db) → Harmless (reject_package_booking now u k why) db
unfolding reject_package_booking
reject_package_booking-Harmless now u k why db =
    Harmless-read (λ d. d) _ db
      (Harmless-lookup (provider_of_user db u) _ _ db λ p.
        Harmless-guard (owned_package_booking p.id k) _ db (owned_same p.id k db) λ pb.
          Harmless-check _ _ _ db (
            Harmless-then_transaction _ _ db
              (Settled-emit NoticeKind.package_booking_rejected u pb.customer_id k)))

complete_event_of-Settled : (o : Option ℕ) → Settled (complete_event_of o)
unfolding complete_event_of
complete_event_of-Settled none = Settled-pure tt
complete_event_of-Settled (some k) = Settled-modify _

pub complete_package_booking-Harmless :
    (now u k : ℕ) (db : Db) → Harmless (complete_package_booking now u k) db
unfolding complete_package_booking
complete_package_booking-Harmless now u k db =
    Harmless-read (λ d. d) _ db
      (Harmless-lookup (provider_of_user db u) _ _ db λ p.
        Harmless-guard (owned_package_booking p.id k) _ db (owned_same p.id k db) λ pb.
          Harmless-check _ _ _ db (
            Harmless-rest _ db (
              Settled-transaction _ (
                Settled-then _ _ (Settled-modify _)
                  (Settled-then _ _ (Settled-modify _) (complete_event_of-Settled pb.event_id))))))

cancel_unpaid-Settled : (o : Option Payment) → Settled (cancel_unpaid o)
unfolding cancel_unpaid
cancel_unpaid-Settled none = Settled-pure tt
cancel_unpaid-Settled (some p) = Settled-when _ _ (Settled-modify _)

pub cancel_package_booking-Harmless :
    (now u k : ℕ) (why : Option String) (db : Db) → Harmless (cancel_package_booking now u k why) db
unfolding cancel_package_booking
cancel_package_booking-Harmless now u k why db =
    Harmless-guard (own_package_booking u k) _ db (own_same u k db) λ pb.
      Harmless-read (λ d. package_payment d k) _ db
        (Harmless-check _ _ _ db (
          Harmless-rest _ db (
            Settled-transaction _ (
              Settled-then _ _ (Settled-modify _)
                (Settled-then _ _ (Settled-modify _) (cancel_unpaid-Settled _))))))

start_paid_package-Settled :
    (now u : ℕ) (pb : PackageBooking) → Settled (start_paid_package now u pb)
unfolding start_paid_package
start_paid_package-Settled now u pb =
    Settled-then _ _ (progress_package_to_in_progress-Settled now pb.id pb.event_id) (
      Settled-bind _ _ (Settled-gets _) λ partners.
        Settled-for_each _ (λ p. Settled-emit NoticeKind.package_payment_confirmed u p pb.id) _)

pay_by-Settled :
    (gateway : Gateway) (now u : ℕ) (pb : PackageBooking) (p : Payment) (method : PaymentMethod)
    → Settled (pay_by gateway now u pb p method)
unfolding pay_by
pay_by-Settled gateway now u pb p method =
    elim (Bool-cases (method == PaymentMethod.bank_transfer)) [
      | inl t ↦ elim (Bool-cases (is_some (gateway.create_intent p).client_secret)) [
        | inl c ↦ rw (t, c) (Settled-then _ _ (Settled-modify _) (Settled-pure _))
        | inr c ↦
            rw (t, c)
              (Settled-then _ _ (Settled-modify _)
                (Settled-then _ _ (start_paid_package-Settled now u pb) (Settled-pure _)))
      ]
      | inr t ↦ rw t (
          Settled-then _ _ (Settled-modify _) (
            Settled-bind _ _ (Settled-gets (λ d. d)) λ db.
              Settled-then _ _ (Settled-emit NoticeKind.package_payment_cash_chosen u _ pb.id)
                (Settled-pure _)))
    ]

pub pay_package_booking-Harmless :
    (gateway : Gateway) (now u k : ℕ) (method : PaymentMethod) (db : Db)
    → Harmless (pay_package_booking gateway now u k method) db
unfolding pay_package_booking
pay_package_booking-Harmless gateway now u k method db =
    Harmless-guard (own_package_booking u k) _ db (own_same u k db) λ pb. Harmless-check _ _ _ db (
      Harmless-read (λ d. package_payment d k) _ db
        (Harmless-lookup (package_payment db k) _ _ db λ p.
          elim (Bool-cases (p.status == PaymentStatus.paid)) [
            | inl h ↦ rw h (Harmless-rest _ db (Settled-pure PaymentAnswer.already_exists))
            | inr h ↦ rw h (Harmless-rest _ db (pay_by-Settled gateway now u pb p method))
          ]))

pub confirm_package_card_payment-Harmless :
    (gateway : Gateway) (now u k : ℕ) (db : Db)
    → Harmless (confirm_package_card_payment gateway now u k) db
unfolding confirm_package_card_payment
confirm_package_card_payment-Harmless gateway now u k db =
    Harmless-guard (own_package_booking u k) _ db (own_same u k db) λ pb.
      Harmless-read (λ d. package_payment d k) _ db
        (Harmless-lookup (package_payment db k) _ _ db λ p. Harmless-check _ _ _ db (
          Harmless-lookup p.provider_reference _ _ db λ reference.
            elim (Bool-cases (gateway.verify_intent reference).success) [
              | inl h ↦ rw h (
                  Harmless-rest _ db (
                    Settled-then _ _ (Settled-modify _)
                      (Settled-then _ _ (start_paid_package-Settled now u pb) (Settled-pure _))))
              | inr h ↦
                  rw h (Harmless-rest _ db (Settled-then _ _ (Settled-modify _) (Settled-pure _)))
            ]))

complete_finished-Settled :
    (now : ℕ) (pb : PackageBooking) (o : Option Event) → Settled (complete_finished now pb o)
unfolding complete_finished
complete_finished-Settled now pb none = Settled-pure tt
complete_finished-Settled now pb (some e) = Settled-when _ _ (
    Settled-transaction _ (
      Settled-then _ _ (Settled-modify _) (Settled-then _ _ (Settled-modify _) (Settled-modify _))))

pub complete_finished_package_bookings-Settled :
    (now : ℕ) → Settled (complete_finished_package_bookings now)
unfolding complete_finished_package_bookings
complete_finished_package_bookings-Settled now =
    Settled-bind _ _ (Settled-gets (λ d. d))
      λ db. Settled-for_each _ (λ p. complete_finished-Settled now p _) _

tell_both-Settled : (kind : NoticeKind) (pb : PackageBooking) → Settled (tell_both kind pb)
unfolding tell_both
tell_both-Settled kind pb =
    Settled-bind _ _ (Settled-gets (λ d. d)) λ db.
      Settled-then _ _ (Settled-emit kind _ pb.customer_id pb.id) (Settled-emit kind _ _ pb.id)

expire_pending-Settled : (now : ℕ) (pb : PackageBooking) → Settled (expire_pending now pb)
unfolding expire_pending
expire_pending-Settled now pb =
    Settled-then _ _
      (Settled-transaction _ (Settled-then _ _ (Settled-modify _) (Settled-modify _)))
      (tell_both-Settled NoticeKind.package_booking_expired pb)

pub expire_pending_package_bookings-Settled :
    (now : ℕ) → Settled (expire_pending_package_bookings now)
unfolding expire_pending_package_bookings
expire_pending_package_bookings-Settled now =
    Settled-bind _ _ (Settled-gets _) λ stale. Settled-for_each _ (expire_pending-Settled now) stale

expire_unpaid-Settled :
    (now : ℕ) (pb : PackageBooking) (o : Option Payment) → Settled (expire_unpaid now pb o)
unfolding expire_unpaid
expire_unpaid-Settled now pb o = Settled-when _ _ (
    Settled-then _ _
      (Settled-transaction _ (
        Settled-then _ _ (Settled-modify _)
          (Settled-then _ _ (Settled-modify _) (cancel_unpaid-Settled o))))
      (tell_both-Settled NoticeKind.package_payment_expired pb))

pub expire_unpaid_package_bookings-Settled :
    (now : ℕ) → Settled (expire_unpaid_package_bookings now)
unfolding expire_unpaid_package_bookings
expire_unpaid_package_bookings-Settled now =
    Settled-bind _ _ (Settled-gets (λ d. d))
      λ db. Settled-for_each _ (λ p. expire_unpaid-Settled now p _) _
