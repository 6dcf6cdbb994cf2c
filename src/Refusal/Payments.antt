-- ===== src/Refusal/Payments.antt =====
-- The payments' handlers: whatever the gateway answers, a refusal comes before the first write.
use eventy_backend.Base.{
  ℕ, Option, none, some, String, ◌==◌, nat_eq, is_some, Bool-cases, Option-cases, inl, inr,
}
use eventy_backend.Model.{
  PaymentMethod, payment_method_eq, Reference, Db, Booking, Event, Payment, Discount, NoticeKind,
  booking_by_id, payment_of_booking, provider_of_user, package_booking_by_id,
}
use eventy_backend.Refusal.{
  Harmless, Settled, Harmless-guard, Harmless-read, Harmless-lookup, Harmless-rest, Harmless-check,
  Harmless-write, Settled-bind, Settled-then, Settled-pure, Settled-gets, Settled-query,
  Settled-transaction, Settled-for_each, Settled-raise, Settled-modify, Settled-emit, Settled-when,
}
use eventy_backend.Refusal.Bookings.{progress_booking_and_event-Settled}
use eventy_backend.Payments.Lawful.{checkout_same}
use eventy_backend.Packages.{
  package_payment, package_by_id, event_in_progress, progress_package_to_in_progress,
  confirm_package_cash_payment, progress_draft_event, progress_package_found,
  try_progress_package_booking,
}
use eventy_backend.Payments.{
  Gateway, payment_by_id, progress_paid, announce_paid, settle_booking, mark_paid, announce_failed,
  PaymentAnswer, process_electronic_payment, checkout_discount, insert_payment, collect,
  create_payment_for_booking, create_payment, confirm_payment, mark_own_cash_paid, mark_cash_paid,
  refund_payment,
}

progress_draft_event-Settled : (o : Option Event) → Settled (progress_draft_event o)
unfolding progress_draft_event
progress_draft_event-Settled none = Settled-pure tt
progress_draft_event-Settled (some e) = Settled-when _ _ (Settled-modify _)

event_in_progress-Settled : (o : Option ℕ) → Settled (event_in_progress o)
unfolding event_in_progress
event_in_progress-Settled none = Settled-pure tt
event_in_progress-Settled (some k) = Settled-modify _

pub progress_package_to_in_progress-Settled :
    (now k : ℕ) (o : Option ℕ) → Settled (progress_package_to_in_progress now k o)
unfolding progress_package_to_in_progress
progress_package_to_in_progress-Settled now k o = Settled-transaction _ (
    Settled-then _ _ (Settled-modify _)
      (Settled-then _ _ (Settled-modify _) (event_in_progress-Settled o)))

progress_package_found-Settled : (now : ℕ) (o : Option _) → Settled (progress_package_found now o)
unfolding progress_package_found
progress_package_found-Settled now none = Settled-pure tt
progress_package_found-Settled now (some pb) = Settled-bind _ _ (Settled-gets (λ d. d)) λ db.
    Settled-when _ _ (
      Settled-then _ _
        (Settled-transaction _ (
          Settled-then _ _ (Settled-modify _)
            (Settled-then _ _ (Settled-modify _) (progress_draft_event-Settled _))))
        (Settled-emit NoticeKind.package_payment_confirmed pb.customer_id _ pb.id))

try_progress_package_booking-Settled : (now k : ℕ) → Settled (try_progress_package_booking now k)
unfolding try_progress_package_booking
try_progress_package_booking-Settled now k =
    Settled-bind _ _ (Settled-gets _) λ o. progress_package_found-Settled now o

confirm_package_cash_payment-Harmless :
    (now u k : ℕ) (db : Db) → Harmless (confirm_package_cash_payment now u k) db
unfolding confirm_package_cash_payment
confirm_package_cash_payment-Harmless now u k db =
    Harmless-read (λ d. d) _ db
      (Harmless-lookup (provider_of_user db u) _ _ db λ p.
        Harmless-lookup (package_booking_by_id db k) _ _ db λ pb.
          Harmless-lookup (package_by_id db pb.package_id) _ _ db λ owned. Harmless-check _ _ _ db (
            Harmless-check _ _ _ db (
              Harmless-lookup (package_payment db k) _ _ db λ payment. Harmless-check _ _ _ db (
                Harmless-write _ _ db (
                  Settled-then _ _ (progress_package_to_in_progress-Settled now k pb.event_id) (
                    Settled-for_each _
                      (λ x. Settled-emit NoticeKind.package_payment_confirmed u x k) _))))))

progress_paid-Settled : (now : ℕ) (b : Booking) → Settled (progress_paid now b)
unfolding progress_paid
progress_paid-Settled now b = elim (Option-cases b.package_event_booking_id) [
  | inr (k, e) ↦ rw e (try_progress_package_booking-Settled now k)
  | inl e ↦ elim (Option-cases b.event_id) [
    | inr (k, q) ↦ rw (e, q) (progress_booking_and_event-Settled now k k)
    | inl q ↦ rw (e, q) (Settled-pure tt)
  ]
]

announce_paid-Settled :
    (now : ℕ) (paid : Payment) (o : Option Booking) → Settled (announce_paid now paid o)
unfolding announce_paid
announce_paid-Settled now paid none = Settled-pure tt
announce_paid-Settled now paid (some b) = Settled-bind _ _ (Settled-gets (λ d. d)) λ db.
    Settled-then _ _ (Settled-emit NoticeKind.payment_confirmed paid.payer_id paid.payer_id paid.id)
      (Settled-then _ _ (Settled-emit NoticeKind.payment_confirmed paid.payer_id _ paid.id)
        (progress_paid-Settled now b))

settle_booking-Settled :
    (now : ℕ) (paid : Payment) (o : Option ℕ) → Settled (settle_booking now paid o)
unfolding settle_booking
settle_booking-Settled now paid none = Settled-raise _
settle_booking-Settled now paid (some k) =
    Settled-then _ _ (Settled-modify _)
      (Settled-bind _ _ (Settled-gets _) λ o. announce_paid-Settled now paid o)

mark_paid-Settled : (now k : ℕ) (reference : Option Reference) → Settled (mark_paid now k reference)
unfolding mark_paid
mark_paid-Settled now k reference = Settled-then _ _ (Settled-modify _) (
    Settled-bind _ _ (Settled-gets _) λ found.
      Settled-bind _ _ (Settled-query found)
        λ paid. settle_booking-Settled now paid paid.booking_id)

announce_failed-Settled : (p : Payment) (o : Option Booking) → Settled (announce_failed p o)
unfolding announce_failed
announce_failed-Settled p none = Settled-pure tt
announce_failed-Settled p (some b) =
    Settled-emit NoticeKind.payment_failed p.payer_id p.payer_id p.id

process_electronic_payment-Settled :
    (gateway : Gateway) (now : ℕ) (p : Payment) → Settled (process_electronic_payment gateway now p)
unfolding process_electronic_payment
process_electronic_payment-Settled gateway now p =
    Settled-then _ _ (Settled-modify _) (elim (Bool-cases (gateway.charge p).success) [
      | inl h ↦
          rw h
            (Settled-then _ _ (mark_paid-Settled now p.id _) (Settled-pure PaymentAnswer.confirmed))
      | inr h ↦ rw h (
          Settled-then _ _ (Settled-modify _) (
            Settled-bind _ _ (Settled-query p.booking_id) λ k.
              Settled-bind _ _ (Settled-gets _) λ b.
                Settled-then _ _ (announce_failed-Settled p b) (Settled-pure PaymentAnswer.failed)))
    ])

collect-Settled : (gateway : Gateway) (now : ℕ) (p : Payment) → Settled (collect gateway now p)
unfolding collect
collect-Settled gateway now p = elim (Bool-cases (p.method == PaymentMethod.cash)) [
  | inl h ↦ rw h (Settled-pure PaymentAnswer.cash_recorded)
  | inr h ↦ elim (Bool-cases (is_some (gateway.create_intent p).client_secret)) [
    | inl c ↦
        rw (h, c) (Settled-then _ _ (Settled-modify _) (Settled-pure PaymentAnswer.intent_created))
    | inr c ↦ rw (h, c) (process_electronic_payment-Settled gateway now p)
  ]
]

insert_payment-Settled :
    (u : ℕ) (b : Booking) (method : PaymentMethod) (d : Option Discount)
    → Settled (insert_payment u b method d)
unfolding insert_payment
insert_payment-Settled u b method d =
    Settled-bind _ _ (Settled-gets (λ d. d))
      λ db. Settled-then _ _ (Settled-modify _) (Settled-pure _)

pub create_payment-Harmless :
    (gateway : Gateway) (now u k : ℕ) (method : PaymentMethod) (code : Option String) (db : Db)
    → Harmless (create_payment gateway now u k method code) db
unfolding create_payment create_payment_for_booking
create_payment-Harmless gateway now u k method code db =
    Harmless-read (λ d. d) _ db
      (Harmless-lookup (booking_by_id db k) _ _ db λ b. Harmless-check _ _ _ db (
        Harmless-check _ _ _ db (
          Harmless-read (λ d. d) _ db
            (elim (Bool-cases (is_some (payment_of_booking db b.id))) [
              | inl h ↦ rw h (Harmless-rest _ db (Settled-pure PaymentAnswer.already_exists))
              | inr h ↦ rw h (
                  Harmless-guard (checkout_discount now b code) _ db (checkout_same now b code db)
                    λ d. Harmless-rest _ db (
                      Settled-bind _ _ (insert_payment-Settled u b method d)
                        λ p. collect-Settled gateway now p))
            ]))))

pub confirm_payment-Harmless :
    (gateway : Gateway) (now u k : ℕ) (db : Db) → Harmless (confirm_payment gateway now u k) db
unfolding confirm_payment
confirm_payment-Harmless gateway now u k db =
    Harmless-read (λ d. d) _ db
      (Harmless-lookup (payment_by_id db k) _ _ db λ p. Harmless-check _ _ _ db (
        Harmless-check _ _ _ db (
          Harmless-lookup p.provider_reference _ _ db λ reference.
            Harmless-rest _ db (elim (Bool-cases (gateway.verify_intent reference).success) [
              | inl h ↦ rw h (
                  Settled-then _ _ (mark_paid-Settled now p.id _)
                    (Settled-pure PaymentAnswer.confirmed))
              | inr h ↦
                  rw h (Settled-then _ _ (Settled-modify _) (Settled-pure PaymentAnswer.failed))
            ]))))

mark_own_cash_paid-Harmless :
    (now u : ℕ) (p : Payment) (db : Db) → Harmless (mark_own_cash_paid now u p) db
unfolding mark_own_cash_paid
mark_own_cash_paid-Harmless now u p db =
    Harmless-read (λ d. d) _ db
      (Harmless-lookup (provider_of_user db u) _ _ db λ provider.
        Harmless-check _ _ _ db
          (Harmless-check _ _ _ db (Harmless-rest _ db (mark_paid-Settled now p.id none))))

pub mark_cash_paid-Harmless : (now u k : ℕ) (db : Db) → Harmless (mark_cash_paid now u k) db
unfolding mark_cash_paid
mark_cash_paid-Harmless now u k db =
    Harmless-read (λ d. d) _ db
      (Harmless-lookup (payment_by_id db k) _ _ db λ p.
        Harmless-check _ _ _ db (elim (Option-cases p.package_event_booking_id) [
          | inr (j, e) ↦ rw e (confirm_package_cash_payment-Harmless now u j db)
          | inl e ↦ rw e (mark_own_cash_paid-Harmless now u p db)
        ]))

pub refund_payment-Harmless : (k : ℕ) (db : Db) → Harmless (refund_payment k) db
unfolding refund_payment
refund_payment-Harmless k db =
    Harmless-read (λ d. d) _ db
      (Harmless-lookup (payment_by_id db k) _ _ db
        λ p. Harmless-check _ _ _ db (Harmless-rest _ db (Settled-modify _)))
