-- ===== src/PackageBookings/Paying/Lawful.antt =====
-- Paying for a booked package changes the database lawfully, whatever the gateway answers.
use eventy_backend.Base.{
  ℕ, Bool, true, false, ◌≡◌, refl, Option, some, ◌==◌, nat_eq, is_some, arith, Bool-cases, inl, inr,
}
use eventy_backend.Model.{
  PaymentMethod, payment_method_eq, PaymentStatus, payment_status_eq, Reference, Db, Payment,
  PackageBooking, NoticeKind,
}
use eventy_backend.Change.{PaymentMove, IsStamped, Lawful}
use eventy_backend.Change.Payments.{found-AreAlone, update_alone_payments}
use eventy_backend.Change.Rules.{
  LawfulAt, after_guard, after_read, after_lookup, after_check, after_write, then_step, lawful_emit,
  lawful_pure, lawful_for_each,
}
use eventy_backend.Packages.{package_payment, progress_package_to_in_progress}
use eventy_backend.Packages.Lawful.{progress_package_to_in_progress-Lawful}
use eventy_backend.Payments.{Gateway, PaymentAnswer, set_payment, with_payment_status, paid_with}
use eventy_backend.PackageBookings.{own_package_booking}
use eventy_backend.PackageBookings.Lawful.{own_same, package_forward}
use eventy_backend.PackageBookings.Paying.{
  intended, transferred, chosen, start_paid_package, pay_by, pay_package_booking,
  confirm_package_card_payment,
}

-- What an update of a package's payment must leave alone.
record Kept (f : Payment → Payment) (x : Payment) : Type 0 where
  id : (f x).id ≡ x.id
  booking : (f x).booking_id ≡ x.booking_id
  of_package : (f x).package_event_booking_id ≡ x.package_event_booking_id
  payer : (f x).payer_id ≡ x.payer_id
  amount : (f x).amount ≡ x.amount
  progress : ((f x).status == PaymentStatus.pending) ≡ false
  dated : is_some x.paid_at ≡ true → is_some (f x).paid_at ≡ true

Kept-move :
    (f : Payment → Payment) (x : Payment)
    → Kept f x
    → is_some x.booking_id ≡ false
    → PaymentMove x (f x)
Kept-move f x h alone = record {
  same_id = h.id;
  same_booking = h.booking;
  same_package = h.of_package;
  same_payer = h.payer;
  same_amount = h.amount;
  same_method = λ e. absurd (clash e alone);
  forward = package_forward _ _ _ alone h.progress;
  still_dated = h.dated;
}
  where
    clash : {b : Bool} → b ≡ true → b ≡ false → ⊥
    clash p q = cc

set_package_payment-Lawful :
    (db : Db) (k : ℕ) (f : Payment → Payment) (r : Payment)
    → package_payment db k ≡ some r
    → ((x : Payment) → Kept f x)
    → ((x : Payment) → IsStamped x → IsStamped (f x))
    → Lawful db (set_payment r.id f db)
set_package_payment-Lawful db k f r found kept stamp =
    update_alone_payments db r.id f (λ x. (kept x).id) (λ x. (kept x).booking)
      (λ s. found-AreAlone db k r s found) (λ x. Kept-move f x (kept x)) stamp

start_paid_package-Lawful :
    (now u : ℕ) (pb : PackageBooking) (db : Db) → LawfulAt (start_paid_package now u pb) db
unfolding start_paid_package
start_paid_package-Lawful now u pb db =
    then_step (progress_package_to_in_progress now pb.id pb.event_id) _ db
      (progress_package_to_in_progress-Lawful now pb.id pb.event_id db)
      (after_read _ _ _ (
        lawful_for_each _
          (λ partner d. lawful_emit NoticeKind.package_payment_confirmed u partner pb.id d) _ _))

intended_keeps :
    (method : PaymentMethod) (reference : Option Reference) (x : Payment)
    → Kept (intended method reference) x
intended_keeps method reference x = ground arith

transferred_keeps :
    (now k : ℕ) (method : PaymentMethod) (x : Payment) → Kept (transferred now k method) x
transferred_keeps now k method x = ground arith

chosen_keeps : (method : PaymentMethod) (x : Payment) → Kept (chosen method) x
chosen_keeps method x = ground arith

failed_keeps : (x : Payment) → Kept (with_payment_status PaymentStatus.failed) x
failed_keeps x = ground arith

paid_keeps :
    (now : ℕ) (reference : Option Reference) (x : Payment) → Kept (paid_with now reference) x
paid_keeps now reference x = ground arith

pay_by-Lawful :
    (gateway : Gateway) (now u k : ℕ) (pb : PackageBooking) (p : Payment) (method : PaymentMethod)
    (db : Db)
    → package_payment db k ≡ some p
    → LawfulAt (pay_by gateway now u pb p method) db
unfolding pay_by
pay_by-Lawful gateway now u k pb p method db found =
    elim (Bool-cases (method == PaymentMethod.bank_transfer)) [
      | inl t ↦ elim (Bool-cases (is_some (gateway.create_intent p).client_secret)) [
        | inl c ↦
            rw (t, c)
              (after_write _ _ db
                (set_package_payment-Lawful db k (intended method _) p found
                  (intended_keeps method _) (λ _ _ e. cc))
                (lawful_pure PaymentAnswer.intent_created _))
        | inr c ↦
            rw (t, c)
              (after_write _ _ db
                (set_package_payment-Lawful db k (transferred now pb.id method) p found
                  (transferred_keeps now pb.id method) (λ _ _ _. refl))
                (then_step _ _ _ (start_paid_package-Lawful now u pb _)
                  (lawful_pure PaymentAnswer.confirmed _)))
      ]
      | inr t ↦ rw t (
          after_write _ _ db
            (set_package_payment-Lawful db k (chosen method) p found (chosen_keeps method)
              (λ _ _ e. cc))
            (after_read _ _ _ (
              then_step _ _ _ (lawful_emit NoticeKind.package_payment_cash_chosen u _ pb.id _)
                (lawful_pure PaymentAnswer.cash_recorded _))))
    ]

pub pay_package_booking-Lawful :
    (gateway : Gateway) (now u k : ℕ) (method : PaymentMethod) (db : Db)
    → LawfulAt (pay_package_booking gateway now u k method) db
unfolding pay_package_booking
pay_package_booking-Lawful gateway now u k method db =
    after_guard (own_package_booking u k) _ db (own_same u k db) λ pb. after_check _ _ _ db λ _.
      after_read (λ d. package_payment d k) _ db
        (after_lookup (package_payment db k) _ _ db λ p found.
          elim (Bool-cases (p.status == PaymentStatus.paid)) [
            | inl h ↦ rw h (lawful_pure PaymentAnswer.already_exists db)
            | inr h ↦ rw h (pay_by-Lawful gateway now u k pb p method db found)
          ])

pub confirm_package_card_payment-Lawful :
    (gateway : Gateway) (now u k : ℕ) (db : Db)
    → LawfulAt (confirm_package_card_payment gateway now u k) db
unfolding confirm_package_card_payment
confirm_package_card_payment-Lawful gateway now u k db =
    after_guard (own_package_booking u k) _ db (own_same u k db) λ pb.
      after_read (λ d. package_payment d k) _ db
        (after_lookup (package_payment db k) _ _ db λ p found. after_check _ _ _ db λ _.
          after_lookup p.provider_reference _ _ db λ reference _.
            elim (Bool-cases (gateway.verify_intent reference).success) [
              | inl h ↦ rw h (
                  after_write _ _ db
                    (set_package_payment-Lawful db k (paid_with now _) p found (paid_keeps now _)
                      (λ _ _ _. refl))
                    (then_step _ _ _ (start_paid_package-Lawful now u pb _)
                      (lawful_pure PaymentAnswer.confirmed _)))
              | inr h ↦ rw h (
                  after_write _ _ db
                    (set_package_payment-Lawful db k (with_payment_status PaymentStatus.failed) p
                      found failed_keeps (λ _ _ e. cc))
                    (lawful_pure PaymentAnswer.failed _))
            ])
