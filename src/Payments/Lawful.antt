-- ===== src/Payments/Lawful.antt =====
-- The payment handlers change the database lawfully, whatever the gateway answers.
use mathlib.Core.Path.{subst}
use eventy_backend.Base.{
  sym, ℕ, suc, ◌<◌, true, ◌≡◌, ◌≢◌, refl, Option, none, some, arith, ◌==◌, nat_eq, nat_beq_iff,
  List, [], ◌∷◌, ◌++◌, All, String, is_some, Bool-cases, Option-cases, inl, inr,
}
use eventy_backend.Model.{
  PaymentMethod, payment_method_eq, PaymentStatus, payment_status_eq, Reference, Db, Booking,
  Payment, Discount, NoticeKind, HttpError, ◌>>=◌, run_handler, booking_by_id, payment_of_booking,
  provider_of_user, has_id, booking_status_eq,
}
use eventy_backend.Evolution.Updates.{All-map, find_first_sound}
use eventy_backend.Evolution.Lookups.{find-update_self, find-append}
use eventy_backend.Lifecycle.{BookingMove}
use eventy_backend.Change.{PaymentMove, IsStamped, Lawful, later_payment}
use eventy_backend.Change.Tables.{update_bookings, Lawful-trans, later_for_both}
use eventy_backend.Change.Payments.{update_found_payment, add_payment}
use eventy_backend.Change.Rules.{
  LawfulAt, after_read, after_lookup, after_check, after_write, after_guard, then_step, lawful_emit,
  lawful_pure, lawful_raise, Lawful-write,
}
use eventy_backend.Discounts.Redeem.{resolve_active_discount_for_service, match_or_null, refuse}
use eventy_backend.Bookings.Lawful.{progress_booking_and_event-Lawful}
use eventy_backend.Packages.Lawful.{
  try_progress_package_booking-Lawful, confirm_package_cash_payment-Lawful,
}
use eventy_backend.Payments.{
  Gateway, payment_by_id, set_payment, with_payment_status, paid_with, without_deadline,
  progress_paid, announce_paid, settle_booking, mark_paid, announce_failed, PaymentAnswer,
  process_electronic_payment, checkout_discount, new_payment, insert_payment, awaits_intent,
  collect, create_payment_for_booking, create_payment, confirm_payment, is_confirmable,
  mark_own_cash_paid, mark_cash_paid, refund_payment,
}

-- An update of a payment by its id that moves it forward.
set_payment-Lawful :
    (db : Db) (k : ℕ) (f : Payment → Payment) (r : Payment)
    → payment_by_id db k ≡ some r
    → ((x : Payment) → (f x).id ≡ x.id)
    → ((x : Payment) → (f x).booking_id ≡ x.booking_id)
    → PaymentMove r (f r)
    → (IsStamped r → IsStamped (f r))
    → Lawful db (set_payment k f db)
set_payment-Lawful db k f r found same_id same_booking move stamp =
    update_found_payment db (λ p. p.id == k) k f (λ x h. (nat_beq_iff x.id k).0 h) same_id
      same_booking r found move stamp

status_move :
    (r : Payment) (s : PaymentStatus)
    → later_payment r.status s ≡ true
    → PaymentMove r (with_payment_status s r)
status_move r s h = record {
  same_id = refl;
  same_booking = refl;
  same_package = refl;
  same_payer = refl;
  same_amount = refl;
  same_method = λ _. refl;
  forward = later_for_both _ _ _ h;
  still_dated = λ d. d;
}

paid_move :
    (now : ℕ) (reference : Option Reference) (r : Payment)
    → later_payment r.status PaymentStatus.paid ≡ true
    → PaymentMove r (paid_with now reference r)
paid_move now reference r h = record {
  same_id = refl;
  same_booking = refl;
  same_package = refl;
  same_payer = refl;
  same_amount = refl;
  same_method = λ _. refl;
  forward = later_for_both _ _ _ h;
  still_dated = λ _. refl;
}

intent_move :
    (reference : Option Reference) (r : Payment)
    → later_payment r.status PaymentStatus.processing ≡ true
    → PaymentMove r (awaits_intent reference r)
intent_move reference r h = record {
  same_id = refl;
  same_booking = refl;
  same_package = refl;
  same_payer = refl;
  same_amount = refl;
  same_method = λ _. refl;
  forward = later_for_both _ _ _ h;
  still_dated = λ d. d;
}

progress_paid-Lawful : (now : ℕ) (b : Booking) (db : Db) → LawfulAt (progress_paid now b) db
unfolding progress_paid
progress_paid-Lawful now b db = elim (Option-cases b.package_event_booking_id) [
  | inr (k, e) ↦ rw e (try_progress_package_booking-Lawful now k db)
  | inl e ↦ elim (Option-cases b.event_id) [
    | inr (k, q) ↦ rw (e, q) (progress_booking_and_event-Lawful now k k db)
    | inl q ↦ rw (e, q) (lawful_pure tt db)
  ]
]

announce_paid-Lawful :
    (now : ℕ) (paid : Payment) (o : Option Booking) (db : Db)
    → LawfulAt (announce_paid now paid o) db
unfolding announce_paid
announce_paid-Lawful now paid none db = lawful_pure tt db
announce_paid-Lawful now paid (some b) db =
    after_read (λ d. d) _ db
      (then_step _ _ db
        (lawful_emit NoticeKind.payment_confirmed paid.payer_id paid.payer_id paid.id db)
        (then_step _ _ _ (lawful_emit NoticeKind.payment_confirmed paid.payer_id _ paid.id _)
          (progress_paid-Lawful now b _)))

no_deadline_moves :
    (k : ℕ) (bs : List Booking)
    → All (λ b. has_id k b ≡ true → BookingMove b (without_deadline b)) bs
no_deadline_moves k [] = tt
no_deadline_moves k (b ∷ bs) = ((λ _. ground arith), no_deadline_moves k bs)

settle_booking-Lawful :
    (now : ℕ) (paid : Payment) (o : Option ℕ) (db : Db) → LawfulAt (settle_booking now paid o) db
unfolding settle_booking
settle_booking-Lawful now paid none db = lawful_raise _ HttpError.query_error db
settle_booking-Lawful now paid (some k) db =
    after_write _ _ db
      (update_bookings db (has_id k) without_deadline (λ b. refl)
        (λ _. no_deadline_moves k db.bookings))
      (after_read _ _ _ (announce_paid-Lawful now paid _ _))

pub mark_paid-Lawful :
    (now k : ℕ) (reference : Option Reference) (r : Payment) (db : Db)
    → payment_by_id db k ≡ some r
    → later_payment r.status PaymentStatus.paid ≡ true
    → LawfulAt (mark_paid now k reference) db
unfolding mark_paid
mark_paid-Lawful now k reference r db found h =
    after_write _ _ db
      (set_payment-Lawful db k (paid_with now reference) r found (λ x. refl) (λ x. refl)
        (paid_move now reference r h) (λ _ _. refl))
      (after_read _ _ _ (
        after_lookup (payment_by_id (set_payment k (paid_with now reference) db) k) _ _ _
          λ paid _. settle_booking-Lawful now paid paid.booking_id _))

announce_failed-Lawful :
    (p : Payment) (o : Option Booking) (db : Db) → LawfulAt (announce_failed p o) db
unfolding announce_failed
announce_failed-Lawful p none db = lawful_pure tt db
announce_failed-Lawful p (some b) db =
    lawful_emit NoticeKind.payment_failed p.payer_id p.payer_id p.id db

found_after :
    (db : Db) (k : ℕ) (f : Payment → Payment) (r : Payment)
    → ((x : Payment) → (f x).id ≡ x.id)
    → payment_by_id db k ≡ some r
    → payment_by_id (set_payment k f db) k ≡ some (f r)
found_after db k f r same found = find-update_self (λ p. p.id) f k same db.payments r found

process_electronic_payment-Lawful :
    (gateway : Gateway) (now : ℕ) (p : Payment) (db : Db)
    → payment_by_id db p.id ≡ some p
    → p.status ≡ PaymentStatus.pending
    → LawfulAt (process_electronic_payment gateway now p) db
unfolding process_electronic_payment
process_electronic_payment-Lawful gateway now p db found pending =
    let found2 =
      found_after db p.id (with_payment_status PaymentStatus.processing) p (λ x. refl) found in
    after_write _ _ db
      (set_payment-Lawful db p.id (with_payment_status PaymentStatus.processing) p found (λ x. refl)
        (λ x. refl) (status_move p PaymentStatus.processing (rw pending refl)) (λ _ e. cc))
      (elim (Bool-cases (gateway.charge p).success) [
        | inl h ↦ rw h (
            then_step _ _ _ (mark_paid-Lawful now p.id _ _ _ found2 refl)
              (lawful_pure PaymentAnswer.confirmed _))
        | inr h ↦ rw h (
            after_write _ _ _
              (set_payment-Lawful _ p.id (with_payment_status PaymentStatus.failed) _ found2
                (λ x. refl) (λ x. refl) (status_move _ PaymentStatus.failed refl) (λ _ e. cc))
              (after_lookup p.booking_id _ _ _ λ k _. after_read _ _ _ (
                then_step _ _ _ (announce_failed-Lawful p _ _)
                  (lawful_pure PaymentAnswer.failed _))))
      ])

pub checkout_same :
    (now : ℕ) (b : Booking) (code : Option String) (db : Db)
    → (checkout_discount now b code db).0 ≡ db
unfolding checkout_discount run_handler resolve_active_discount_for_service match_or_null refuse
checkout_same now b code db = ground arith

-- What collecting needs: the row is the PENDING one that its id finds.
collect-Lawful :
    (gateway : Gateway) (now : ℕ) (p : Payment) (db : Db)
    → payment_by_id db p.id ≡ some p
    → p.status ≡ PaymentStatus.pending
    → LawfulAt (collect gateway now p) db
unfolding collect
collect-Lawful gateway now p db found pending = elim (Bool-cases (p.method == PaymentMethod.cash)) [
  | inl h ↦ rw h (lawful_pure PaymentAnswer.cash_recorded db)
  | inr h ↦ elim (Bool-cases (is_some (gateway.create_intent p).client_secret)) [
    | inl c ↦
        rw (h, c)
          (after_write _ _ db
            (set_payment-Lawful db p.id (awaits_intent _) p found (λ x. refl) (λ x. refl)
              (intent_move _ p (rw pending refl)) (λ _ e. cc))
            (lawful_pure PaymentAnswer.intent_created _))
    | inr c ↦ rw (h, c) (process_electronic_payment-Lawful gateway now p db found pending)
  ]
]

insert_payment-Lawful :
    (gateway : Gateway) (now payer_id : ℕ) (b : Booking) (method : PaymentMethod)
    (discount : Option Discount) (db : Db)
    → payment_of_booking db b.id ≡ none
    → LawfulAt (insert_payment payer_id b method discount >>= collect gateway now) db
unfolding insert_payment new_payment LawfulAt run_handler
insert_payment-Lawful gateway now payer_id b method discount db absent s =
    let row = new_payment db.next_id payer_id b method discount in
    let after : Db = record db { payments = db.payments ++ row ∷ []; next_id = suc db.next_id } in
    let fresh : All (λ p. p.id ≢ row.id) db.payments =
      All-map (λ p. p.id < db.next_id) (λ p. p.id ≢ row.id) (λ p l e. omega arith) db.payments
        s.payments.fresh in
    Lawful-trans db after _ (add_payment db b.id row refl refl refl (λ e. cc) absent)
      (collect-Lawful gateway now row after (find-append (λ p. p.id) db.payments row fresh) refl) s

create_payment_for_booking-Lawful :
    (gateway : Gateway) (now payer_id : ℕ) (b : Booking) (method : PaymentMethod)
    (code : Option String) (db : Db)
    → LawfulAt (create_payment_for_booking gateway now payer_id b method code) db
unfolding create_payment_for_booking
create_payment_for_booking-Lawful gateway now payer_id b method code db =
    after_read (λ d. d) _ db
      (elim (Option-cases (payment_of_booking db b.id)) [
        | inr (p, e) ↦ rw e (lawful_pure PaymentAnswer.already_exists db)
        | inl e ↦ rw e (
            after_guard (checkout_discount now b code) _ db (checkout_same now b code db)
              λ discount. insert_payment-Lawful gateway now payer_id b method discount db e)
      ])

pub create_payment-Lawful :
    (gateway : Gateway) (now user_id k : ℕ) (method : PaymentMethod) (code : Option String)
    (db : Db)
    → LawfulAt (create_payment gateway now user_id k method code) db
unfolding create_payment
create_payment-Lawful gateway now user_id k method code db =
    after_read (λ d. d) _ db
      (after_lookup (booking_by_id db k) _ _ db λ b _. after_check _ _ _ db λ _.
        after_check _ _ _ db
          λ _. create_payment_for_booking-Lawful gateway now user_id b method code db)

-- What the lookup of an id finds is what its own id finds.
found_own_id :
    (db : Db) (k : ℕ) (p : Payment) → payment_by_id db k ≡ some p → payment_by_id db p.id ≡ some p
found_own_id db k p found =
    subst (λ j. payment_by_id db j ≡ some p)
      (sym ((nat_beq_iff p.id k).0 (find_first_sound (λ x. x.id == k) db.payments p found))) found

pub confirm_payment-Lawful :
    (gateway : Gateway) (now user_id k : ℕ) (db : Db)
    → LawfulAt (confirm_payment gateway now user_id k) db
unfolding confirm_payment
confirm_payment-Lawful gateway now user_id k db =
    after_read (λ d. d) _ db
      (after_lookup (payment_by_id db k) _ _ db λ p found. after_check _ _ _ db λ _.
        after_check _ _ _ db λ processing. after_lookup p.provider_reference _ _ db λ reference _.
          let own : payment_by_id db p.id ≡ some p = found_own_id db k p found in
          elim (Bool-cases (gateway.verify_intent reference).success) [
            | inl h ↦ rw h (
                then_step _ _ db (mark_paid-Lawful now p.id _ p db own (ground arith))
                  (lawful_pure PaymentAnswer.confirmed _))
            | inr h ↦ rw h (
                after_write _ _ db
                  (set_payment-Lawful db p.id (with_payment_status PaymentStatus.failed) p own
                    (λ x. refl) (λ x. refl) (status_move p PaymentStatus.failed (ground arith))
                    (λ _ e. cc))
                  (lawful_pure PaymentAnswer.failed _))
          ])

mark_own_cash_paid-Lawful :
    (now user_id : ℕ) (p : Payment) (db : Db)
    → payment_by_id db p.id ≡ some p
    → LawfulAt (mark_own_cash_paid now user_id p) db
unfolding mark_own_cash_paid
mark_own_cash_paid-Lawful now user_id p db own =
    after_read (λ d. d) _ db
      (after_lookup (provider_of_user db user_id) _ _ db λ provider _. after_check _ _ _ db λ _.
        after_check (is_confirmable p.status) _ _ db
          λ confirmable. mark_paid-Lawful now p.id none p db own (ground arith))

pub mark_cash_paid-Lawful :
    (now user_id k : ℕ) (db : Db) → LawfulAt (mark_cash_paid now user_id k) db
unfolding mark_cash_paid
mark_cash_paid-Lawful now user_id k db =
    after_read (λ d. d) _ db
      (after_lookup (payment_by_id db k) _ _ db λ p found. after_check _ _ _ db λ _.
        elim (Option-cases p.package_event_booking_id) [
          | inr (j, e) ↦ rw e (confirm_package_cash_payment-Lawful now user_id j db)
          | inl e ↦ rw e (mark_own_cash_paid-Lawful now user_id p db (found_own_id db k p found))
        ])

pub refund_payment-Lawful : (k : ℕ) (db : Db) → LawfulAt (refund_payment k) db
unfolding refund_payment
refund_payment-Lawful k db =
    after_read (λ d. d) _ db
      (after_lookup (payment_by_id db k) _ _ db λ p found.
        after_check (p.status == PaymentStatus.paid) _ _ db λ paid. Lawful-write _ db (
          set_payment-Lawful db k (with_payment_status PaymentStatus.refunded) p found (λ x. refl)
            (λ x. refl) (status_move p PaymentStatus.refunded (ground arith))
            (λ stamped _. stamped (ground arith))))
