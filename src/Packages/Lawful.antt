-- ===== src/Packages/Lawful.antt =====
-- The progression of a booked package changes the database lawfully.
use eventy_backend.Base.{
  ℕ, true, ◌&&◌, ◌≡◌, refl, Option, none, some, arith, ◌==◌, nat_eq, includes, List, [], ◌∷◌, All,
}
use eventy_backend.Model.{
  BookingStatus, booking_status_eq, EventStatus, payment_method_eq, payment_status_eq,
  package_booking_status_eq, Db, Booking, Event, Payment, PackageBooking, transaction, NoticeKind,
  package_booking_by_id, provider_of_user, event_of,
}
use eventy_backend.Evolution.Updates.{All-map, kept_by_key}
use eventy_backend.Lifecycle.{BookingMove}
use eventy_backend.Change.{PaymentMove, Sound}
use eventy_backend.Change.Tables.{update_bookings, set_package_bookings, later_for_both}
use eventy_backend.Change.Payments.{update_own_payment}
use eventy_backend.Change.Rules.{
  LawfulAt, after_read, after_lookup, after_check, after_write, then_step, lawful_when, lawful_emit,
  lawful_pure, Lawful-write, lawful_transaction, lawful_for_each,
}
use eventy_backend.Bookings.{started}
use eventy_backend.Bookings.Lawful.{set_event_status-Lawful, start_move}
use eventy_backend.Packages.{
  of_package, package_payment, package_by_id, package_partner_user_ids, event_in_progress,
  progress_package_to_in_progress, awaits_cash, paid_now, confirm_package_cash_payment,
  package_to_advance, progress_draft_event, progress_package_found, try_progress_package_booking,
}

event_in_progress-Lawful : (o : Option ℕ) (db : Db) → LawfulAt (event_in_progress o) db
unfolding event_in_progress
event_in_progress-Lawful none db = lawful_pure tt db
event_in_progress-Lawful (some k) db =
    Lawful-write _ db (set_event_status-Lawful k EventStatus.in_progress db)

start-All :
    (now k : ℕ) (bs : List Booking)
    → All
        (λ b.
          (of_package k b && b.status == BookingStatus.confirmed) ≡ true
          → BookingMove b (started now b))
        bs
start-All now k [] = tt
start-All now k (b ∷ bs) = ((λ h. start_move now b (ground arith)), start-All now k bs)

pub progress_package_to_in_progress-Lawful :
    (now k : ℕ) (event_id : Option ℕ) (db : Db)
    → LawfulAt (progress_package_to_in_progress now k event_id) db
unfolding progress_package_to_in_progress
progress_package_to_in_progress-Lawful now k event_id db = lawful_transaction _ db (
    after_write _ _ db (set_package_bookings db _) (
      after_write _ _ _ (update_bookings _ _ (started now) (λ b. refl) (λ _. start-All now k _))
        (event_in_progress-Lawful event_id _)))

advance_moves :
    (now k : ℕ) (db : Db)
    → Sound db
    → All
        (λ b. includes (package_to_advance db k) b.id ≡ true → BookingMove b (started now b))
        db.bookings
unfolding package_to_advance
advance_moves now k db s =
    All-map _ _ (λ b h e. start_move now b (ground (arith, h e))) db.bookings
      (kept_by_key (λ b. b.id) _ db.bookings s.booking_ids)

progress_draft_event-Lawful : (o : Option Event) (db : Db) → LawfulAt (progress_draft_event o) db
unfolding progress_draft_event
progress_draft_event-Lawful none db = lawful_pure tt db
progress_draft_event-Lawful (some e) db =
    lawful_when _ _ db
      λ _. Lawful-write _ db (set_event_status-Lawful e.id EventStatus.in_progress db)

progress_package_found-Lawful :
    (now : ℕ) (o : Option PackageBooking) (db : Db) → LawfulAt (progress_package_found now o) db
unfolding progress_package_found
progress_package_found-Lawful now none db = lawful_pure tt db
progress_package_found-Lawful now (some pb) db =
    after_read (λ d. d) _ db
      (lawful_when _ _ db λ _.
        then_step (transaction _) _ db
          (lawful_transaction _ db (
            after_write _ _ db
              (update_bookings db (λ b. includes (package_to_advance db pb.id) b.id) (started now)
                (λ b. refl) (advance_moves now pb.id db))
              (after_write _ _ _ (set_package_bookings _ _)
                (progress_draft_event-Lawful (event_of db pb.event_id) _))))
          (lawful_emit NoticeKind.package_payment_confirmed pb.customer_id _ pb.id _))

pub try_progress_package_booking-Lawful :
    (now k : ℕ) (db : Db) → LawfulAt (try_progress_package_booking now k) db
unfolding try_progress_package_booking
try_progress_package_booking-Lawful now k db =
    after_read _ _ db (progress_package_found-Lawful now (package_booking_by_id db k) db)

cash_move : (now : ℕ) (p : Payment) → awaits_cash p ≡ true → PaymentMove p (paid_now now p)
cash_move now p h = record {
  same_id = refl;
  same_booking = refl;
  same_package = refl;
  same_payer = refl;
  same_amount = refl;
  same_method = λ _. refl;
  forward = later_for_both _ _ _ (ground arith);
  still_dated = λ _. refl;
}

pub confirm_package_cash_payment-Lawful :
    (now user_id k : ℕ) (db : Db) → LawfulAt (confirm_package_cash_payment now user_id k) db
unfolding confirm_package_cash_payment
confirm_package_cash_payment-Lawful now user_id k db =
    after_read (λ d. d) _ db
      (after_lookup (provider_of_user db user_id) _ _ db λ provider _.
        after_lookup (package_booking_by_id db k) _ _ db λ pb _.
          after_lookup (package_by_id db pb.package_id) _ _ db λ owned _. after_check _ _ _ db λ _.
            after_check _ _ _ db λ _. after_lookup (package_payment db k) _ _ db λ payment found.
              after_check _ _ _ db λ awaits.
                after_write _ _ db
                  (update_own_payment db _ (paid_now now) (λ x. refl) (λ x. refl) payment found
                    (cash_move now payment awaits) (λ _ _. refl))
                  (then_step (progress_package_to_in_progress now k pb.event_id) _ _
                    (progress_package_to_in_progress-Lawful now k pb.event_id _)
                    (lawful_for_each _
                      (λ u d. lawful_emit NoticeKind.package_payment_confirmed user_id u k d)
                      (package_partner_user_ids db pb.package_id) _)))
