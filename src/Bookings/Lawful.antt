-- ===== src/Bookings/Lawful.antt =====
-- The customer's handlers change the database lawfully.
use eventy_backend.Base.{
  ℕ, true, ◌&&◌, ◌≡◌, refl, Option, none, some, arith, ◌==◌, nat_eq, nat_beq_iff, includes, String,
  All,
}
use eventy_backend.Model.{
  BookingStatus, booking_status_eq, EventStatus, event_status_eq, CancelledBy, Db, Booking, Event,
  booking_by_id, event_by_id, event_of, find_first, in_event, has_id, transaction, NoticeKind,
}
use eventy_backend.Evolution.Updates.{All-map, kept_by_key, find_first_sound}
use eventy_backend.Lifecycle.{BookingMove}
use eventy_backend.Change.{Lawful, Sound}
use eventy_backend.Change.Tables.{update_bookings, update_found_booking, update_events}
use eventy_backend.Change.Rules.{
  LawfulAt, then_step, then_lookup, after_read, after_lookup, after_write, lawful_when, lawful_emit,
  lawful_pure, Lawful-write, lawful_transaction,
}
use eventy_backend.Deliveries.{create_if_required}
use eventy_backend.Deliveries.Lawful.{create_if_required-Lawful}
use eventy_backend.Bookings.{
  started, is_settled, to_advance, set_event_status, set_event_status_if, try_progress_event,
  progress_event_of, awaits_customer, confirmed_until, cancelled_now, confirm_quote, reject_quote,
  progress_found, progress_booking_and_event,
}

pub set_event_status-Lawful :
    (event_id : ℕ) (s : EventStatus) (db : Db) → Lawful db (set_event_status event_id s db)
set_event_status-Lawful event_id s db = update_events db _ _ (λ e. ground arith)

pub start_move :
    (now : ℕ) (b : Booking)
    → (b.status == BookingStatus.confirmed) ≡ true
    → BookingMove b (started now b)
start_move now b h = ground arith

-- The bookings that `tryProgressEvent` starts are CONFIRMED.
advance_moves :
    (now event_id : ℕ) (db : Db)
    → Sound db
    → All
        (λ b. includes (to_advance db event_id) b.id ≡ true → BookingMove b (started now b))
        db.bookings
unfolding to_advance
advance_moves now event_id db s =
    All-map _ _ (λ b h e. start_move now b (ground (arith, h e))) db.bookings
      (kept_by_key (λ b. b.id)
        (λ b. in_event event_id b && (b.status == BookingStatus.confirmed && is_settled db b))
        db.bookings s.booking_ids)

pub try_progress_event-Lawful :
    (now event_id : ℕ) (db : Db) → LawfulAt (try_progress_event now event_id) db
unfolding try_progress_event
try_progress_event-Lawful now event_id db =
    after_read (λ d. d) _ db
      (lawful_when _ _ db λ _. lawful_transaction _ db (
        after_write _ _ db
          (update_bookings db (λ b. includes (to_advance db event_id) b.id) (started now)
            (λ b. refl) (advance_moves now event_id db))
          (Lawful-write _ _ (set_event_status-Lawful event_id EventStatus.in_progress _))))

progress_event_of-Lawful :
    (now : ℕ) (o : Option ℕ) (db : Db) → LawfulAt (progress_event_of now o) db
unfolding progress_event_of
progress_event_of-Lawful now none db = lawful_pure tt db
progress_event_of-Lawful now (some k) db = try_progress_event-Lawful now k db

awaits_id : (customer_id k : ℕ) (b : Booking) → awaits_customer customer_id k b ≡ true → b.id ≡ k
awaits_id customer_id k b h = ground arith

confirm_move :
    (t customer_id k : ℕ) (b : Booking)
    → awaits_customer customer_id k b ≡ true
    → BookingMove b (confirmed_until t b)
confirm_move t customer_id k b h = ground arith

pub confirm_quote-Lawful :
    (now customer_id k : ℕ) (db : Db) → LawfulAt (confirm_quote now customer_id k) db
unfolding confirm_quote
confirm_quote-Lawful now customer_id k db =
    after_read (λ d. d) _ db
      (after_lookup (find_first (awaits_customer customer_id k) db.bookings) _ _ db λ b found.
        after_write _ _ db
          (update_found_booking db (awaits_customer customer_id k) k _ (awaits_id customer_id k)
            (λ x. refl) b found
            (confirm_move _ customer_id k b (find_first_sound _ db.bookings b found)))
          (then_step (create_if_required k) _ _ (create_if_required-Lawful k _) (
            then_step (progress_event_of now b.event_id) _ _
              (progress_event_of-Lawful now b.event_id _)
              (after_read _ _ _ (
                then_lookup (event_of db b.event_id) _ _ _ (
                  then_step _ _ _ (lawful_emit NoticeKind.booking_accepted customer_id _ k _)
                    (lawful_pure _ _)))))))

set_event_status_if-Lawful :
    (event_id : ℕ) (s : Option EventStatus) (db : Db) → LawfulAt (set_event_status_if event_id s) db
unfolding set_event_status_if
set_event_status_if-Lawful event_id none db = lawful_pure tt db
set_event_status_if-Lawful event_id (some s) db =
    Lawful-write _ db (set_event_status-Lawful event_id s db)

reject_move :
    (now : ℕ) (why : String) (customer_id k : ℕ) (b : Booking)
    → awaits_customer customer_id k b ≡ true
    → BookingMove b (cancelled_now now CancelledBy.customer why b)
reject_move now why customer_id k b h = ground arith

pub reject_quote-Lawful :
    (now customer_id k : ℕ) (db : Db) → LawfulAt (reject_quote now customer_id k) db
unfolding reject_quote
reject_quote-Lawful now customer_id k db =
    after_read (λ d. d) _ db
      (after_lookup (find_first (awaits_customer customer_id k) db.bookings) _ _ db λ b found.
        after_lookup (event_of db b.event_id) _ _ db λ event _.
          then_step (transaction _) _ db
            (lawful_transaction _ db (
              after_write _ _ db
                (update_found_booking db (awaits_customer customer_id k) k _
                  (awaits_id customer_id k) (λ x. refl) b found
                  (reject_move now _ customer_id k b (find_first_sound _ db.bookings b found)))
                (set_event_status_if-Lawful event.id _ _)))
            (after_read _ _ _ (
              then_step _ _ _ (lawful_emit NoticeKind.booking_rejected customer_id _ k _) (
                lawful_when _ _ _
                  λ _. lawful_emit NoticeKind.event_cancelled customer_id _ event.id _))))

progress_found-Lawful :
    (now k : ℕ) (ob : Option Booking) (oe : Option Event) (db : Db)
    → booking_by_id db k ≡ ob
    → LawfulAt (progress_found now k ob oe) db
unfolding progress_found
progress_found-Lawful now k none oe db found = lawful_pure tt db
progress_found-Lawful now k (some b) none db found = lawful_pure tt db
progress_found-Lawful now k (some b) (some e) db found = lawful_when _ _ db λ confirmed.
    then_step (transaction _) _ db
      (lawful_transaction _ db (
        after_write _ _ db
          (update_found_booking db (has_id k) k (started now) (λ x h. (nat_beq_iff x.id k).0 h)
            (λ x. refl) b found (start_move now b confirmed))
          (lawful_when _ _ _
            λ _. Lawful-write _ _ (set_event_status-Lawful e.id EventStatus.in_progress _))))
      (after_read _ _ _ (lawful_emit NoticeKind.booking_accepted b.customer_id _ b.id _))

pub progress_booking_and_event-Lawful :
    (now k event_id : ℕ) (db : Db) → LawfulAt (progress_booking_and_event now k event_id) db
unfolding progress_booking_and_event
progress_booking_and_event-Lawful now k event_id db =
    after_read (λ d. d) _ db
      (progress_found-Lawful now k (booking_by_id db k) (event_by_id db event_id) db refl)
