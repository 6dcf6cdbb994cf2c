-- ===== src/Refusal/Bookings.antt =====
-- The bookings', events' and deliveries' handlers write only once every check has passed.
use eventy_backend.Base.{ℕ, Bool, ◌≡◌, Option, none, some, List, String, nat_eq, arith}
use eventy_backend.Model.{
  EventStatus, payment_method_eq, Db, Booking, Event, NoticeKind, FulfillmentStatus, find_first,
  booking_by_id, event_by_id, event_of, provider_of_user, run_handler,
}
use eventy_backend.Refusal.{
  Harmless, Settled, Harmless-passed, Harmless-read, Harmless-lookup, Harmless-rest, Harmless-check,
  Harmless-refusal, Harmless-write, Settled-bind, Settled-then, Settled-pure, Settled-gets,
  Settled-lookup, Settled-transaction, Settled-for_each, Settled-modify, Settled-emit, Settled-when,
}
use eventy_backend.Deliveries.{
  create_delivery, create_for, create_if_required, delivery_by_id, notify, update_status,
}
use eventy_backend.Bookings.{
  awaits_customer, try_progress_event, progress_event_of, confirm_quote, set_event_status_if,
  reject_quote, progress_found, progress_booking_and_event,
}
use eventy_backend.ProviderBookings.{
  SendQuote, owned_by, items_of, check_quote, quoted_lines, price_item, send_quote,
  complete_booking, reject_booking,
}
use eventy_backend.Events.{cancel_event, User, set_archived}
use eventy_backend.Cleanup.{
  expire_booking, handle_expired_bookings, complete_event, complete_past_events,
}

create_for-Settled : (o : Option Booking) → Settled (create_for o)
unfolding create_for create_delivery Settled run_handler
create_for-Settled none db e c = cc
create_for-Settled (some b) db e c = ground arith

create_if_required-Settled : (k : ℕ) → Settled (create_if_required k)
unfolding create_if_required
create_if_required-Settled k = Settled-bind _ _ (Settled-gets _) (λ o. create_for-Settled o)

try_progress_event-Settled : (now k : ℕ) → Settled (try_progress_event now k)
unfolding try_progress_event
try_progress_event-Settled now k = Settled-bind _ _ (Settled-gets _) λ db.
    Settled-when _ _
      (Settled-transaction _ (Settled-then _ _ (Settled-modify _) (Settled-modify _)))

progress_event_of-Settled : (now : ℕ) (o : Option ℕ) → Settled (progress_event_of now o)
unfolding progress_event_of
progress_event_of-Settled now none = Settled-pure tt
progress_event_of-Settled now (some k) = try_progress_event-Settled now k

pub confirm_quote-Harmless : (now u k : ℕ) (db : Db) → Harmless (confirm_quote now u k) db
unfolding confirm_quote
confirm_quote-Harmless now u k db =
    Harmless-read (λ d. d) _ db
      (Harmless-lookup (find_first (awaits_customer u k) db.bookings) _ _ db λ b.
        Harmless-write _ _ db (
          Settled-then _ _ (create_if_required-Settled k) (
            Settled-then _ _ (progress_event_of-Settled now b.event_id) (
              Settled-bind _ _ (Settled-gets _) λ updated.
                Settled-then _ _ (Settled-lookup (event_of db b.event_id)) (
                  Settled-then _ _ (Settled-emit NoticeKind.booking_accepted u _ k)
                    (Settled-pure _))))))

set_event_status_if-Settled : (k : ℕ) (o : Option EventStatus) → Settled (set_event_status_if k o)
unfolding set_event_status_if
set_event_status_if-Settled k none = Settled-pure tt
set_event_status_if-Settled k (some s) = Settled-modify _

pub reject_quote-Harmless : (now u k : ℕ) (db : Db) → Harmless (reject_quote now u k) db
unfolding reject_quote
reject_quote-Harmless now u k db =
    Harmless-read (λ d. d) _ db
      (Harmless-lookup (find_first (awaits_customer u k) db.bookings) _ _ db λ b.
        Harmless-lookup (event_of db b.event_id) _ _ db λ event. Harmless-rest _ db (
          Settled-then _ _
            (Settled-transaction _
              (Settled-then _ _ (Settled-modify _) (set_event_status_if-Settled event.id _)))
            (Settled-bind _ _ (Settled-gets (λ d. d)) λ after.
              Settled-then _ _ (Settled-emit NoticeKind.booking_rejected u _ k)
                (Settled-when _ _ (Settled-emit NoticeKind.event_cancelled u u event.id)))))

progress_found-Settled :
    (now k : ℕ) (ob : Option Booking) (oe : Option Event) → Settled (progress_found now k ob oe)
unfolding progress_found
progress_found-Settled now k none oe = Settled-pure tt
progress_found-Settled now k (some b) none = Settled-pure tt
progress_found-Settled now k (some b) (some e) = Settled-when _ _ (
    Settled-then _ _
      (Settled-transaction _
        (Settled-then _ _ (Settled-modify _) (Settled-when _ _ (Settled-modify _))))
      (Settled-bind _ _ (Settled-gets (λ d. d))
        λ db. Settled-emit NoticeKind.booking_accepted b.customer_id _ b.id))

pub progress_booking_and_event-Settled :
    (now k event_id : ℕ) → Settled (progress_booking_and_event now k event_id)
unfolding progress_booking_and_event
progress_booking_and_event-Settled now k event_id =
    Settled-bind _ _ (Settled-gets _) λ db. progress_found-Settled now k _ _

check_same : (items : List _) (dto : SendQuote) (db : Db) → (check_quote items dto db).0 ≡ db
unfolding check_quote run_handler
check_same items dto db = ground arith

pub send_quote-Harmless :
    (now u k : ℕ) (dto : SendQuote) (db : Db) → Harmless (send_quote now u k dto) db
unfolding send_quote price_item
send_quote-Harmless now u k dto db =
    Harmless-read (λ d. d) _ db
      (Harmless-lookup (provider_of_user db u) _ _ db λ p.
        Harmless-lookup (find_first (owned_by p.id k) db.bookings) _ _ db λ b.
          Harmless-check _ _ _ db (
            Harmless-passed (check_quote (items_of db k) dto) _ db
              (check_same (items_of db k) dto db)
              (Harmless-rest _ db (
                Settled-then _ _
                  (Settled-transaction _ (
                    Settled-then _ _
                      (Settled-for_each _ (λ q. Settled-modify _)
                        (quoted_lines (items_of db k) dto))
                      (Settled-modify _)))
                  (Settled-then _ _ (Settled-lookup (event_of db b.event_id)) (
                    Settled-then _ _ (Settled-emit NoticeKind.booking_quote_sent u b.customer_id k)
                      (Settled-pure _)))))))

pub complete_booking-Harmless : (now u k : ℕ) (db : Db) → Harmless (complete_booking now u k) db
unfolding complete_booking
complete_booking-Harmless now u k db =
    Harmless-read (λ d. d) _ db
      (Harmless-lookup (provider_of_user db u) _ _ db λ p.
        Harmless-lookup (find_first (owned_by p.id k) db.bookings) _ _ db λ b.
          Harmless-check _ _ _ db
            (Harmless-write _ _ db (Settled-emit NoticeKind.booking_completed u b.customer_id k)))

pub reject_booking-Harmless :
    (now u k : ℕ) (why : Option String) (db : Db) → Harmless (reject_booking now u k why) db
unfolding reject_booking
reject_booking-Harmless now u k why db =
    Harmless-read (λ d. d) _ db
      (Harmless-lookup (provider_of_user db u) _ _ db λ p.
        Harmless-lookup (find_first (owned_by p.id k) db.bookings) _ _ db λ b.
          Harmless-check _ _ _ db
            (Harmless-write _ _ db (Settled-emit NoticeKind.booking_rejected u b.customer_id k)))

pub cancel_event-Harmless :
    (now u k : ℕ) (why : String) (db : Db) → Harmless (cancel_event now u k why) db
unfolding cancel_event
cancel_event-Harmless now u k why db =
    Harmless-read (λ d. d) _ db
      (Harmless-lookup (event_by_id db k) _ _ db λ event. Harmless-check _ _ _ db (
        Harmless-refusal _ _ _ db (
          Harmless-check _ _ _ db (
            Harmless-refusal _ _ _ db (
              Harmless-rest _ db (
                Settled-then _ _
                  (Settled-transaction _ (Settled-then _ _ (Settled-modify _) (Settled-modify _)))
                  (Settled-then _ _
                    (Settled-for_each _ (λ b. Settled-emit NoticeKind.booking_cancelled u _ b.id) _)
                    (Settled-pure _))))))))

pub set_archived-Harmless :
    (now : ℕ) (user : User) (k : ℕ) (on : Bool) (db : Db) → Harmless (set_archived now user k on) db
unfolding set_archived
set_archived-Harmless now user k on db =
    Harmless-read (λ d. d) _ db
      (Harmless-lookup (event_by_id db k) _ _ db λ event.
        Harmless-check _ _ _ db (Harmless-check _ _ _ db (Harmless-rest _ db (Settled-modify _))))

notify-Settled :
    (o : Option NoticeKind) (actor target entity : ℕ) → Settled (notify o actor target entity)
unfolding notify
notify-Settled none actor target entity = Settled-pure tt
notify-Settled (some kind) actor target entity = Settled-emit kind actor target entity

pub update_status-Harmless :
    (u k : ℕ) (s : FulfillmentStatus) (notes : Option String) (now : ℕ) (db : Db)
    → Harmless (update_status u k s notes now) db
unfolding update_status
update_status-Harmless u k s notes now db =
    Harmless-read (λ d. d) _ db
      (Harmless-lookup (provider_of_user db u) _ _ db λ p.
        Harmless-lookup (delivery_by_id db k) _ _ db λ d.
          Harmless-lookup (booking_by_id db d.booking_id) _ _ db λ b.
            Harmless-check _ _ _ db (
              Harmless-check _ _ _ db (Harmless-write _ _ db (notify-Settled _ u b.customer_id k))))

pub handle_expired_bookings-Settled : (now : ℕ) → Settled (handle_expired_bookings now)
unfolding handle_expired_bookings expire_booking
handle_expired_bookings-Settled now = Settled-bind _ _ (Settled-gets _) λ expired.
    Settled-for_each _
      (λ b. Settled-bind _ _ (Settled-gets (λ d. d)) λ db. Settled-when _ _ (
        Settled-then _ _ (Settled-modify _) (
          Settled-then _ _
            (Settled-emit NoticeKind.booking_cancelled b.customer_id b.customer_id b.id)
            (Settled-emit NoticeKind.booking_cancelled b.customer_id _ b.id))))
      expired

pub complete_past_events-Settled : (now : ℕ) → Settled (complete_past_events now)
unfolding complete_past_events complete_event
complete_past_events-Settled now = Settled-bind _ _ (Settled-gets _) λ events.
    Settled-for_each _
      (λ e. Settled-when _ _ (
        Settled-then _ _ (Settled-modify _)
          (Settled-then _ _ (Settled-modify _) (Settled-modify _))))
      events
