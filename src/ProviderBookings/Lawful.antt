-- ===== src/ProviderBookings/Lawful.antt =====
-- The provider's handlers change the database lawfully.
use eventy_backend.Base.{ℕ, true, ◌≡◌, refl, Option, arith, ◌==◌, nat_eq, List, [], ◌∷◌, String}
use eventy_backend.Model.{
  BookingStatus, booking_status_eq, Db, Booking, BookingItem, run_handler, find_first, NoticeKind,
  provider_of_user, event_of, transaction, for_each, event_of,
}
use eventy_backend.Lifecycle.{BookingMove}
use eventy_backend.Change.Tables.{update_found_booking, set_items}
use eventy_backend.Change.Rules.{
  LawfulAt, then_step, then_lookup, after_read, after_lookup, after_check, after_write, lawful_emit,
  lawful_pure, Lawful-write, lawful_transaction, lawful_for_each, then_guard,
}
use eventy_backend.ProviderBookings.{
  QuoteItem, SendQuote, owned_by, check_quote, price_item, quoted_lines, quoted, send_quote,
  completed, complete_booking, rejected, reject_booking, items_of,
}

owned_id : (provider_id k : ℕ) (b : Booking) → owned_by provider_id k b ≡ true → b.id ≡ k
owned_id provider_id k b h = ground arith

quote_move :
    (amount deadline : ℕ) (notes : Option String) (b : Booking)
    → (b.status == BookingStatus.pending) ≡ true
    → BookingMove b (quoted amount deadline notes b)
quote_move amount deadline notes b h = ground arith

complete_move :
    (now : ℕ) (b : Booking)
    → (b.status == BookingStatus.in_progress) ≡ true
    → BookingMove b (completed now b)
complete_move now b h = ground arith

reject_move :
    (now : ℕ) (why : Option String) (b : Booking)
    → (b.status == BookingStatus.pending) ≡ true
    → BookingMove b (rejected now why b)
reject_move now why b h = ground arith

-- The checks write nothing.
pub check_quote_same :
    (items : List BookingItem) (dto : SendQuote) (db : Db) → (check_quote items dto db).0 ≡ db
unfolding check_quote run_handler
check_quote_same [] dto db = ground arith
check_quote_same (i ∷ is) dto db = ground arith

-- Pricing the items leaves the bookings.
price_items_bookings :
    (items : List BookingItem) (qs : List QuoteItem) (db : Db)
    → (for_each qs (price_item items) db).0.bookings ≡ db.bookings
unfolding price_item run_handler
price_items_bookings items [] db = refl
price_items_bookings items (q ∷ qs) db = price_items_bookings items qs _

price_item-Lawful :
    (items : List BookingItem) (q : QuoteItem) (db : Db) → LawfulAt (price_item items q) db
unfolding price_item
price_item-Lawful items q db = Lawful-write _ db (set_items db _)

pub send_quote-Lawful :
    (now user_id k : ℕ) (dto : SendQuote) (db : Db) → LawfulAt (send_quote now user_id k dto) db
unfolding send_quote
send_quote-Lawful now user_id k dto db =
    after_read (λ d. d) _ db
      (after_lookup (provider_of_user db user_id) _ _ db λ provider _.
        after_lookup (find_first (owned_by provider.id k) db.bookings) _ _ db λ b found.
          after_check (b.status == BookingStatus.pending) _ _ db λ pending.
            then_guard (check_quote _ _) _ db (check_quote_same _ dto db) (
              then_step (transaction _) _ db
                (lawful_transaction _ db (
                  then_step (for_each _ _) _ db
                    (lawful_for_each (price_item items) (price_item-Lawful items)
                      (quoted_lines items dto) db)
                    (Lawful-write _ _ (
                      update_found_booking _ (owned_by provider.id k) k
                        (quoted _ _ dto.provider_notes) (owned_id provider.id k) (λ x. refl) b
                        (rw (price_items_bookings items (quoted_lines items dto) db) found)
                        (quote_move _ _ dto.provider_notes b pending)))))
                (then_lookup (event_of db b.event_id) _ _ _ (
                  then_step _ _ _
                    (lawful_emit NoticeKind.booking_quote_sent user_id b.customer_id k _)
                    (lawful_pure _ _)))))
  where
    items : List BookingItem
    items = items_of db k

pub complete_booking-Lawful :
    (now user_id k : ℕ) (db : Db) → LawfulAt (complete_booking now user_id k) db
unfolding complete_booking
complete_booking-Lawful now user_id k db =
    after_read (λ d. d) _ db
      (after_lookup (provider_of_user db user_id) _ _ db λ provider _.
        after_lookup (find_first (owned_by provider.id k) db.bookings) _ _ db λ b found.
          after_check (b.status == BookingStatus.in_progress) _ _ db λ started.
            after_write _ _ db
              (update_found_booking db (owned_by provider.id k) k (completed now)
                (owned_id provider.id k) (λ x. refl) b found (complete_move now b started))
              (lawful_emit NoticeKind.booking_completed user_id b.customer_id k _))

pub reject_booking-Lawful :
    (now user_id k : ℕ) (why : Option String) (db : Db)
    → LawfulAt (reject_booking now user_id k why) db
unfolding reject_booking
reject_booking-Lawful now user_id k why db =
    after_read (λ d. d) _ db
      (after_lookup (provider_of_user db user_id) _ _ db λ provider _.
        after_lookup (find_first (owned_by provider.id k) db.bookings) _ _ db λ b found.
          after_check (b.status == BookingStatus.pending) _ _ db λ pending.
            after_write _ _ db
              (update_found_booking db (owned_by provider.id k) k (rejected now why)
                (owned_id provider.id k) (λ x. refl) b found (reject_move now why b pending))
              (lawful_emit NoticeKind.booking_rejected user_id b.customer_id k _))
