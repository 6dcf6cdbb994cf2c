-- ===== src/Events/Lawful.antt =====
-- The event handlers change the database lawfully.
use eventy_backend.Base.{
  ℕ, Bool, true, false, not, ◌&&◌, ◌≡◌, refl, arith, nat_eq, String, All, any, map, includes,
}
use eventy_backend.Model.{
  booking_status_eq, EventStatus, event_status_eq, CancelledBy, Db, Booking, event_by_id, in_event,
  transaction, for_each, NoticeKind,
}
use eventy_backend.Evolution.Updates.{All-map, All-both, any-false, kept_by_key}
use eventy_backend.Lifecycle.{BookingMove}
use eventy_backend.Change.{Sound}
use eventy_backend.Change.Tables.{update_bookings, update_events}
use eventy_backend.Change.Rules.{
  LawfulAt, then_step, after_read, after_lookup, after_check, after_refusal, after_write,
  lawful_emit, lawful_pure, Lawful-write, lawful_transaction, lawful_for_each,
}
use eventy_backend.Bookings.{cancelled_now}
use eventy_backend.Bookings.Lawful.{set_event_status-Lawful}
use eventy_backend.Events.{is_blocking, is_closed, to_cancel, cancel_event, User, set_archived}

cancel_move :
    (now event_id : ℕ) (why : String) (db : Db) (b : Booking)
    → (in_event event_id b && is_blocking db b) ≡ false
    → (in_event event_id b && not (is_closed b)) ≡ true
    → BookingMove b (cancelled_now now CancelledBy.customer why b)
unfolding is_blocking
cancel_move now event_id why db b free hit = ground arith

-- What `cancelEvent` cancels can still be cancelled.
cancel_moves :
    (now event_id : ℕ) (why : String) (db : Db)
    → any (λ b. in_event event_id b && is_blocking db b) db.bookings ≡ false
    → Sound db
    → All
        (λ b.
          includes (map (λ x. x.id) (to_cancel db event_id)) b.id ≡ true
          → BookingMove b (cancelled_now now CancelledBy.customer why b))
        db.bookings
unfolding to_cancel
cancel_moves now event_id why db free s =
    All-map _ _ (λ b h e. cancel_move now event_id why db b h.0 (h.1 e)) db.bookings
      (All-both _ _ db.bookings
        (any-false (λ b. in_event event_id b && is_blocking db b) db.bookings free)
        (kept_by_key (λ b. b.id) (λ b. in_event event_id b && not (is_closed b)) db.bookings
          s.booking_ids))

pub cancel_event-Lawful :
    (now customer_id event_id : ℕ) (reason : String) (db : Db)
    → LawfulAt (cancel_event now customer_id event_id reason) db
unfolding cancel_event
cancel_event-Lawful now customer_id event_id reason db =
    after_read (λ d. d) _ db
      (after_lookup (event_by_id db event_id) _ _ db λ event _. after_check _ _ _ db λ _.
        after_refusal _ _ _ db λ _. after_check _ _ _ db λ _. after_refusal _ _ _ db λ free.
          then_step (transaction _) _ db
            (lawful_transaction _ db (
              after_write _ _ db
                (update_bookings db (λ b. includes (map (λ x. x.id) (to_cancel db event_id)) b.id)
                  (cancelled_now now CancelledBy.customer _) (λ b. refl)
                  (cancel_moves now event_id _ db free))
                (Lawful-write _ _ (set_event_status-Lawful event_id EventStatus.cancelled _))))
            (then_step (for_each _ _) _ _
              (lawful_for_each _
                (λ b d. lawful_emit NoticeKind.booking_cancelled customer_id _ b.id d)
                (to_cancel db event_id) _)
              (lawful_pure _ _)))

pub set_archived-Lawful :
    (now : ℕ) (user : User) (event_id : ℕ) (archived : Bool) (db : Db)
    → LawfulAt (set_archived now user event_id archived) db
unfolding set_archived
set_archived-Lawful now user event_id archived db =
    after_read (λ d. d) _ db
      (after_lookup (event_by_id db event_id) _ _ db λ event _.
        after_check _ _ _ db λ _.
          after_check _ _ _ db λ _. Lawful-write _ db (update_events db _ _ (λ e. ground arith)))
