-- ===== src/Cleanup/Lawful.antt =====
-- The cron jobs change the database lawfully.
use eventy_backend.Base.{
  ℕ, true, not, ◌&&◌, ◌≡◌, ◌≢◌, refl, ◌∙◌, some, arith, ◌==◌, nat_eq, nat_beq_iff, List, [], ◌∷◌,
  String, All, Bool-cases, inl, inr, keep,
}
use eventy_backend.Model.{
  BookingStatus, booking_status_eq, EventStatus, CancelledBy, Db, Booking, Event, booking_by_id,
  NoticeKind, has_id, run_handler,
}
use eventy_backend.Evolution.{Distinct}
use eventy_backend.Evolution.Updates.{All-map, All-both}
use eventy_backend.Evolution.Lookups.{
  find-update_other, found_by_key, keep-All, keep_sound, Distinct-keep,
}
use eventy_backend.Lifecycle.{BookingMove}
use eventy_backend.Change.Tables.{update_bookings, update_found_booking}
use eventy_backend.Change.Rules.{
  LawfulAt, then_step, after_read, after_write, lawful_emit, Lawful-write, lawful_when,
  lawful_for_each, lawful_loop, with-Sound,
}
use eventy_backend.Bookings.{is_paid, cancelled_now}
use eventy_backend.Bookings.Lawful.{set_event_status-Lawful}
use eventy_backend.Cleanup.{
  expire_booking, handle_expired_bookings, is_expired, is_undecided, is_running, finished,
  complete_event, complete_past_events,
}

undecided_move :
    (now event_id : ℕ) (why : String) (b : Booking)
    → is_undecided event_id b ≡ true
    → BookingMove b (cancelled_now now CancelledBy.system why b)
undecided_move now event_id why b h = ground arith

running_move :
    (now event_id : ℕ) (b : Booking) → is_running event_id b ≡ true → BookingMove b (finished now b)
running_move now event_id b h = ground arith

each : {A : Type 0} (P : A → Type 0) → ((x : A) → P x) → (xs : List A) → All P xs
each P h [] = tt
each P h (x ∷ xs) = (h x, each P h xs)

complete_event-Lawful : (now : ℕ) (e : Event) (db : Db) → LawfulAt (complete_event now e) db
unfolding complete_event
complete_event-Lawful now e db = lawful_when _ _ db λ _.
    after_write _ _ db
      (update_bookings db (is_undecided e.id) (cancelled_now now CancelledBy.system _) (λ b. refl)
        (λ _. each _ (undecided_move now e.id _) db.bookings))
      (after_write _ _ _
        (update_bookings _ (is_running e.id) (finished now) (λ b. refl)
          (λ _. each _ (running_move now e.id) _))
        (Lawful-write _ _ (set_event_status-Lawful e.id EventStatus.completed _)))

pub complete_past_events-Lawful : (now : ℕ) (db : Db) → LawfulAt (complete_past_events now) db
unfolding complete_past_events
complete_past_events-Lawful now db =
    after_read _ _ db (lawful_for_each (complete_event now) (complete_event-Lawful now) _ db)

expire_move :
    (now : ℕ) (why : String) (b : Booking)
    → is_expired now b ≡ true
    → BookingMove b (cancelled_now now CancelledBy.system why b)
expire_move now why b h = ground arith

expire_booking-Lawful :
    (now : ℕ) (b : Booking) (db : Db)
    → is_expired now b ≡ true
    → booking_by_id db b.id ≡ some b
    → LawfulAt (expire_booking now b) db
unfolding expire_booking
expire_booking-Lawful now b db due found =
    after_read (λ d. d) _ db
      (lawful_when _ _ db λ _.
        after_write _ _ db
          (update_found_booking db (has_id b.id) b.id (cancelled_now now CancelledBy.system _)
            (λ x h. (nat_beq_iff x.id b.id).0 h) (λ x. refl) b found (expire_move now _ b due))
          (then_step _ _ _ (lawful_emit NoticeKind.booking_cancelled b.customer_id _ b.id _)
            (lawful_emit NoticeKind.booking_cancelled b.customer_id _ b.id _)))

-- A round leaves the other bookings.
expire_booking_others :
    (now : ℕ) (b : Booking) (db : Db) (j : ℕ)
    → j ≢ b.id
    → booking_by_id (expire_booking now b db).0 j ≡ booking_by_id db j
unfolding expire_booking run_handler
expire_booking_others now b db j ne =
    elim (Bool-cases (not (b.status == BookingStatus.confirmed && is_paid db b.id))) [
      | inl due ↦ rw due (find-update_other (λ x. x.id) _ j b.id (λ x. refl) ne db.bookings)
      | inr skipped ↦ rw skipped refl
    ]

-- The bookings that are left are as they were read.
abbrev Pending : ℕ → List Booking → Db → Type 0
Pending now rest db =
    All (λ b. booking_by_id db b.id ≡ some b) rest
    × Distinct (λ b. b.id) rest
    × All (λ b. is_expired now b ≡ true) rest

still-Pending :
    (now : ℕ) (b : Booking) (rest : List Booking) (db : Db)
    → Pending now (b ∷ rest) db
    → Pending now rest (expire_booking now b db).0
still-Pending now b rest db (found, distinct, due) = (
  All-map _ _ (λ x h. expire_booking_others now b db x.id h.1 ∙ h.0) rest
      (All-both _ _ rest found.1 distinct.0),
  distinct.1,
  due.1,
)

pub handle_expired_bookings-Lawful : (now : ℕ) (db : Db) → LawfulAt (handle_expired_bookings now) db
unfolding handle_expired_bookings
handle_expired_bookings-Lawful now db = with-Sound _ db λ s. after_read _ _ db (
    lawful_loop (Pending now) (expire_booking now)
      (λ b rest d j. (expire_booking-Lawful now b d j.2.0 j.0.0, still-Pending now b rest d j))
      (keep (is_expired now) db.bookings) db
      (
        keep-All _ _ db.bookings (found_by_key (λ b. b.id) db.bookings s.booking_ids),
        Distinct-keep (λ b. b.id) _ db.bookings s.booking_ids,
        keep_sound _ db.bookings,
      ))
