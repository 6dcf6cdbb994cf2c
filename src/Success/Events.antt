-- ===== src/Success/Events.antt =====
-- What cancelling an event leaves.
use mathlib.Core.Path.{subst}
use eventy_backend.Base.{
  sym, ℕ, ◌≡◌, refl, true, false, not, ◌&&◌, List, All, arith, ◌==◌, nat_eq, String, includes, map,
  any,
}
use eventy_backend.Model.{
  booking_status_eq, EventStatus, event_status_eq, CancelledBy, Db, Booking, Event, NoticeKind,
  event_by_id, in_event, run_handler, update_where, modify, emit, transaction, for_each, pure, ◌>>◌,
  ok, Result, provider_user,
}
use eventy_backend.Evolution.Updates.{All-map, any-false}
use eventy_backend.Bookings.{cancelled_now, set_event_status}
use eventy_backend.Events.{is_blocking, is_closed, to_cancel, cancel_event}
use eventy_backend.Success.{
  Ensures, Ensures-read, Ensures-lookup, Ensures-check, Ensures-refusal, All-updated, All-each,
  emits_keep, emits_pure,
}
use eventy_backend.Evolution.Lookups.{kept_included}

-- No booking of the event stood in the way, all of them are closed now, and so is the event.
abbrev Cancelled : ℕ → Db → List ℕ → Db → Type 0
Cancelled k db ids after =
    All (λ b. in_event k b ≡ true → is_blocking db b ≡ false) db.bookings
    × All (λ b. in_event k b ≡ true → is_closed b ≡ true) after.bookings
    × All (λ e. e.id ≡ k → e.status ≡ EventStatus.cancelled) after.events

All-closed :
    (now k : ℕ) (why : String) (db : Db)
    → All
        (λ b. in_event k b ≡ true → is_closed b ≡ true)
        (update_where
          (λ b. includes (map (λ x. x.id) (to_cancel db k)) b.id)
          (cancelled_now now CancelledBy.customer why)
          db.bookings)
unfolding to_cancel
All-closed now k why db =
    All-updated _ (λ b. includes (map (λ x. x.id) (to_cancel db k)) b.id) _ db.bookings
      (All-map _ _ (λ b h. ((λ _ _. refl), (λ miss own. ground (arith, h)))) db.bookings
        (kept_included (λ b. b.id) (λ b. in_event k b && not (is_closed b)) db.bookings))

event_closed :
    (k : ℕ) (es : List Event)
    → All
        (λ e. e.id ≡ k → e.status ≡ EventStatus.cancelled)
        (update_where (λ e. e.id == k) (λ e. record e { status = EventStatus.cancelled }) es)
event_closed k es =
    All-updated _ (λ e. e.id == k) _ es
      (All-each _ (λ e. ((λ _ _. refl), (λ miss own. ground arith))) es)

abbrev cancel_writes : ℕ → ℕ → String → Db → Db → Db
cancel_writes now k why db d = set_event_status k EventStatus.cancelled (record d {
  bookings =
      update_where (λ b. includes (map (λ x. x.id) (to_cancel db k)) b.id)
        (cancelled_now now CancelledBy.customer why) d.bookings;
})

unblocked :
    (k : ℕ) (db : Db)
    → any (λ b. in_event k b && is_blocking db b) db.bookings ≡ false
    → All (λ b. in_event k b ≡ true → is_blocking db b ≡ false) db.bookings
unblocked k db h =
    All-map _ _ (λ b free own. ground arith) db.bookings
      (any-false (λ b. in_event k b && is_blocking db b) db.bookings h)

write-Cancelled :
    (now k u : ℕ) (why : String) (db : Db)
    → any (λ b. in_event k b && is_blocking db b) db.bookings ≡ false
    → Ensures
        (Cancelled k db)
        (transaction (
            modify (λ d. record d {
              bookings =
                  update_where
                    (λ b. includes (map (λ x. x.id) (to_cancel db k)) b.id)
                    (cancelled_now now CancelledBy.customer why)
                    d.bookings;
            })
            >> modify (set_event_status k EventStatus.cancelled))
          >> (for_each
                (to_cancel db k)
                (λ b. emit NoticeKind.booking_cancelled u (provider_user db b.provider_id) b.id)
              >> pure (map (λ b. b.id) (to_cancel db k))))
        db
unfolding Ensures run_handler
write-Cancelled now k u why db free ids returns =
    let after = cancel_writes now k why db db in
    let target = λ (b : Booking). provider_user db b.provider_id in
    let (bookings, events) =
      emits_keep NoticeKind.booking_cancelled (λ _. u) target (λ b. b.id) (to_cancel db k) after in
    let returned =
      emits_pure NoticeKind.booking_cancelled (λ _. u) target (λ b. b.id) (to_cancel db k) after
        (map (λ b. b.id) (to_cancel db k)) in
    subst (λ (o : Db × Result (List ℕ)). Cancelled k db ids o.0) (sym returned)
      (
        unblocked k db free,
        subst (λ bs. All (λ b. in_event k b ≡ true → is_closed b ≡ true) bs) (sym bookings)
            (All-closed now k why db),
        subst (λ es. All (λ e. e.id ≡ k → e.status ≡ EventStatus.cancelled) es) (sym events)
            (event_closed k db.events),
      )

cancel_event-Ensures :
    (now u k : ℕ) (why : String) (db : Db) → Ensures (Cancelled k db) (cancel_event now u k why) db
unfolding cancel_event
cancel_event-Ensures now u k why db =
    Ensures-read _ (λ d. d) _ db
      (Ensures-lookup _ (event_by_id db k) _ _ db λ event _. Ensures-check _ _ _ _ db λ _.
        Ensures-refusal _ _ _ _ db λ _.
          Ensures-check _ _ _ _ db
            λ _. Ensures-refusal _ _ _ _ db λ free. write-Cancelled now k u _ db free)

-- If the cancellation of an event succeeds, none of its bookings was IN_PROGRESS, COMPLETED or CONFIRMED
-- and paid before, each of them is CANCELLED or REJECTED after, and so the event is CANCELLED.
pub cancel_event_lem :
    (now u k : ℕ) (why : String) (db : Db) (ids : List ℕ)
    → (cancel_event now u k why db).1 ≡ ok ids
    → All (λ b. in_event k b ≡ true → is_blocking db b ≡ false) db.bookings
      × All (λ b. in_event k b ≡ true → is_closed b ≡ true) (cancel_event now u k why db).0.bookings
      × All
          (λ e. e.id ≡ k → e.status ≡ EventStatus.cancelled)
          (cancel_event now u k why db).0.events
unfolding Ensures
cancel_event_lem now u k why db = cancel_event-Ensures now u k why db
