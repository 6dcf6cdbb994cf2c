-- ===== src/Deliveries.antt =====
-- src/modules/delivery/delivery.service.ts: the delivery of a booked service and its status.
pub mod Lawful
use eventy_backend.Base.{
  ℕ, suc, Bool, true, false, not, ◌&&◌, Option, none, some, List, [], ◌∷◌, ◌++◌, String, ◌==◌,
  nat_eq, includes, is_some, if◌then◌else◌,
}
use eventy_backend.Model.{
  FulfillmentStatus, fulfillment_status_eq, Db, Booking, Event, Delivery, NoticeKind, Action,
  HttpError, ◌>>=◌, ◌>>◌, pure, gets, or_raise, raise_unless, modify, when, emit, update_where,
  given, or_default, booking_by_id, delivery_of_booking, provider_of_user, event_of,
  requires_delivery, find_first,
}

-- The table of moves; the last two are final.
abbrev pub valid_transitions : FulfillmentStatus → List FulfillmentStatus
valid_transitions FulfillmentStatus.scheduled =
    FulfillmentStatus.out_for_delivery ∷ FulfillmentStatus.failed ∷ []
valid_transitions FulfillmentStatus.out_for_delivery =
    FulfillmentStatus.delivered ∷ FulfillmentStatus.failed ∷ []
valid_transitions FulfillmentStatus.delivered = []
valid_transitions FulfillmentStatus.failed = []

location_of : Option Event → String
location_of none = ""
location_of (some e) = or_default e.event_location ""

date_of : Option Event → Option ℕ
date_of none = none
date_of (some e) = some e.event_date

-- A new SCHEDULED row, at the place and on the date of the booking's event.
unfoldable pub create_delivery : Booking → Action (Unit {0})
unfolding location_of date_of
create_delivery b db =
    let event = event_of db b.event_id in
    let row : Delivery = record {
      id = db.next_id;
      booking_id = b.id;
      status = FulfillmentStatus.scheduled;
      address = location_of event;
      scheduled_at = date_of event;
      delivered_at = none;
      notes = none;
    } in
    modify (λ d. record d { deliveries = d.deliveries ++ row ∷ []; next_id = suc d.next_id }) db

-- What `createIfRequired` does once the booking has been looked up.
unfoldable pub create_for : Option Booking → Action (Unit {0})
create_for none = pure tt
create_for (some b) = do
  db ← gets (λ d. d)
  when (requires_delivery db b.service_id && not (is_some (delivery_of_booking db b.id)))
      (create_delivery b)

unfoldable pub create_if_required : ℕ → Action (Unit {0})
unfolding create_for
create_if_required booking_id = do found ← gets (λ d. booking_by_id d booking_id); create_for found

notice_of : FulfillmentStatus → Option NoticeKind
notice_of FulfillmentStatus.scheduled = none
notice_of FulfillmentStatus.out_for_delivery = some NoticeKind.delivery_out_for_delivery
notice_of FulfillmentStatus.delivered = some NoticeKind.delivery_completed
notice_of FulfillmentStatus.failed = some NoticeKind.delivery_failed

unfoldable pub notify : Option NoticeKind → ℕ → ℕ → ℕ → Action (Unit {0})
notify none actor target entity = pure tt
notify (some kind) actor target entity = emit kind actor target entity

-- The columns that `updateStatus` writes.
unfoldable pub with_status : FulfillmentStatus → Option String → ℕ → Delivery → Delivery
with_status status notes now d = record d {
  status = status;
  notes = given notes d.notes;
  delivered_at = if status == FulfillmentStatus.delivered then some now else d.delivered_at;
}

abbrev pub delivery_by_id : Db → ℕ → Option Delivery
delivery_by_id db k = find_first (λ d. d.id == k) db.deliveries

unfoldable pub update_status : ℕ → ℕ → FulfillmentStatus → Option String → ℕ → Action (Unit {0})
unfolding notice_of notify with_status
update_status user_id delivery_id status notes now = do
  db ← gets (λ d. d)
  provider ← or_raise (provider_of_user db user_id) (HttpError.not_found "Provider not found")
  delivery ← or_raise (delivery_by_id db delivery_id) (HttpError.not_found "Delivery not found")
  booking ← or_raise (booking_by_id db delivery.booking_id) HttpError.type_error
  raise_unless (booking.provider_id == provider.id) (HttpError.forbidden "Access denied")
  raise_unless (includes (valid_transitions delivery.status) status)
      (HttpError.bad_request "Cannot move a delivery")
  modify (λ d. record d {
    deliveries =
        update_where (λ x. x.id == delivery_id) (with_status status notes now) d.deliveries;
  })
  notify (notice_of status) user_id booking.customer_id delivery_id
