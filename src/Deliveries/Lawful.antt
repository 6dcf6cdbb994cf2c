-- ===== src/Deliveries/Lawful.antt =====
-- The delivery handlers change the database lawfully: one delivery for a booking, moved forward.
use eventy_backend.Base.{
  ℕ, true, not, ◌≡◌, refl, Option, none, some, arith, ◌==◌, nat_eq, nat_beq_iff, includes, is_some,
  String,
}
use eventy_backend.Model.{
  FulfillmentStatus, fulfillment_status_eq, Db, Booking, Delivery, delivery_of_booking, run_handler,
  provider_of_user, booking_by_id, find_first, NoticeKind,
}
use eventy_backend.Change.{DeliveryMove}
use eventy_backend.Change.Deliveries.{add_delivery, update_found_delivery}
use eventy_backend.Change.Rules.{
  LawfulAt, after_read, lawful_pure, after_lookup, after_check, after_write, lawful_when,
  lawful_emit,
}
use eventy_backend.Deliveries.{
  valid_transitions, create_delivery, create_for, create_if_required, notify, with_status,
  update_status,
}

pub create_delivery-Lawful :
    (b : Booking) (db : Db) → delivery_of_booking db b.id ≡ none → LawfulAt (create_delivery b) db
unfolding create_delivery LawfulAt run_handler
create_delivery-Lawful b db absent = add_delivery db _ refl absent

not_some : {A : Type 0} (o : Option A) → not (is_some o) ≡ true → o ≡ none
not_some none h = refl
not_some (some a) h = cc

pub create_for-Lawful : (o : Option Booking) (db : Db) → LawfulAt (create_for o) db
unfolding create_for
create_for-Lawful none db = lawful_pure tt db
create_for-Lawful (some b) db = after_read _ _ db (
    lawful_when _ (create_delivery b) db
      λ h. create_delivery-Lawful b db (not_some (delivery_of_booking db b.id) (ground arith)))

pub create_if_required-Lawful : (k : ℕ) (db : Db) → LawfulAt (create_if_required k) db
unfolding create_if_required
create_if_required-Lawful k db = after_read _ _ db (create_for-Lawful (booking_by_id db k) db)

allowed_move :
    (now : ℕ) (notes : Option String) (status : FulfillmentStatus) (d : Delivery)
    → includes (valid_transitions d.status) status ≡ true
    → DeliveryMove d (with_status status notes now d)
unfolding with_status
allowed_move now notes status d h = record {
  same_id = refl;
  same_booking = refl;
  forward = ground arith;
}

notify-Lawful :
    (k : Option NoticeKind) (actor target entity : ℕ) (db : Db)
    → LawfulAt (notify k actor target entity) db
unfolding notify
notify-Lawful none actor target entity db = lawful_pure tt db
notify-Lawful (some k) actor target entity db = lawful_emit k actor target entity db

pub update_status-Lawful :
    (user_id delivery_id : ℕ) (status : FulfillmentStatus) (notes : Option String) (now : ℕ)
    (db : Db)
    → LawfulAt (update_status user_id delivery_id status notes now) db
unfolding update_status
update_status-Lawful user_id delivery_id status notes now db =
    after_read (λ d. d) _ db
      (after_lookup (provider_of_user db user_id) _ _ db λ provider _.
        after_lookup (find_first (λ d. d.id == delivery_id) db.deliveries) _ _ db λ delivery found.
          after_lookup (booking_by_id db delivery.booking_id) _ _ db λ booking _.
            after_check (booking.provider_id == provider.id) _ _ db λ _.
              after_check (includes (valid_transitions delivery.status) status) _ _ db λ allowed.
                after_write _ _ db
                  (update_found_delivery db (λ d. d.id == delivery_id) delivery_id
                    (with_status status notes now) (λ x h. (nat_beq_iff x.id delivery_id).0 h)
                    (λ x. refl) (λ x. refl) delivery found
                    (allowed_move now notes status delivery allowed))
                  (notify-Lawful _ user_id booking.customer_id delivery_id _))
