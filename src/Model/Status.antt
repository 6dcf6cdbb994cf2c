-- ===== src/Model/Status.antt =====
-- The enums of prisma/schema.prisma, with their equality tests.
use eventy_backend.Base.{ℕ, ◌≡◌, ◌↔◌, Bool, arith, Eq, nat_beq}

pub data BookingStatus : Type 0 where
  pending quote_sent confirmed rejected in_progress completed cancelled : BookingStatus

pub data EventStatus : Type 0 where
  draft in_progress completed cancelled : EventStatus

pub data PaymentMethod : Type 0 where
  cash bank_transfer : PaymentMethod

pub data PaymentStatus : Type 0 where
  pending processing paid failed refunded cancelled : PaymentStatus

pub data FulfillmentStatus : Type 0 where
  scheduled out_for_delivery delivered failed : FulfillmentStatus

pub data DiscountScope : Type 0 where
  service package_scope : DiscountScope

pub data DiscountOrigin : Type 0 where
  provider company_funded : DiscountOrigin

pub data DiscountStatus : Type 0 where
  active expired cancelled : DiscountStatus

pub data ComplaintStatus : Type 0 where
  pending in_progress resolved rejected : ComplaintStatus

pub data ComplaintTargetType : Type 0 where
  provider service booking package_booking customer general : ComplaintTargetType

pub data PackageBookingStatus : Type 0 where
  pending confirmed pending_payment in_progress completed rejected cancelled expired :
      PackageBookingStatus

abbrev booking_code : BookingStatus → ℕ
booking_code BookingStatus.pending = 0
booking_code BookingStatus.quote_sent = 1
booking_code BookingStatus.confirmed = 2
booking_code BookingStatus.rejected = 3
booking_code BookingStatus.in_progress = 4
booking_code BookingStatus.completed = 5
booking_code BookingStatus.cancelled = 6

abbrev event_code : EventStatus → ℕ
event_code EventStatus.draft = 0
event_code EventStatus.in_progress = 1
event_code EventStatus.completed = 2
event_code EventStatus.cancelled = 3

abbrev method_code : PaymentMethod → ℕ
method_code PaymentMethod.cash = 0
method_code PaymentMethod.bank_transfer = 1

abbrev payment_code : PaymentStatus → ℕ
payment_code PaymentStatus.pending = 0
payment_code PaymentStatus.processing = 1
payment_code PaymentStatus.paid = 2
payment_code PaymentStatus.failed = 3
payment_code PaymentStatus.refunded = 4
payment_code PaymentStatus.cancelled = 5

abbrev fulfillment_code : FulfillmentStatus → ℕ
fulfillment_code FulfillmentStatus.scheduled = 0
fulfillment_code FulfillmentStatus.out_for_delivery = 1
fulfillment_code FulfillmentStatus.delivered = 2
fulfillment_code FulfillmentStatus.failed = 3

abbrev scope_code : DiscountScope → ℕ
scope_code DiscountScope.service = 0
scope_code DiscountScope.package_scope = 1

abbrev discount_code : DiscountStatus → ℕ
discount_code DiscountStatus.active = 0
discount_code DiscountStatus.expired = 1
discount_code DiscountStatus.cancelled = 2

abbrev complaint_code : ComplaintStatus → ℕ
complaint_code ComplaintStatus.pending = 0
complaint_code ComplaintStatus.in_progress = 1
complaint_code ComplaintStatus.resolved = 2
complaint_code ComplaintStatus.rejected = 3

abbrev target_code : ComplaintTargetType → ℕ
target_code ComplaintTargetType.provider = 0
target_code ComplaintTargetType.service = 1
target_code ComplaintTargetType.booking = 2
target_code ComplaintTargetType.package_booking = 3
target_code ComplaintTargetType.customer = 4
target_code ComplaintTargetType.general = 5

abbrev package_booking_code : PackageBookingStatus → ℕ
package_booking_code PackageBookingStatus.pending = 0
package_booking_code PackageBookingStatus.confirmed = 1
package_booking_code PackageBookingStatus.pending_payment = 2
package_booking_code PackageBookingStatus.in_progress = 3
package_booking_code PackageBookingStatus.completed = 4
package_booking_code PackageBookingStatus.rejected = 5
package_booking_code PackageBookingStatus.cancelled = 6
package_booking_code PackageBookingStatus.expired = 7

pub booking_code_iff :
    (a b : BookingStatus) → (nat_beq (booking_code a) (booking_code b) ≡ Bool.true) ↔ (a ≡ b)
booking_code_iff a b = ground arith

pub event_code_iff :
    (a b : EventStatus) → (nat_beq (event_code a) (event_code b) ≡ Bool.true) ↔ (a ≡ b)
event_code_iff a b = ground arith

pub method_code_iff :
    (a b : PaymentMethod) → (nat_beq (method_code a) (method_code b) ≡ Bool.true) ↔ (a ≡ b)
method_code_iff a b = ground arith

pub payment_code_iff :
    (a b : PaymentStatus) → (nat_beq (payment_code a) (payment_code b) ≡ Bool.true) ↔ (a ≡ b)
payment_code_iff a b = ground arith

pub fulfillment_code_iff :
    (a b : FulfillmentStatus)
    → (nat_beq (fulfillment_code a) (fulfillment_code b) ≡ Bool.true) ↔ (a ≡ b)
fulfillment_code_iff a b = ground arith

pub scope_code_iff :
    (a b : DiscountScope) → (nat_beq (scope_code a) (scope_code b) ≡ Bool.true) ↔ (a ≡ b)
scope_code_iff a b = ground arith

pub discount_code_iff :
    (a b : DiscountStatus) → (nat_beq (discount_code a) (discount_code b) ≡ Bool.true) ↔ (a ≡ b)
discount_code_iff a b = ground arith

pub complaint_code_iff :
    (a b : ComplaintStatus) → (nat_beq (complaint_code a) (complaint_code b) ≡ Bool.true) ↔ (a ≡ b)
complaint_code_iff a b = ground arith

pub target_code_iff :
    (a b : ComplaintTargetType) → (nat_beq (target_code a) (target_code b) ≡ Bool.true) ↔ (a ≡ b)
target_code_iff a b = ground arith

pub package_booking_code_iff :
    (a b : PackageBookingStatus)
    → (nat_beq (package_booking_code a) (package_booking_code b) ≡ Bool.true) ↔ (a ≡ b)
package_booking_code_iff a b = ground arith

instance abbrev pub booking_status_eq : Eq BookingStatus
booking_status_eq = record {
  beq = λ a b. nat_beq (booking_code a) (booking_code b);
  beq_iff = booking_code_iff;
}

instance abbrev pub event_status_eq : Eq EventStatus
event_status_eq = record {
  beq = λ a b. nat_beq (event_code a) (event_code b);
  beq_iff = event_code_iff;
}

instance abbrev pub payment_method_eq : Eq PaymentMethod
payment_method_eq = record {
  beq = λ a b. nat_beq (method_code a) (method_code b);
  beq_iff = method_code_iff;
}

instance abbrev pub payment_status_eq : Eq PaymentStatus
payment_status_eq = record {
  beq = λ a b. nat_beq (payment_code a) (payment_code b);
  beq_iff = payment_code_iff;
}

instance abbrev pub fulfillment_status_eq : Eq FulfillmentStatus
fulfillment_status_eq = record {
  beq = λ a b. nat_beq (fulfillment_code a) (fulfillment_code b);
  beq_iff = fulfillment_code_iff;
}

instance abbrev pub discount_scope_eq : Eq DiscountScope
discount_scope_eq = record {
  beq = λ a b. nat_beq (scope_code a) (scope_code b);
  beq_iff = scope_code_iff;
}

instance abbrev pub discount_status_eq : Eq DiscountStatus
discount_status_eq = record {
  beq = λ a b. nat_beq (discount_code a) (discount_code b);
  beq_iff = discount_code_iff;
}

instance abbrev pub complaint_status_eq : Eq ComplaintStatus
complaint_status_eq = record {
  beq = λ a b. nat_beq (complaint_code a) (complaint_code b);
  beq_iff = complaint_code_iff;
}

instance abbrev pub complaint_target_type_eq : Eq ComplaintTargetType
complaint_target_type_eq = record {
  beq = λ a b. nat_beq (target_code a) (target_code b);
  beq_iff = target_code_iff;
}

instance abbrev pub package_booking_status_eq : Eq PackageBookingStatus
package_booking_status_eq = record {
  beq = λ a b. nat_beq (package_booking_code a) (package_booking_code b);
  beq_iff = package_booking_code_iff;
}
