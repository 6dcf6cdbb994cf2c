-- ===== src/Model/Rows.antt =====
-- The rows of the tables that the modelled services read and write.
use eventy_backend.Base.{ℕ, Bool, Option, List, String}
use eventy_backend.Model.Catalog.{PackageStatus, PackageServiceStatus, FavoriteTargetType}
use eventy_backend.Model.Status.{
  BookingStatus, EventStatus, PaymentMethod, PaymentStatus, FulfillmentStatus, DiscountScope,
  DiscountOrigin, DiscountStatus, ComplaintStatus, ComplaintTargetType, PackageBookingStatus,
}

-- A time of day "HH:mm", after `split(':').map(Number)`.
pub record TimeOfDay : Type 0 where
  pub hour : ℕ
  pub minute : ℕ

pub record Provider : Type 0 where
  pub id : ℕ
  pub user_id : ℕ
  -- `approvalStatus === 'APPROVED'`
  pub is_approved : Bool

-- The quotient `total / count`, and 0 if there is nothing to count.
pub record Average : Type 0 where
  pub total : ℕ
  pub count : ℕ

pub record Service : Type 0 where
  pub id : ℕ
  pub provider_id : ℕ
  -- `serviceType.name`
  pub service_type : String
  -- `serviceType.requiresDeliveryByDefault`
  pub requires_delivery : Bool
  -- `approvalStatus === 'ACTIVE'`
  pub is_active : Bool
  pub is_packaged : Bool
  pub rating : Average
  pub total_reviews : ℕ

pub data CancelledBy : Type 0 where
  customer provider system : CancelledBy

-- Amounts are in millionths of a cent, instants in milliseconds since 1970.
pub record Booking : Type 0 where
  pub id : ℕ
  pub customer_id : ℕ
  pub provider_id : ℕ
  pub service_id : ℕ
  pub event_id : Option ℕ
  pub package_event_booking_id : Option ℕ
  pub provider_notes : Option String
  pub rejection_reason : Option String
  pub total_amount : ℕ
  pub final_amount : Option ℕ
  pub status : BookingStatus
  pub accepted_at : Option ℕ
  pub completed_at : Option ℕ
  pub cancelled_at : Option ℕ
  pub cancellation_deadline : Option ℕ
  pub cancelled_by : Option CancelledBy
  pub cancellation_reason : Option String

pub record BookingItem : Type 0 where
  pub id : ℕ
  pub booking_id : ℕ
  pub quantity : ℕ
  pub unit_price : ℕ
  pub final_unit_price : Option ℕ
  pub total_price : ℕ
  pub final_total_price : Option ℕ

pub record Event : Type 0 where
  pub id : ℕ
  pub customer_id : ℕ
  pub event_date : ℕ
  pub event_start_time : TimeOfDay
  pub event_end_time : TimeOfDay
  pub event_location : Option String
  pub status : EventStatus
  pub archived_at : Option ℕ

-- What identifies a payment at the gateway: its own text, or the mock text that a bulk decision writes
-- from the booking and the time.
pub data Reference : Type 0 where
  gateway : String → Reference
  mock_transfer : ℕ → ℕ → Reference

pub record Payment : Type 0 where
  pub id : ℕ
  pub booking_id : Option ℕ
  pub package_event_booking_id : Option ℕ
  pub payer_id : ℕ
  pub amount : ℕ
  pub subtotal_amount : ℕ
  pub method : PaymentMethod
  pub status : PaymentStatus
  pub discount_id : Option ℕ
  pub discount_amount : Option ℕ
  pub provider_reference : Option Reference
  pub paid_at : Option ℕ

pub record Delivery : Type 0 where
  pub id : ℕ
  pub booking_id : ℕ
  pub status : FulfillmentStatus
  pub address : String
  pub scheduled_at : Option ℕ
  pub delivered_at : Option ℕ
  pub notes : Option String

pub record Discount : Type 0 where
  pub id : ℕ
  pub scope : DiscountScope
  pub service_id : Option ℕ
  pub package_id : Option ℕ
  pub origin : DiscountOrigin
  pub code : Option String
  -- in millionths of a percent
  pub percent_off : ℕ
  pub status : DiscountStatus
  pub needs_reconfirmation : Bool
  pub starts_at : Option ℕ
  pub ends_at : Option ℕ
  pub created_by_user_id : ℕ

pub record Package : Type 0 where
  pub id : ℕ
  pub provider_id : ℕ
  pub status : PackageStatus

-- A partner's service in a package.
pub record PackageService : Type 0 where
  pub id : ℕ
  pub package_id : ℕ
  pub provider_id : ℕ
  pub service_id : ℕ
  pub status : PackageServiceStatus
  pub created_at : ℕ

pub record PackageBooking : Type 0 where
  pub id : ℕ
  pub package_id : ℕ
  pub customer_id : ℕ
  pub event_id : Option ℕ
  pub status : PackageBookingStatus
  pub total_amount : ℕ
  pub pending_expires_at : Option ℕ
  pub payment_expires_at : Option ℕ

pub record Review : Type 0 where
  pub id : ℕ
  pub booking_id : ℕ
  pub customer_id : ℕ
  pub service_id : ℕ
  pub rating : ℕ
  pub comment : Option String
  pub provider_reply : Option String

pub record Complaint : Type 0 where
  pub id : ℕ
  pub complainant_id : ℕ
  pub target_type : ComplaintTargetType
  pub target_id : Option ℕ
  pub booking_id : Option ℕ
  pub package_event_booking_id : Option ℕ
  pub subject : String
  pub description : String
  pub status : ComplaintStatus
  pub admin_reply : Option String
  pub handled_by_user_id : Option ℕ
  pub resolved_at : Option ℕ

pub record BlockedSlot : Type 0 where
  pub id : ℕ
  pub service_id : Option ℕ
  pub provider_id : ℕ
  pub date : ℕ
  pub from_time : Option TimeOfDay
  pub to_time : Option TimeOfDay
  pub reason : Option String
  pub group_id : Option ℕ

-- A user's bookmark of a service, a provider or a package.
pub record Favorite : Type 0 where
  pub id : ℕ
  pub user_id : ℕ
  pub target_type : FavoriteTargetType
  pub target_id : ℕ

-- The kinds of domain event that the modelled services emit.
pub data NoticeKind : Type 0 where
  booking_accepted booking_rejected booking_completed booking_cancelled booking_quote_sent :
      NoticeKind
  event_cancelled payment_confirmed payment_failed package_payment_confirmed : NoticeKind
  package_booking_accepted package_booking_rejected package_booking_expired : NoticeKind
  package_payment_cash_chosen package_payment_expired package_activated : NoticeKind
  package_join_accepted package_join_rejected package_join_expired : NoticeKind
  package_join_requested package_partner_left package_cancelled : NoticeKind
  discount_cancelled review_replied complaint_status_changed complaint_replied : NoticeKind
  delivery_out_for_delivery delivery_completed delivery_failed : NoticeKind

pub record Notice : Type 0 where
  pub kind : NoticeKind
  pub actor_id : ℕ
  pub target_user_id : ℕ
  pub entity_id : ℕ

-- The database, with the domain events that were emitted (the oldest first) and the next fresh id.
pub record Db : Type 0 where
  pub providers : List Provider
  pub services : List Service
  pub bookings : List Booking
  pub booking_items : List BookingItem
  pub events : List Event
  pub payments : List Payment
  pub deliveries : List Delivery
  pub discounts : List Discount
  pub packages : List Package
  pub package_services : List PackageService
  pub package_bookings : List PackageBooking
  pub reviews : List Review
  pub complaints : List Complaint
  pub blocked_slots : List BlockedSlot
  pub favorites : List Favorite
  pub notices : List Notice
  pub next_id : ℕ
