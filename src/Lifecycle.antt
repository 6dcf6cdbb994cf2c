-- ===== src/Lifecycle.antt =====
-- The life of a booking: the moves that BookingsService, ProviderBookingsService, EventService,
-- PaymentsService, PackagesService and the cron jobs make, and how one row of the table may change.
pub mod Order
use eventy_backend.Base.{ℕ, Bool, true, false, ◌≡◌}
use eventy_backend.Model.{BookingStatus, Booking}

infix 40 ◌⟶◌ ◌⟶*◌
-- One business action. The last two come only with a booked package.
pub data ◌⟶◌ : BookingStatus → BookingStatus → Type 0 where
  quote : BookingStatus.pending ⟶ BookingStatus.quote_sent
  reject : BookingStatus.pending ⟶ BookingStatus.rejected
  confirm : BookingStatus.quote_sent ⟶ BookingStatus.confirmed
  start : BookingStatus.confirmed ⟶ BookingStatus.in_progress
  complete : BookingStatus.in_progress ⟶ BookingStatus.completed
  cancel_pending : BookingStatus.pending ⟶ BookingStatus.cancelled
  cancel_quoted : BookingStatus.quote_sent ⟶ BookingStatus.cancelled
  cancel_confirmed : BookingStatus.confirmed ⟶ BookingStatus.cancelled
  accept_in_package : BookingStatus.pending ⟶ BookingStatus.confirmed
  cancel_in_package : BookingStatus.in_progress ⟶ BookingStatus.cancelled

pub data ◌⟶*◌ (s : BookingStatus) : BookingStatus → Type 0 where
  here : s ⟶* s
  next : {t u : BookingStatus} → s ⟶* t → t ⟶ u → s ⟶* u

-- How far a booking is: a move goes up, and the last three are final.
abbrev pub later : BookingStatus → BookingStatus → Bool
later BookingStatus.pending t = true
later BookingStatus.quote_sent BookingStatus.pending = false
later BookingStatus.quote_sent BookingStatus.rejected = false
later BookingStatus.quote_sent _ = true
later BookingStatus.confirmed BookingStatus.confirmed = true
later BookingStatus.confirmed BookingStatus.in_progress = true
later BookingStatus.confirmed BookingStatus.completed = true
later BookingStatus.confirmed BookingStatus.cancelled = true
later BookingStatus.confirmed _ = false
later BookingStatus.in_progress BookingStatus.in_progress = true
later BookingStatus.in_progress BookingStatus.completed = true
later BookingStatus.in_progress BookingStatus.cancelled = true
later BookingStatus.in_progress _ = false
later BookingStatus.rejected BookingStatus.rejected = true
later BookingStatus.rejected _ = false
later BookingStatus.completed BookingStatus.completed = true
later BookingStatus.completed _ = false
later BookingStatus.cancelled BookingStatus.cancelled = true
later BookingStatus.cancelled _ = false

-- What any handler may do to a booking: its owner, service, event and price stay, and its status
-- moves forward.
pub record BookingMove (a b : Booking) : Type 0 where
  pub same_id : b.id ≡ a.id
  pub same_customer : b.customer_id ≡ a.customer_id
  pub same_provider : b.provider_id ≡ a.provider_id
  pub same_service : b.service_id ≡ a.service_id
  pub same_event : b.event_id ≡ a.event_id
  pub same_total : b.total_amount ≡ a.total_amount
  pub forward : later a.status b.status ≡ true
