-- ===== src/System.antt =====
-- The requests that the controllers and the cron jobs pass to the services, and a run of them, one
-- after the other, each at its own time.
pub mod Runs
pub mod Guarantees
use eventy_backend.Base.{ℕ, Bool, Option, none, some, List, [], ◌∷◌, String}
use eventy_backend.Model.{
  FulfillmentStatus, FavoriteTargetType, PaymentMethod, Db, Action, HttpError, Result, ok, err,
}
use eventy_backend.Deliveries.{update_status}
use eventy_backend.Bookings.Bulk.{BulkQuoteDecision, bulk_quote_decision}
use eventy_backend.PackageBookings.{
  accept_package_booking, reject_package_booking, complete_package_booking, cancel_package_booking,
}
use eventy_backend.PackageBookings.Paying.{pay_package_booking, confirm_package_card_payment}
use eventy_backend.PackageBookings.Expiry.{
  expire_pending_package_bookings, expire_unpaid_package_bookings,
  complete_finished_package_bookings,
}
use eventy_backend.Partners.{
  activate_package, accept_join_request, reject_join_request, leave_package,
  expire_pending_join_requests,
}
use eventy_backend.BlockedSlots.{CreateBlockedSlot, create_blocked_slots, remove_blocked_slot}
use eventy_backend.Favorites.{create_favorite, remove_favorite}
use eventy_backend.Bookings.{confirm_quote, reject_quote}
use eventy_backend.ProviderBookings.{SendQuote, send_quote, complete_booking, reject_booking}
use eventy_backend.Payments.{
  Gateway, create_payment, confirm_payment, mark_cash_paid, refund_payment,
}
use eventy_backend.Events.{cancel_event, User, set_archived}
use eventy_backend.Cleanup.{handle_expired_bookings, complete_past_events}
use eventy_backend.Discounts.{
  CreateDiscount, create_provider_discount, create_company_funded_discount, reconfirm,
  cancel_by_provider, cancel_by_admin, suspend_discounts_for_package,
}

-- Who asks comes first, then what it is about.
pub data Request : Type 0 where
  customer_confirms customer_rejects : ℕ → ℕ → Request
  provider_quotes : ℕ → ℕ → SendQuote → Request
  provider_completes : ℕ → ℕ → Request
  provider_rejects : ℕ → ℕ → Option String → Request
  customer_cancels_event : ℕ → ℕ → String → Request
  user_archives_event : User → ℕ → Bool → Request
  customer_pays : ℕ → ℕ → PaymentMethod → Option String → Request
  customer_confirms_payment : ℕ → ℕ → Request
  provider_receives_cash : ℕ → ℕ → Request
  admin_refunds : ℕ → Request
  provider_moves_delivery : ℕ → ℕ → FulfillmentStatus → Option String → Request
  provider_adds_discount admin_adds_discount : ℕ → CreateDiscount → Request
  provider_reconfirms_discount provider_cancels_discount : ℕ → ℕ → Request
  admin_cancels_discount : ℕ → Request
  package_changes : ℕ → Request
  bookings_expire events_end : Request
  customer_decides_quotes : ℕ → ℕ → BulkQuoteDecision → Request
  provider_accepts_package provider_completes_package : ℕ → ℕ → Request
  provider_rejects_package customer_cancels_package : ℕ → ℕ → Option String → Request
  customer_pays_package : ℕ → ℕ → PaymentMethod → Request
  customer_confirms_package_payment : ℕ → ℕ → Request
  owner_activates_package partner_accepts partner_declines partner_leaves : ℕ → ℕ → Request
  provider_blocks_days : ℕ → CreateBlockedSlot → Request
  provider_unblocks_days : ℕ → ℕ → Bool → Request
  user_adds_favorite user_drops_favorite : ℕ → FavoriteTargetType → ℕ → Request
  join_requests_expire package_requests_expire package_payments_expire packages_end : Request

unfoldable pub error_of : {A : Type 0} → Result A → Option HttpError
error_of (ok a) = none
error_of (err e) = some e

-- What a handler leaves in the database, and the exception that it throws, if any.
unfoldable pub outcome : {A : Type 0} → Action A → Db → Db × Option HttpError
unfolding error_of
outcome m db = ((m db).0, error_of (m db).1)

unfoldable pub respond : Gateway → ℕ → Request → Db → Db × Option HttpError
respond gateway now (customer_confirms u k) = outcome (confirm_quote now u k)
respond gateway now (customer_rejects u k) = outcome (reject_quote now u k)
respond gateway now (provider_quotes u k dto) = outcome (send_quote now u k dto)
respond gateway now (provider_completes u k) = outcome (complete_booking now u k)
respond gateway now (provider_rejects u k why) = outcome (reject_booking now u k why)
respond gateway now (customer_cancels_event u k why) = outcome (cancel_event now u k why)
respond gateway now (user_archives_event user k on) = outcome (set_archived now user k on)
respond gateway now (customer_pays u k method code) =
    outcome (create_payment gateway now u k method code)
respond gateway now (customer_confirms_payment u k) = outcome (confirm_payment gateway now u k)
respond gateway now (provider_receives_cash u k) = outcome (mark_cash_paid now u k)
respond gateway now (admin_refunds k) = outcome (refund_payment k)
respond gateway now (provider_moves_delivery u k status notes) =
    outcome (update_status u k status notes now)
respond gateway now (provider_adds_discount u dto) = outcome (create_provider_discount u dto)
respond gateway now (admin_adds_discount u dto) = outcome (create_company_funded_discount u dto)
respond gateway now (provider_reconfirms_discount u k) = outcome (reconfirm u k)
respond gateway now (provider_cancels_discount u k) = outcome (cancel_by_provider u k)
respond gateway now (admin_cancels_discount k) = outcome (cancel_by_admin k)
respond gateway now (package_changes k) = outcome (suspend_discounts_for_package k)
respond gateway now bookings_expire = outcome (handle_expired_bookings now)
respond gateway now events_end = outcome (complete_past_events now)
respond gateway now (customer_decides_quotes u k dto) = outcome (bulk_quote_decision now u k dto)
respond gateway now (provider_accepts_package u k) = outcome (accept_package_booking now u k)
respond gateway now (provider_completes_package u k) = outcome (complete_package_booking now u k)
respond gateway now (provider_rejects_package u k why) =
    outcome (reject_package_booking now u k why)
respond gateway now (customer_cancels_package u k why) =
    outcome (cancel_package_booking now u k why)
respond gateway now (customer_pays_package u k method) =
    outcome (pay_package_booking gateway now u k method)
respond gateway now (customer_confirms_package_payment u k) =
    outcome (confirm_package_card_payment gateway now u k)
respond gateway now (owner_activates_package u k) = outcome (activate_package u k)
respond gateway now (partner_accepts u k) = outcome (accept_join_request u k)
respond gateway now (partner_declines u k) = outcome (reject_join_request u k)
respond gateway now (partner_leaves u k) = outcome (leave_package u k)
respond gateway now (provider_blocks_days u dto) = outcome (create_blocked_slots u dto)
respond gateway now (provider_unblocks_days u k whole) = outcome (remove_blocked_slot u k whole)
respond gateway now (user_adds_favorite u t k) = outcome (create_favorite u t k)
respond gateway now (user_drops_favorite u t k) = outcome (remove_favorite u t k)
respond gateway now join_requests_expire = outcome (expire_pending_join_requests now)
respond gateway now package_requests_expire = outcome (expire_pending_package_bookings now)
respond gateway now package_payments_expire = outcome (expire_unpaid_package_bookings now)
respond gateway now packages_end = outcome (complete_finished_package_bookings now)

unfoldable pub effect : Gateway → ℕ → Request → Db → Db
effect gateway now r db = (respond gateway now r db).0

unfoldable pub run : Gateway → List (ℕ × Request) → Db → Db
run gateway [] db = db
run gateway (r ∷ rs) db = run gateway rs (effect gateway r.0 r.1 db)
