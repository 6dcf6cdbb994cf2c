-- ===== src/System/Runs.antt =====
-- Every run of requests changes the database lawfully.
use eventy_backend.Base.{ℕ, List, [], ◌∷◌}
use eventy_backend.Model.{Db}
use eventy_backend.Change.{Lawful}
use eventy_backend.Change.Tables.{Lawful-refl, Lawful-trans}
use eventy_backend.Change.Rules.{LawfulAt}
use eventy_backend.Deliveries.Lawful.{update_status-Lawful}
use eventy_backend.Bookings.Lawful.{confirm_quote-Lawful, reject_quote-Lawful}
use eventy_backend.Bookings.Bulk.Lawful.{bulk_quote_decision-Lawful}
use eventy_backend.PackageBookings.Lawful.{
  accept_package_booking-Lawful, reject_package_booking-Lawful, complete_package_booking-Lawful,
  cancel_package_booking-Lawful,
}
use eventy_backend.PackageBookings.Paying.Lawful.{
  pay_package_booking-Lawful, confirm_package_card_payment-Lawful,
}
use eventy_backend.PackageBookings.Expiry.Lawful.{
  expire_pending_package_bookings-Lawful, expire_unpaid_package_bookings-Lawful,
  complete_finished_package_bookings-Lawful,
}
use eventy_backend.Partners.Lawful.{
  activate_package-Lawful, accept_join_request-Lawful, reject_join_request-Lawful,
  leave_package-Lawful, expire_pending_join_requests-Lawful,
}
use eventy_backend.BlockedSlots.Lawful.{create_blocked_slots-Lawful, remove_blocked_slot-Lawful}
use eventy_backend.Favorites.Lawful.{create_favorite-Lawful, remove_favorite-Lawful}
use eventy_backend.ProviderBookings.Lawful.{
  send_quote-Lawful, complete_booking-Lawful, reject_booking-Lawful,
}
use eventy_backend.Payments.{Gateway}
use eventy_backend.Payments.Lawful.{
  create_payment-Lawful, confirm_payment-Lawful, mark_cash_paid-Lawful, refund_payment-Lawful,
}
use eventy_backend.Events.Lawful.{cancel_event-Lawful, set_archived-Lawful}
use eventy_backend.Cleanup.Lawful.{handle_expired_bookings-Lawful, complete_past_events-Lawful}
use eventy_backend.Discounts.Lawful.{
  create_provider_discount-Lawful, create_company_funded_discount-Lawful, reconfirm-Lawful,
  cancel_by_provider-Lawful, cancel_by_admin-Lawful, suspend_discounts_for_package-Lawful,
}
use eventy_backend.System.{Request, outcome, respond, effect, run}

effect-Lawful :
    (gateway : Gateway) (now : ℕ) (r : Request) (db : Db) → Lawful db (effect gateway now r db)
unfolding effect respond outcome LawfulAt
effect-Lawful gateway now (Request.customer_confirms u k) db = confirm_quote-Lawful now u k db
effect-Lawful gateway now (Request.customer_rejects u k) db = reject_quote-Lawful now u k db
effect-Lawful gateway now (Request.provider_quotes u k dto) db = send_quote-Lawful now u k dto db
effect-Lawful gateway now (Request.provider_completes u k) db = complete_booking-Lawful now u k db
effect-Lawful gateway now (Request.provider_rejects u k why) db =
    reject_booking-Lawful now u k why db
effect-Lawful gateway now (Request.customer_cancels_event u k why) db =
    cancel_event-Lawful now u k why db
effect-Lawful gateway now (Request.user_archives_event user k on) db =
    set_archived-Lawful now user k on db
effect-Lawful gateway now (Request.customer_pays u k method code) db =
    create_payment-Lawful gateway now u k method code db
effect-Lawful gateway now (Request.customer_confirms_payment u k) db =
    confirm_payment-Lawful gateway now u k db
effect-Lawful gateway now (Request.provider_receives_cash u k) db = mark_cash_paid-Lawful now u k db
effect-Lawful gateway now (Request.admin_refunds k) db = refund_payment-Lawful k db
effect-Lawful gateway now (Request.provider_moves_delivery u k status notes) db =
    update_status-Lawful u k status notes now db
effect-Lawful gateway now (Request.provider_adds_discount u dto) db =
    create_provider_discount-Lawful u dto db
effect-Lawful gateway now (Request.admin_adds_discount u dto) db =
    create_company_funded_discount-Lawful u dto db
effect-Lawful gateway now (Request.provider_reconfirms_discount u k) db = reconfirm-Lawful u k db
effect-Lawful gateway now (Request.provider_cancels_discount u k) db =
    cancel_by_provider-Lawful u k db
effect-Lawful gateway now (Request.admin_cancels_discount k) db = cancel_by_admin-Lawful k db
effect-Lawful gateway now (Request.package_changes k) db = suspend_discounts_for_package-Lawful k db
effect-Lawful gateway now Request.bookings_expire db = handle_expired_bookings-Lawful now db
effect-Lawful gateway now Request.events_end db = complete_past_events-Lawful now db
effect-Lawful gateway now (Request.customer_decides_quotes u k dto) db =
    bulk_quote_decision-Lawful now u k dto db
effect-Lawful gateway now (Request.provider_accepts_package u k) db =
    accept_package_booking-Lawful now u k db
effect-Lawful gateway now (Request.provider_completes_package u k) db =
    complete_package_booking-Lawful now u k db
effect-Lawful gateway now (Request.provider_rejects_package u k why) db =
    reject_package_booking-Lawful now u k why db
effect-Lawful gateway now (Request.customer_cancels_package u k why) db =
    cancel_package_booking-Lawful now u k why db
effect-Lawful gateway now (Request.customer_pays_package u k method) db =
    pay_package_booking-Lawful gateway now u k method db
effect-Lawful gateway now (Request.customer_confirms_package_payment u k) db =
    confirm_package_card_payment-Lawful gateway now u k db
effect-Lawful gateway now (Request.owner_activates_package u k) db = activate_package-Lawful u k db
effect-Lawful gateway now (Request.partner_accepts u k) db = accept_join_request-Lawful u k db
effect-Lawful gateway now (Request.partner_declines u k) db = reject_join_request-Lawful u k db
effect-Lawful gateway now (Request.partner_leaves u k) db = leave_package-Lawful u k db
effect-Lawful gateway now (Request.provider_blocks_days u dto) db =
    create_blocked_slots-Lawful u dto db
effect-Lawful gateway now (Request.provider_unblocks_days u k whole) db =
    remove_blocked_slot-Lawful u k whole db
effect-Lawful gateway now (Request.user_adds_favorite u t k) db = create_favorite-Lawful u t k db
effect-Lawful gateway now (Request.user_drops_favorite u t k) db = remove_favorite-Lawful u t k db
effect-Lawful gateway now Request.join_requests_expire db =
    expire_pending_join_requests-Lawful now db
effect-Lawful gateway now Request.package_requests_expire db =
    expire_pending_package_bookings-Lawful now db
effect-Lawful gateway now Request.package_payments_expire db =
    expire_unpaid_package_bookings-Lawful now db
effect-Lawful gateway now Request.packages_end db = complete_finished_package_bookings-Lawful now db

pub run-Lawful :
    (gateway : Gateway) (rs : List (ℕ × Request)) (db : Db) → Lawful db (run gateway rs db)
unfolding run
run-Lawful gateway [] db = Lawful-refl db
run-Lawful gateway (r ∷ rs) db =
    Lawful-trans db (effect gateway r.0 r.1 db) _ (effect-Lawful gateway r.0 r.1 db)
      (run-Lawful gateway rs (effect gateway r.0 r.1 db))
