-- ===== src/Refusal/Requests.antt =====
-- Every request that is refused leaves the database as it was.
use eventy_backend.Base.{ℕ, true, ◌≡◌, some}
use eventy_backend.Model.{Db, Action, HttpError, is_refusal, Result, ok, err}
use eventy_backend.Refusal.{Harmless, Harmless-rest}
use eventy_backend.Refusal.Bookings.{
  confirm_quote-Harmless, reject_quote-Harmless, send_quote-Harmless, complete_booking-Harmless,
  reject_booking-Harmless, cancel_event-Harmless, set_archived-Harmless, update_status-Harmless,
  handle_expired_bookings-Settled, complete_past_events-Settled,
}
use eventy_backend.Refusal.Bulk.{bulk_quote_decision-Harmless}
use eventy_backend.Refusal.Packages.{
  accept_package_booking-Harmless, reject_package_booking-Harmless,
  complete_package_booking-Harmless, cancel_package_booking-Harmless, pay_package_booking-Harmless,
  confirm_package_card_payment-Harmless, expire_pending_package_bookings-Settled,
  expire_unpaid_package_bookings-Settled, complete_finished_package_bookings-Settled,
}
use eventy_backend.Refusal.Partners.{
  activate_package-Harmless, accept_join_request-Harmless, reject_join_request-Harmless,
  leave_package-Harmless, expire_pending_join_requests-Settled,
}
use eventy_backend.Refusal.Rows.{
  create_blocked_slots-Harmless, remove_blocked_slot-Harmless, create_favorite-Harmless,
  remove_favorite-Harmless,
}
use eventy_backend.Refusal.Payments.{
  create_payment-Harmless, confirm_payment-Harmless, mark_cash_paid-Harmless,
  refund_payment-Harmless,
}
use eventy_backend.Refusal.Discounts.{
  create_provider_discount-Harmless, create_company_funded_discount-Harmless, reconfirm-Harmless,
  cancel_by_provider-Harmless, cancel_by_admin-Harmless, suspend_discounts_for_package-Harmless,
}
use eventy_backend.Payments.{Gateway}
use eventy_backend.System.{Request, error_of, outcome, respond}

error_of-some : {A : Type 0} (r : Result A) (e : HttpError) → error_of r ≡ some e → r ≡ err e
unfolding error_of
error_of-some (ok a) e h = cc
error_of-some (err x) e h = cc

refused_outcome :
    {A : Type 0} (m : Action A) (db : Db)
    → Harmless m db
    → (e : HttpError) → (outcome m db).1 ≡ some e
    → is_refusal e ≡ true
    → (outcome m db).0 ≡ db
unfolding outcome Harmless
refused_outcome m db h e c ne = h e (error_of-some (m db).1 e c) ne

-- Whatever the request, if it is refused, it has changed nothing: no row, no notice and no fresh id. A
-- refusal is an exception of Nest or a broken unique index; a TypeError and an error of Prisma's client
-- for a query that it does not run are none.
pub respond_refused :
    (gateway : Gateway) (now : ℕ) (r : Request) (db : Db) (e : HttpError)
    → (respond gateway now r db).1 ≡ some e
    → is_refusal e ≡ true
    → (respond gateway now r db).0 ≡ db
unfolding respond
respond_refused gateway now (Request.customer_confirms u k) db =
    refused_outcome _ db (confirm_quote-Harmless now u k db)
respond_refused gateway now (Request.customer_rejects u k) db =
    refused_outcome _ db (reject_quote-Harmless now u k db)
respond_refused gateway now (Request.provider_quotes u k dto) db =
    refused_outcome _ db (send_quote-Harmless now u k dto db)
respond_refused gateway now (Request.provider_completes u k) db =
    refused_outcome _ db (complete_booking-Harmless now u k db)
respond_refused gateway now (Request.provider_rejects u k why) db =
    refused_outcome _ db (reject_booking-Harmless now u k why db)
respond_refused gateway now (Request.customer_cancels_event u k why) db =
    refused_outcome _ db (cancel_event-Harmless now u k why db)
respond_refused gateway now (Request.user_archives_event user k on) db =
    refused_outcome _ db (set_archived-Harmless now user k on db)
respond_refused gateway now (Request.customer_pays u k method code) db =
    refused_outcome _ db (create_payment-Harmless gateway now u k method code db)
respond_refused gateway now (Request.customer_confirms_payment u k) db =
    refused_outcome _ db (confirm_payment-Harmless gateway now u k db)
respond_refused gateway now (Request.provider_receives_cash u k) db =
    refused_outcome _ db (mark_cash_paid-Harmless now u k db)
respond_refused gateway now (Request.admin_refunds k) db =
    refused_outcome _ db (refund_payment-Harmless k db)
respond_refused gateway now (Request.provider_moves_delivery u k status notes) db =
    refused_outcome _ db (update_status-Harmless u k status notes now db)
respond_refused gateway now (Request.provider_adds_discount u dto) db =
    refused_outcome _ db (create_provider_discount-Harmless u dto db)
respond_refused gateway now (Request.admin_adds_discount u dto) db =
    refused_outcome _ db (create_company_funded_discount-Harmless u dto db)
respond_refused gateway now (Request.provider_reconfirms_discount u k) db =
    refused_outcome _ db (reconfirm-Harmless u k db)
respond_refused gateway now (Request.provider_cancels_discount u k) db =
    refused_outcome _ db (cancel_by_provider-Harmless u k db)
respond_refused gateway now (Request.admin_cancels_discount k) db =
    refused_outcome _ db (cancel_by_admin-Harmless k db)
respond_refused gateway now (Request.package_changes k) db =
    refused_outcome _ db (suspend_discounts_for_package-Harmless k db)
respond_refused gateway now Request.bookings_expire db =
    refused_outcome _ db (Harmless-rest _ db (handle_expired_bookings-Settled now))
respond_refused gateway now Request.events_end db =
    refused_outcome _ db (Harmless-rest _ db (complete_past_events-Settled now))
respond_refused gateway now (Request.customer_decides_quotes u k dto) db =
    refused_outcome _ db (bulk_quote_decision-Harmless now u k dto db)
respond_refused gateway now (Request.provider_accepts_package u k) db =
    refused_outcome _ db (accept_package_booking-Harmless now u k db)
respond_refused gateway now (Request.provider_completes_package u k) db =
    refused_outcome _ db (complete_package_booking-Harmless now u k db)
respond_refused gateway now (Request.provider_rejects_package u k why) db =
    refused_outcome _ db (reject_package_booking-Harmless now u k why db)
respond_refused gateway now (Request.customer_cancels_package u k why) db =
    refused_outcome _ db (cancel_package_booking-Harmless now u k why db)
respond_refused gateway now (Request.customer_pays_package u k method) db =
    refused_outcome _ db (pay_package_booking-Harmless gateway now u k method db)
respond_refused gateway now (Request.customer_confirms_package_payment u k) db =
    refused_outcome _ db (confirm_package_card_payment-Harmless gateway now u k db)
respond_refused gateway now (Request.owner_activates_package u k) db =
    refused_outcome _ db (activate_package-Harmless u k db)
respond_refused gateway now (Request.partner_accepts u k) db =
    refused_outcome _ db (accept_join_request-Harmless u k db)
respond_refused gateway now (Request.partner_declines u k) db =
    refused_outcome _ db (reject_join_request-Harmless u k db)
respond_refused gateway now (Request.partner_leaves u k) db =
    refused_outcome _ db (leave_package-Harmless u k db)
respond_refused gateway now (Request.provider_blocks_days u dto) db =
    refused_outcome _ db (create_blocked_slots-Harmless u dto db)
respond_refused gateway now (Request.provider_unblocks_days u k whole) db =
    refused_outcome _ db (remove_blocked_slot-Harmless u k whole db)
respond_refused gateway now (Request.user_adds_favorite u t k) db =
    refused_outcome _ db (create_favorite-Harmless u t k db)
respond_refused gateway now (Request.user_drops_favorite u t k) db =
    refused_outcome _ db (remove_favorite-Harmless u t k db)
respond_refused gateway now Request.join_requests_expire db =
    refused_outcome _ db (Harmless-rest _ db (expire_pending_join_requests-Settled now))
respond_refused gateway now Request.package_requests_expire db =
    refused_outcome _ db (Harmless-rest _ db (expire_pending_package_bookings-Settled now))
respond_refused gateway now Request.package_payments_expire db =
    refused_outcome _ db (Harmless-rest _ db (expire_unpaid_package_bookings-Settled now))
respond_refused gateway now Request.packages_end db =
    refused_outcome _ db (Harmless-rest _ db (complete_finished_package_bookings-Settled now))
