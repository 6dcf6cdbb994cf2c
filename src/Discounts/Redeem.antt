-- ===== src/Discounts/Redeem.antt =====
-- The redemption helpers of discounts.service.ts: which discount applies at checkout, and which one
-- the listings show.
use eventy_backend.Base.{
  ℕ, Bool, false, not, ◌&&◌, Option, none, some, List, [], ◌∷◌, String, ◌==◌, nat_eq, string_eq,
  if◌then◌else◌, ltb, is_some,
}
use eventy_backend.Model.{
  DiscountScope, discount_scope_eq, DiscountStatus, discount_status_eq, Discount, Action, HttpError,
  ◌>>=◌, pure, gets, raise, find_first, is_id,
}
use eventy_backend.Discounts.{is_given}

-- `d.startsAt > now` and `d.endsAt < now`, which an empty bound never meets.
abbrev pub is_after : Option ℕ → ℕ → Bool
is_after none now = false
is_after (some t) now = ltb now t

abbrev pub is_before : Option ℕ → ℕ → Bool
is_before none now = false
is_before (some t) now = ltb t now

unfoldable pub is_currently_valid : ℕ → Discount → Bool
is_currently_valid now d =
    (d.status == DiscountStatus.active && not d.needs_reconfirmation)
    && (not (is_after d.starts_at now) && not (is_before d.ends_at now))

unfoldable pub same_code : Option String → Option String → Bool
same_code (some a) (some b) = a == b
same_code _ _ = false

-- No discount applies; a code that was supplied is refused.
unfoldable pub refuse : Option String → Action (Option Discount)
refuse supplied =
    if is_given supplied
    then raise (HttpError.bad_request "Invalid or expired discount code")
    else pure none

unfoldable pub match_or_null : ℕ → Option String → Option Discount → Action (Option Discount)
unfolding refuse same_code
match_or_null now supplied none = refuse supplied
match_or_null now supplied (some d) =
    if is_currently_valid now d
    then (if is_given d.code && not (is_given supplied && same_code supplied d.code)
        then refuse supplied
        else pure (some d))
    else refuse supplied

abbrev pub is_active_for_service : ℕ → Discount → Bool
is_active_for_service service_id d =
    d.scope == DiscountScope.service
    && (is_id d.service_id service_id && d.status == DiscountStatus.active)

abbrev pub is_active_for_package : ℕ → Discount → Bool
is_active_for_package package_id d =
    d.scope == DiscountScope.package_scope
    && (is_id d.package_id package_id && d.status == DiscountStatus.active)

-- `findFirst` has no order: the model takes the table's.
unfoldable pub resolve_active_discount_for_service :
    ℕ → ℕ → Option String → Action (Option Discount)
resolve_active_discount_for_service now service_id supplied = do
  found ← gets (λ d. find_first (is_active_for_service service_id) d.discounts)
  match_or_null now supplied found

unfoldable pub resolve_active_discount_for_package :
    ℕ → ℕ → Option String → Action (Option Discount)
resolve_active_discount_for_package now package_id supplied = do
  found ← gets (λ d. find_first (is_active_for_package package_id) d.discounts)
  match_or_null now supplied found

-- What `getActiveAutoDiscountsForServices` maps a service to: the last valid discount without a
-- code, since a later row overwrites an earlier one in the map.
unfoldable pub listed_for_service : ℕ → ℕ → List Discount → Option Discount
listed_for_service now service_id [] = none
listed_for_service now service_id (d ∷ ds) =
    let rest = listed_for_service now service_id ds in
    if is_some rest
    then rest
    else (if is_active_for_service service_id d
          && (not (is_some d.code) && is_currently_valid now d)
        then some d
        else none)
