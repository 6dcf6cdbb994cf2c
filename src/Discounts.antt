-- ===== src/Discounts.antt =====
-- src/modules/discounts/discounts.service.ts: discounts on services and packages.
pub mod Lawful
pub mod Overlap
pub mod Redeem
use eventy_backend.Base.{
  ℕ, suc, ◌+◌, Bool, true, false, not, ◌&&◌, ◌||◌, Option, none, some, List, [], ◌∷◌, ◌++◌, String,
  ◌==◌, nat_eq, string_eq, any, keep, if◌then◌else◌, leb, ltb, is_some, includes,
}
use eventy_backend.Model.{
  DiscountScope, discount_scope_eq, DiscountOrigin, DiscountStatus, discount_status_eq, Db,
  Discount, Provider, Service, Package, NoticeKind, Action, HttpError, ◌>>=◌, ◌>>◌, pure, gets,
  raise, or_raise, raise_unless, raise_if, modify, when, emit, update_where, find_first, is_id,
  provider_of_user, service_by_id,
}

-- `CreateDiscountDto`
pub record CreateDiscount : Type 0 where
  pub scope : DiscountScope
  pub service_id : Option ℕ
  pub package_id : Option ℕ
  pub percent_off : ℕ
  pub code : Option String
  pub starts_at : Option ℕ
  pub ends_at : Option ℕ

-- Whether a text is given and not empty, which is how the code tests `if (code)`.
abbrev pub is_given : Option String → Bool
is_given none = false
is_given (some s) = not (s == "")

abbrev package_by_id : Db → ℕ → Option Package
package_by_id db k = find_first (λ p. p.id == k) db.packages

-- The two date ranges, open where a bound is empty, meet.
abbrev pub starts_by : Option ℕ → Option ℕ → Bool
starts_by none stop = true
starts_by (some a) none = true
starts_by (some a) (some b) = leb a b

unfoldable pub ranges_overlap : Option ℕ → Option ℕ → Option ℕ → Option ℕ → Bool
ranges_overlap a_start a_end b_start b_end = starts_by a_start b_end && starts_by b_start a_end

-- The scope names one target: `scope=SERVICE requires serviceId only`, and so for packages.
unfoldable pub names_target : CreateDiscount → Bool
names_target dto =
    if dto.scope == DiscountScope.service
    then is_some dto.service_id && not (is_some dto.package_id)
    else is_some dto.package_id && not (is_some dto.service_id)

service_owner : Option Service → Option ℕ
service_owner none = none
service_owner (some s) = some s.provider_id

package_owner : Option Package → Option ℕ
package_owner none = none
package_owner (some p) = some p.provider_id

by_id : {A : Type 0} → (ℕ → Option A) → Option ℕ → Option A
by_id f none = none
by_id f (some k) = f k

-- The provider of the service or package that the discount is for.
owner_of : Db → CreateDiscount → Option ℕ
owner_of db dto =
    if dto.scope == DiscountScope.service
    then service_owner (by_id (service_by_id db) dto.service_id)
    else package_owner (by_id (package_by_id db) dto.package_id)

unfoldable pub resolve_owned_target : ℕ → CreateDiscount → Action (Unit {0})
unfolding owner_of service_owner package_owner by_id
resolve_owned_target user_id dto = do
  db ← gets (λ d. d)
  provider ← or_raise (provider_of_user db user_id) (HttpError.not_found "Provider not found")
  raise_unless (names_target dto)
      (HttpError.bad_request "the scope requires its own id only (docs §2)")
  owner ← or_raise (owner_of db dto) (HttpError.not_found "Service or package not found")
  raise_unless (owner == provider.id) (HttpError.forbidden "Access denied")

-- A filter by a column, which `undefined` leaves out.
abbrev pub matches : Option ℕ → Option ℕ → Bool
matches none column = true
matches (some k) column = is_id column k

-- An active discount without a code that a query for this target returns.
abbrev pub is_auto_for : Option ℕ → Option ℕ → Discount → Bool
is_auto_for service_id package_id d =
    (matches service_id d.service_id && matches package_id d.package_id)
    && (d.status == DiscountStatus.active && not (is_some d.code))

unfoldable pub has_overlap : CreateDiscount → Discount → Bool
has_overlap dto d =
    is_auto_for dto.service_id dto.package_id d
    && ranges_overlap dto.starts_at dto.ends_at d.starts_at d.ends_at

unfoldable pub assert_no_overlapping_auto_discount : CreateDiscount → Action (Unit {0})
assert_no_overlapping_auto_discount dto = do
  db ← gets (λ d. d)
  raise_if (not (is_given dto.code) && any (has_overlap dto) db.discounts) (
      HttpError.bad_request
        "An active discount without a code already covers an overlapping date range for this target")

new_discount : ℕ → ℕ → DiscountOrigin → CreateDiscount → Discount
new_discount id user_id origin dto = record {
  id = id;
  scope = dto.scope;
  service_id = dto.service_id;
  package_id = dto.package_id;
  origin = origin;
  code = dto.code;
  percent_off = dto.percent_off;
  status = DiscountStatus.active;
  needs_reconfirmation = false;
  starts_at = dto.starts_at;
  ends_at = dto.ends_at;
  created_by_user_id = user_id;
}

abbrev pub has_code : Option String → Discount → Bool
has_code none d = false
has_code (some s) d = elim d.code [ none ↦ false | some c ↦ c == s ]

-- A code that is in use breaks the unique index; rows without a code do not.
unfoldable pub insert_discount : ℕ → DiscountOrigin → CreateDiscount → Action (Unit {0})
unfolding new_discount
insert_discount user_id origin dto = do
  db ← gets (λ d. d)
  raise_if (any (has_code dto.code) db.discounts) HttpError.unique_violation
  modify (λ d. record d {
    discounts = d.discounts ++ new_discount d.next_id user_id origin dto ∷ [];
    next_id = suc d.next_id;
  })

unfoldable pub create_provider_discount : ℕ → CreateDiscount → Action (Unit {0})
create_provider_discount user_id dto = do
  resolve_owned_target user_id dto
  assert_no_overlapping_auto_discount dto
  db ← gets (λ d. d)
  raise_if (is_given dto.code && any (has_code dto.code) db.discounts)
      (HttpError.bad_request "This discount code is already in use")
  insert_discount user_id DiscountOrigin.provider dto

unfoldable pub create_company_funded_discount : ℕ → CreateDiscount → Action (Unit {0})
create_company_funded_discount admin_id dto = do
  raise_unless (names_target dto)
      (HttpError.bad_request "the scope requires its own id only (docs §2)")
  assert_no_overlapping_auto_discount dto
  insert_discount admin_id DiscountOrigin.company_funded dto

abbrev pub discount_by_id : Db → ℕ → Option Discount
discount_by_id db k = find_first (λ d. d.id == k) db.discounts

owns : Option ℕ → ℕ → Bool
owns none provider_id = false
owns (some owner) provider_id = owner == provider_id

-- The provider owns the service or the package of the discount.
owns_target : Db → Provider → Discount → Bool
owns_target db p d =
    owns (service_owner (by_id (service_by_id db) d.service_id)) p.id
    || owns (package_owner (by_id (package_by_id db) d.package_id)) p.id

unfoldable pub get_owned_discount : ℕ → ℕ → Action Discount
unfolding owns_target owns service_owner package_owner by_id
get_owned_discount user_id discount_id = do
  db ← gets (λ d. d)
  provider ← or_raise (provider_of_user db user_id) (HttpError.not_found "Provider not found")
  discount ← or_raise (discount_by_id db discount_id) (HttpError.not_found "Discount not found")
  raise_unless (owns_target db provider discount) (HttpError.forbidden "Access denied")
  pure discount

unfoldable pub update_discount : ℕ → (Discount → Discount) → Action (Unit {0})
update_discount discount_id f =
    modify λ db. record db { discounts = update_where (λ d. d.id == discount_id) f db.discounts }

unfoldable pub reconfirm : ℕ → ℕ → Action (Unit {0})
unfolding update_discount
reconfirm user_id discount_id = do
  discount ← get_owned_discount user_id discount_id
  raise_unless discount.needs_reconfirmation
      (HttpError.bad_request "This discount does not need reconfirmation")
  update_discount discount_id (λ d. record d { needs_reconfirmation = false })

unfoldable pub cancel : ℕ → ℕ → Action (Unit {0})
unfolding update_discount
cancel discount_id actor_id = do
  db ← gets (λ d. d)
  existing ← or_raise (discount_by_id db discount_id) (HttpError.not_found "Discount not found")
  raise_unless (existing.status == DiscountStatus.active)
      (HttpError.bad_request "Only active discounts can be cancelled")
  update_discount discount_id (λ d. record d { status = DiscountStatus.cancelled })
  when (not (actor_id == existing.created_by_user_id))
      (emit NoticeKind.discount_cancelled actor_id existing.created_by_user_id existing.id)

unfoldable pub cancel_by_provider : ℕ → ℕ → Action (Unit {0})
cancel_by_provider user_id discount_id = do
  get_owned_discount user_id discount_id
  cancel discount_id user_id

unfoldable pub cancel_by_admin : ℕ → Action (Unit {0})
cancel_by_admin discount_id = do
  db ← gets (λ d. d)
  discount ← or_raise (discount_by_id db discount_id) (HttpError.not_found "Discount not found")
  cancel discount_id discount.created_by_user_id

unfoldable pub suspend_discounts_for_package : ℕ → Action (Unit {0})
suspend_discounts_for_package package_id = modify λ db. record db {
  discounts =
      update_where (λ d. is_id d.package_id package_id && d.status == DiscountStatus.active)
        (λ d. record d { needs_reconfirmation = true }) db.discounts;
}
