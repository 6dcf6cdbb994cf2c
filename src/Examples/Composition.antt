-- ===== src/Examples/Composition.antt =====
-- The services of a package, on the small database.
use eventy_backend.Base.{
  ℕ, true, refl, distinct, nat_eq, ◌≡◌, ◌↔◌, none, List, [], ◌∷◌, String, All,
}
use eventy_backend.Model.{
  DayOfWeek, PackageStatus, PackageServiceStatus, PackageService, Db, HttpError, ok, err,
  run_handler, find_first,
}
use eventy_backend.Packages.Composition.{
  ServiceAvailability, assert_no_duplicate_package_service_set, assert_common_time_window,
  repeated_types, has_same_services, sort, insert, match_ids, common_days, day_scope,
  assert_no_duplicate_service_types,
}
use eventy_backend.Packages.Composition.Repeats.{
  IsRepeated, assert_no_duplicate_package_service_set_lem,
}
use eventy_backend.Packages.Composition.Days.{HasCommonDay, assert_common_time_window_lem}
use eventy_backend.Packages.Composition.Names.{NoRepeats, assert_no_duplicate_service_types_lem}
use eventy_backend.Packages.Creation.{
  draft_package, create_package, assert_owner_has_packaged_hall_among, insert_package, joined_from,
  ask_partners,
}
use eventy_backend.Packages.Creation.Drafts.{IsCreated, create_package_lem}
use eventy_backend.Refusal.Creation.{create_package_refused}
use eventy_backend.Examples.{sample, provider, service}

abbrev partner : ℕ → ℕ → PackageService
partner id service_id = record {
  id = id;
  package_id = 40;
  provider_id = 1;
  service_id = service_id;
  status = PackageServiceStatus.active;
  created_at = 0;
}

-- Package 40 consists of the services 2 and 5.
abbrev with_package : Db
with_package = record sample {
  packages = record { id = 40; provider_id = 1; status = PackageStatus.active } ∷ [];
  package_services = partner 43 5 ∷ partner 44 2 ∷ [];
}

assert_no_duplicate_package_service_set_lem_example :
    (assert_no_duplicate_package_service_set (2 ∷ 5 ∷ []) none with_package ≡ (with_package, ok tt))
    ↔ All (λ p. ¬ IsRepeated with_package (2 ∷ 5 ∷ []) none p) with_package.packages
assert_no_duplicate_package_service_set_lem_example =
    assert_no_duplicate_package_service_set_lem (2 ∷ 5 ∷ []) none with_package

-- Service 2 works at the week's end, service 5 on two days of which one is a Saturday.
abbrev week : List ServiceAvailability
week =
    record { service_id = 2; working_days = DayOfWeek.friday ∷ [] }
    ∷ record { service_id = 2; working_days = DayOfWeek.saturday ∷ [] }
    ∷ record { service_id = 5; working_days = DayOfWeek.monday ∷ DayOfWeek.saturday ∷ [] }
    ∷ []

assert_common_time_window_lem_example :
    (assert_common_time_window week (2 ∷ 5 ∷ []) sample ≡ (sample, ok tt))
    ↔ HasCommonDay week (2 ∷ 5 ∷ [])
assert_common_time_window_lem_example = assert_common_time_window_lem week (2 ∷ 5 ∷ []) sample

abbrev names : List String
names = "HALL" ∷ "FOOD" ∷ "HALL" ∷ []

assert_no_duplicate_service_types_lem_example :
    (assert_no_duplicate_service_types names sample ≡ (sample, ok tt)) ↔ NoRepeats names
assert_no_duplicate_service_types_lem_example = assert_no_duplicate_service_types_lem names sample

-- Provider 1 has a hall, service 6, and the kitchen, service 2, belongs to provider 7.
abbrev market : Db
market = record sample {
  providers = provider ∷ record { id = 7; user_id = 17; is_approved = true } ∷ [];
  services =
      record service { id = 6; service_type = "HALL"; is_packaged = true }
      ∷ record service { id = 2; provider_id = 7 }
      ∷ [];
}

abbrev saturdays : List ServiceAvailability
saturdays =
    record { service_id = 2; working_days = DayOfWeek.saturday ∷ [] }
    ∷ record { service_id = 6; working_days = DayOfWeek.friday ∷ DayOfWeek.saturday ∷ [] }
    ∷ []

new_draft :
    (create_package 100 saturdays 11 (2 ∷ 6 ∷ 2 ∷ []) market).1
    ≡ ok (draft_package market.next_id 1)
unfolding create_package run_handler find_first assert_no_duplicate_service_types repeated_types
    assert_owner_has_packaged_hall_among assert_no_duplicate_package_service_set has_same_services
    sort insert match_ids assert_common_time_window common_days day_scope insert_package joined_from
    ask_partners
new_draft = refl

create_package_lem_example :
    IsCreated 100 11 saturdays
      (distinct (2 ∷ 6 ∷ 2 ∷ []))
      market
      (draft_package market.next_id 1)
      (create_package 100 saturdays 11 (2 ∷ 6 ∷ 2 ∷ []) market).0
create_package_lem_example =
    create_package_lem 100 saturdays 11 (2 ∷ 6 ∷ 2 ∷ []) market (draft_package market.next_id 1)
      new_draft

-- User 20 is no provider.
refused_draft :
    (create_package 100 saturdays 20 (2 ∷ 6 ∷ []) market).1
    ≡ err (HttpError.not_found "Provider not found")
unfolding create_package run_handler find_first
refused_draft = refl

create_package_refused_example : (create_package 100 saturdays 20 (2 ∷ 6 ∷ []) market).0 ≡ market
create_package_refused_example =
    create_package_refused 100 saturdays 20 (2 ∷ 6 ∷ []) market
      (HttpError.not_found "Provider not found") refused_draft
