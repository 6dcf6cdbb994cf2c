-- ===== src/Packages/Creation.antt =====
-- src/modules/packages/packages.service.ts: createPackage, by which a provider puts a package together from
-- services, some of them of other providers.
pub mod Drafts
use eventy_backend.Base.{
  ℕ, suc, ◌+◌, Bool, true, false, not, ◌&&◌, ◌||◌, Option, none, some, List, [], ◌∷◌, ◌++◌, map,
  String, string_eq, ◌==◌, nat_eq, includes, is_some, if◌then◌else◌, all, any, keep, length, leb,
  ltb, distinct,
}
use eventy_backend.Model.{
  PackageStatus, PackageServiceStatus, Db, Service, Provider, Package, PackageService, NoticeKind,
  Action, HttpError, ◌>>=◌, ◌>>◌, gets, pure, or_raise, raise_if, raise_unless, modify, for_each,
  emit, transaction, find_first, provider_of_user,
}
use eventy_backend.Packages.Composition.{
  ServiceAvailability, assert_no_duplicate_package_service_set, assert_common_time_window,
  assert_no_duplicate_service_types,
}

-- The services that the query reads: named and approved.
abbrev pub named_services : Db → List ℕ → List Service
named_services db ids = keep (λ s. includes ids s.id && s.is_active) db.services

abbrev pub is_packaged_hall : ℕ → List ℕ → Service → Bool
is_packaged_hall owner_id ids s =
    includes ids s.id && (s.provider_id == owner_id && (s.is_packaged && s.service_type == "HALL"))

unfoldable pub assert_owner_has_packaged_hall_among : ℕ → List ℕ → Action (Unit {0})
assert_owner_has_packaged_hall_among owner_id ids = do
  db ← gets (λ d. d)
  raise_unless (is_some (find_first (is_packaged_hall owner_id ids) db.services))
      (HttpError.bad_request "The package must include your own Hall service")

abbrev pub draft_package : ℕ → ℕ → Package
draft_package id owner_id = record { id = id; provider_id = owner_id; status = PackageStatus.draft }

-- The owner's services are in at once, those of the partners wait for their word.
abbrev pub joined : ℕ → ℕ → ℕ → ℕ → Service → PackageService
joined now package_id owner_id id s = record {
  id = id;
  package_id = package_id;
  provider_id = s.provider_id;
  service_id = s.id;
  status =
      if s.provider_id == owner_id
      then PackageServiceStatus.active
      else PackageServiceStatus.pending_provider_approval;
  created_at = now;
}

unfoldable pub joined_from : ℕ → ℕ → ℕ → ℕ → List Service → List PackageService
joined_from now package_id owner_id id [] = []
joined_from now package_id owner_id id (s ∷ services) =
    joined now package_id owner_id id s ∷ joined_from now package_id owner_id (suc id) services

unfoldable pub insert_package : ℕ → ℕ → List Service → Action Package
insert_package now owner_id services = transaction (do
  db ← gets (λ d. d)
  modify (λ d. record d {
    packages = d.packages ++ draft_package d.next_id owner_id ∷ [];
    next_id = suc d.next_id;
  })
  modify (λ d. record d {
    package_services = d.package_services ++ joined_from now db.next_id owner_id d.next_id services;
    next_id = d.next_id + length services;
  })
  pure (draft_package db.next_id owner_id))

abbrev pub partner_services : ℕ → List Service → List Service
partner_services owner_id services = keep (λ s. not (s.provider_id == owner_id)) services

unfoldable pub ask_partners : ℕ → ℕ → List ℕ → Action (Unit {0})
ask_partners user_id package_id provider_ids = do
  db ← gets (λ d. d)
  for_each (keep (λ p. includes provider_ids p.id) db.providers)
      (λ p. emit NoticeKind.package_join_requested user_id p.user_id package_id)

-- The availabilities are the rows of their table, and the ids those of the request.
unfoldable pub create_package : ℕ → List ServiceAvailability → ℕ → List ℕ → Action Package
create_package now availabilities user_id requested_ids = do
  db ← gets (λ d. d)
  provider ← or_raise (provider_of_user db user_id) (HttpError.not_found "Provider not found")
  raise_unless
      (length (named_services db (distinct requested_ids)) == length (distinct requested_ids))
      (HttpError.bad_request "Services not found or not active")
  assert_no_duplicate_service_types
      (map (λ s. s.service_type) (named_services db (distinct requested_ids)))
  assert_owner_has_packaged_hall_among provider.id (distinct requested_ids)
  raise_if (ltb (length (distinct requested_ids)) 2)
      (HttpError.bad_request "A package requires at least 2 services")
  assert_no_duplicate_package_service_set (distinct requested_ids) none
  assert_no_duplicate_package_service_set (distinct requested_ids) none
  assert_common_time_window availabilities (distinct requested_ids)
  created ← insert_package now provider.id (named_services db (distinct requested_ids))
  ask_partners user_id created.id (
      map (λ s. s.provider_id)
        (partner_services provider.id (named_services db (distinct requested_ids))))
  pure created
