-- ===== src/Packages/Composition.antt =====
-- src/modules/packages/packages.service.ts: what is asked of the services that a provider puts together in
-- a package.
mod Sorting
pub mod Repeats
pub mod Days
pub mod Names
use eventy_backend.Base.{
  ℕ, Bool, true, false, not, ◌&&◌, Option, List, [], ◌∷◌, ◌++◌, map, String, string_eq, ◌==◌,
  nat_eq, includes, if◌then◌else◌, all, any, keep, length, leb,
}
use eventy_backend.Model.{
  DayOfWeek, day_of_week_eq, PackageStatus, package_status_eq, Db, Package, Action, HttpError,
  ◌>>=◌, gets, raise_if, is_id,
}
use eventy_backend.Bookings.{is_empty}

-- `sort()`: ids stand in the order of their numbers.
unfoldable pub insert : ℕ → List ℕ → List ℕ
insert a [] = a ∷ []
insert a (x ∷ xs) = let rest = insert a xs in if leb a x then a ∷ x ∷ xs else x ∷ rest

unfoldable pub sort : List ℕ → List ℕ
sort [] = []
sort (x ∷ xs) = insert x (sort xs)

-- `existingIds.every((id, i) => id === sortedIds[i])`; past the end there is no id.
unfoldable pub match_ids : List ℕ → List ℕ → Bool
match_ids [] ys = true
match_ids (x ∷ xs) [] = false
match_ids (x ∷ xs) (y ∷ ys) = x == y && match_ids xs ys

abbrev pub services_of : Db → Package → List ℕ
services_of db p = map (λ s. s.service_id) (keep (λ s. s.package_id == p.id) db.package_services)

-- The packages that the query reads: not cancelled, not the one that is changed, with a service in common.
abbrev pub is_candidate : Db → List ℕ → Option ℕ → Package → Bool
is_candidate db ids exclude p =
    not (p.status == PackageStatus.cancelled)
    && (not (is_id exclude p.id) && any (includes ids) (services_of db p))

unfoldable pub has_same_services : Db → List ℕ → Package → Bool
has_same_services db ids p =
    length (sort (services_of db p)) == length (sort ids)
    && match_ids (sort (services_of db p)) (sort ids)

unfoldable pub assert_no_duplicate_package_service_set : List ℕ → Option ℕ → Action (Unit {0})
assert_no_duplicate_package_service_set ids exclude = do
  db ← gets (λ d. d)
  raise_if (any (has_same_services db ids) (keep (is_candidate db ids exclude) db.packages))
      (HttpError.bad_request "A package with the exact same set of services already exists")

-- The days on which a service works, of one of its availabilities.
pub record ServiceAvailability : Type 0 where
  pub service_id : ℕ
  pub working_days : List DayOfWeek

-- The map from services to days. A service that is not in it has the empty set.
abbrev pub DayScope : Type 0
DayScope = ℕ → List DayOfWeek

abbrev pub add_days : ServiceAvailability → DayScope → DayScope
add_days a scope k = if a.service_id == k then scope k ++ a.working_days else scope k

unfoldable pub day_scope : List ServiceAvailability → DayScope → DayScope
day_scope [] scope = scope
day_scope (a ∷ rest) scope = day_scope rest (add_days a scope)

unfoldable pub common_days : DayScope → List ℕ → List DayOfWeek
common_days scope [] = []
common_days scope (k ∷ ks) = keep (λ day. all (λ j. includes (scope j) day) (k ∷ ks)) (scope k)

-- The availabilities are the rows of the table.
unfoldable pub assert_common_time_window : List ServiceAvailability → List ℕ → Action (Unit {0})
assert_common_time_window availabilities ids =
    raise_if
      (is_empty (
        common_days (day_scope (keep (λ a. includes ids a.service_id) availabilities) (λ _. []))
          ids))
      (HttpError.bad_request "The selected services have no common available day/time window")

-- The sets of the names seen, and of those seen again.
unfoldable pub repeated_types : List String → List String → List String → List String
repeated_types seen duplicates [] = duplicates
repeated_types seen duplicates (name ∷ names) =
    repeated_types (name ∷ seen) (if includes seen name then name ∷ duplicates else duplicates)
      names

-- The argument is the names of the services' types.
unfoldable pub assert_no_duplicate_service_types : List String → Action (Unit {0})
assert_no_duplicate_service_types names =
    raise_if (not (is_empty (repeated_types [] [] names)))
      (HttpError.bad_request "A package cannot contain more than one service of the same type")
