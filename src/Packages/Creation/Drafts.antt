-- ===== src/Packages/Creation/Drafts.antt =====
-- What a package that was created has passed, and what the tables hold of it.
use mathlib.Core.Path.{subst}
use eventy_backend.Base.{
  ◌≢◌, ℕ, suc, ◌+◌, ◌≤◌, ◌≡◌, refl, sym, ◌∙◌, ap, arith, Bool, true, false, none, some, List, [],
  ◌∷◌, ◌++◌, map, String, string_eq, nat_eq, includes, is_some, All, any, keep, length, distinct,
}
use eventy_backend.Model.{
  PackageService, PackageStatus, PackageServiceStatus, Db, Service, Provider, Package, NoticeKind,
  Action, HttpError, ◌>>=◌, ◌>>◌, Result, ok, err, pure, raise_if, for_each, emit, find_first,
  provider_of_user, run_handler,
}
use eventy_backend.Success.{
  Ensures, Ensures-read, Ensures-lookup, Ensures-check, Ensures-refusal, emits_pure,
}
use eventy_backend.Packages.Composition.{
  ServiceAvailability, is_candidate, has_same_services, assert_no_duplicate_package_service_set,
  assert_common_time_window, assert_no_duplicate_service_types,
}
use eventy_backend.Packages.Composition.Repeats.{
  IsRepeated, assert_no_duplicate_package_service_set_lem,
}
use eventy_backend.Packages.Composition.Days.{HasCommonDay, assert_common_time_window_lem}
use eventy_backend.Packages.Composition.Names.{NoRepeats, assert_no_duplicate_service_types_lem}
use eventy_backend.Packages.Creation.{
  named_services, is_packaged_hall, assert_owner_has_packaged_hall_among, draft_package,
  joined_from, insert_package, partner_services, ask_partners, create_package,
}

-- The checks that the services have passed.
pub record IsComposed (db : Db) (rows : List ServiceAvailability) (owner : Provider) (ids : List ℕ)
    : Type 0 where
  pub all_found : length (named_services db ids) ≡ length ids
  pub types_differ : NoRepeats (map (λ s. s.service_type) (named_services db ids))
  pub has_hall : is_some (find_first (is_packaged_hall owner.id ids) db.services) ≡ true
  pub enough : 2 ≤ length ids
  pub is_new : All (λ p. ¬ IsRepeated db ids none p) db.packages
  pub common_day : HasCommonDay rows ids

-- What stands after a step, from the outcome of the step.
go_on : {B : Type 0} → Action B → Db × Result (Unit {0}) → Db × Result B
go_on k (after, ok _) = k after
go_on k (after, err e) = (after, err e)

then_go_on :
    {B : Type 0} (k : Action B) (db : Db) (m : Action (Unit {0})) → (m >> k) db ≡ go_on k (m db)
unfolding go_on run_handler
then_go_on k db m = same (m db).0 (m db).1
  where
    same :
        (after : Db) (r : Result (Unit {0}))
        → (let out : Db × Result _ = elim r [ ok _ ↦ k after | err e ↦ (after, err e) ] in out)
          ≡ go_on k (after, r)
    same after (ok a) = refl
    same after (err e) = refl

-- A step that only tests, and what it has shown where it passes.
Ensures-test :
    {B : Type 0} (Q : B → Db → Type 0) (m : Action (Unit {0})) (c : Bool) (e : HttpError)
    (k : Action B) (db : Db)
    → m db ≡ raise_if c e db
    → (m db ≡ (db, ok tt) → Ensures Q k db)
    → Ensures Q (m >> k) db
unfolding Ensures go_on raise_if
Ensures-test Q m true e k db same h b c =
    let out : (m >> k) db ≡ (db, err e) = then_go_on k db m ∙ ap (go_on k) same in cc
Ensures-test Q m false e k db same h b c =
    let out : (m >> k) db ≡ k db = then_go_on k db m ∙ ap (go_on k) same in
    subst (λ o. Q b o.0) (sym out) (h same b (sym (ap (λ o. o.1) out) ∙ c))

asks_keep :
    (u k : ℕ) (ps : List Provider) (db : Db)
    → ((for_each ps (λ p. emit NoticeKind.package_join_requested u p.user_id k) db).0.packages
        ≡ db.packages)
      × ((for_each ps
            (λ p. emit NoticeKind.package_join_requested u p.user_id k)
            db).0.package_services
          ≡ db.package_services)
unfolding run_handler
asks_keep u k [] db = (refl, refl)
asks_keep u k (p ∷ ps) db =
    asks_keep u k ps (emit NoticeKind.package_join_requested u p.user_id k db).0

-- The row of a service in the package: the owner's is in, a partner's waits for its provider's word.
pub record IsMember (package_id owner_id : ℕ) (r : PackageService) : Type 0 where
  pub of_package : r.package_id ≡ package_id
  pub own : r.provider_id ≡ owner_id → r.status ≡ PackageServiceStatus.active
  pub partner : r.provider_id ≢ owner_id → r.status ≡ PackageServiceStatus.pending_provider_approval

-- A new draft of the owner, with one new row for each of the services.
pub record IsCreated (now u : ℕ) (rows : List ServiceAvailability) (ids : List ℕ) (db : Db)
    (p : Package) (after : Db) : Type 0 where
  pub owner : Provider
  pub is_owner : provider_of_user db u ≡ some owner
  pub composed : IsComposed db rows owner ids
  pub fresh_id : p.id ≡ db.next_id
  pub own_package : p.provider_id ≡ owner.id
  pub is_draft : p.status ≡ PackageStatus.draft
  pub stored : after.packages ≡ db.packages ++ p ∷ []
  pub added : List PackageService
  pub added_last : after.package_services ≡ db.package_services ++ added
  pub added_services : map (λ r. r.service_id) added ≡ map (λ s. s.id) (named_services db ids)
  pub added_providers :
      map (λ r. r.provider_id) added ≡ map (λ s. s.provider_id) (named_services db ids)
  pub members : All (IsMember p.id owner.id) added

joined-IsMember :
    (now k owner id : ℕ) (services : List Service)
    → All (IsMember k owner) (joined_from now k owner id services)
unfolding joined_from
joined-IsMember now k owner id [] = tt
joined-IsMember now k owner id (s ∷ services) = (
  record { of_package = refl; own = λ e. ground (arith, e); partner = λ e. ground (arith, e) },
  joined-IsMember now k owner (suc id) services,
)

joined_services :
    (now k owner id : ℕ) (services : List Service)
    → (map (λ r. r.service_id) (joined_from now k owner id services) ≡ map (λ s. s.id) services)
      × (map (λ r. r.provider_id) (joined_from now k owner id services)
          ≡ map (λ s. s.provider_id) services)
unfolding joined_from
joined_services now k owner id [] = (refl, refl)
joined_services now k owner id (s ∷ services) =
    let (a, b) = joined_services now k owner (suc id) services in
    (ap (λ rest. s.id ∷ rest) a, ap (λ rest. s.provider_id ∷ rest) b)

module _ {B : Type 0} (Q : B → Db → Type 0) (k : Action B) (db : Db) where
  Ensures-types :
      (names : List String)
      → (NoRepeats names → Ensures Q k db)
      → Ensures Q (assert_no_duplicate_service_types names >> k) db
  unfolding assert_no_duplicate_service_types
  Ensures-types names h =
      Ensures-test Q _ _ _ k db refl λ e. h ((assert_no_duplicate_service_types_lem names db).0 e)

  Ensures-hall :
      (owner_id : ℕ) (ids : List ℕ)
      → (is_some (find_first (is_packaged_hall owner_id ids) db.services) ≡ true → Ensures Q k db)
      → Ensures Q (assert_owner_has_packaged_hall_among owner_id ids >> k) db
  unfolding assert_owner_has_packaged_hall_among run_handler Ensures
  Ensures-hall owner_id ids h = Ensures-check Q _ _ k db h

  Ensures-set :
      (ids : List ℕ)
      → (All (λ p. ¬ IsRepeated db ids none p) db.packages → Ensures Q k db)
      → Ensures Q (assert_no_duplicate_package_service_set ids none >> k) db
  unfolding assert_no_duplicate_package_service_set run_handler
  Ensures-set ids h =
      Ensures-test Q (assert_no_duplicate_package_service_set ids none)
        (any (has_same_services db ids) (keep (is_candidate db ids none) db.packages))
        (HttpError.bad_request "A package with the exact same set of services already exists") k db
        refl λ e. h ((assert_no_duplicate_package_service_set_lem ids none db).0 e)

  Ensures-day :
      (rows : List ServiceAvailability) (ids : List ℕ)
      → (HasCommonDay rows ids → Ensures Q k db)
      → Ensures Q (assert_common_time_window rows ids >> k) db
  unfolding assert_common_time_window
  Ensures-day rows ids h =
      Ensures-test Q _ _ _ k db refl λ e. h ((assert_common_time_window_lem rows ids db).0 e)

abbrev pub asked : Provider → List Service → Db → List Provider
asked owner services db =
    keep (λ p. includes (map (λ s. s.provider_id) (partner_services owner.id services)) p.id)
      db.providers

abbrev pub ask_all : ℕ → ℕ → Provider → List Service → Db → Action (Unit {0})
ask_all u k owner services db =
    for_each (asked owner services db) (λ p. emit NoticeKind.package_join_requested u p.user_id k)

abbrev pub with_package : ℕ → Provider → List Service → Db → Db
with_package now owner services db = record db {
  packages = db.packages ++ draft_package db.next_id owner.id ∷ [];
  package_services =
      db.package_services ++ joined_from now db.next_id owner.id (suc db.next_id) services;
  next_id = suc db.next_id + length services;
}

abbrev pub insert_and_ask : ℕ → ℕ → Provider → List Service → Action Package
insert_and_ask now u owner services = do
  created ← insert_package now owner.id services
  ask_partners u created.id (map (λ s. s.provider_id) (partner_services owner.id services))
  pure created

pub insert_and_ask_run :
    (now u : ℕ) (owner : Provider) (services : List Service) (db : Db)
    → insert_and_ask now u owner services db ≡ (
      (ask_all u db.next_id owner services db (with_package now owner services db)).0,
      ok (draft_package db.next_id owner.id),
    )
unfolding insert_package ask_partners run_handler
insert_and_ask_run now u owner services db =
    emits_pure NoticeKind.package_join_requested (λ _. u) (λ (p : Provider). p.user_id)
      (λ _. db.next_id) (asked owner services db) (with_package now owner services db)
      (draft_package db.next_id owner.id)

stored_package :
    (now u : ℕ) (rows : List ServiceAvailability) (ids : List ℕ) (db : Db) (owner : Provider)
    → provider_of_user db u ≡ some owner
    → IsComposed db rows owner ids
    → Ensures (IsCreated now u rows ids db) (insert_and_ask now u owner (named_services db ids)) db
unfolding Ensures
stored_package now u rows ids db owner is_owner composed p e =
    let out = insert_and_ask_run now u owner (named_services db ids) db in
    let services = named_services db ids in
    let draft : p ≡ draft_package db.next_id owner.id = cc in
    let kept = asks_keep u db.next_id _ (with_package now owner services db) in
    record {
      owner = owner;
      is_owner = is_owner;
      composed = composed;
      fresh_id = ap (λ x. x.id) draft;
      own_package = ap (λ x. x.provider_id) draft;
      is_draft = ap (λ x. x.status) draft;
      stored = ap (λ o. o.0.packages) out ∙ kept.0 ∙ ap (λ x. db.packages ++ x ∷ []) (sym draft);
      added = joined_from now db.next_id owner.id (suc db.next_id) services;
      added_last = ap (λ o. o.0.package_services) out ∙ kept.1;
      added_services = (joined_services now db.next_id owner.id (suc db.next_id) services).0;
      added_providers = (joined_services now db.next_id owner.id (suc db.next_id) services).1;
      members =
          subst
            (λ x.
              All (IsMember x.id owner.id)
                (joined_from now db.next_id owner.id (suc db.next_id) services))
            (sym draft) (joined-IsMember now db.next_id owner.id (suc db.next_id) services);
    }

create_package-Ensures :
    (now : ℕ) (rows : List ServiceAvailability) (u : ℕ) (requested : List ℕ) (db : Db)
    → Ensures
        (IsCreated now u rows (distinct requested) db)
        (create_package now rows u requested)
        db
unfolding create_package
create_package-Ensures now rows u requested db =
    Ensures-read _ (λ d. d) _ db
      (Ensures-lookup _ (provider_of_user db u) _ _ db λ owner is_owner.
        Ensures-check _ _ _ _ db λ found. Ensures-types _ _ db _ λ types.
          Ensures-hall _ _ db owner.id (distinct requested) λ hall.
            Ensures-refusal _ _ _ _ db λ enough. Ensures-set _ _ db (distinct requested) λ fresh.
              Ensures-set _ _ db (distinct requested) λ _.
                Ensures-day _ _ db rows (distinct requested) λ day.
                  stored_package now u rows (distinct requested) db owner is_owner (record {
                    all_found = (nat_eq.beq_iff _ _).0 found;
                    types_differ = types;
                    has_hall = hall;
                    enough = ground (arith, enough);
                    is_new = fresh;
                    common_day = day;
                  }))

-- If a package is created, the caller is a provider, the services, each taken once, are at least two, found
-- and active, all of different types, with a packaged hall of the caller's among them and a working day in
-- common, and they were not those of a package in force. The package is a new one of the caller with the
-- status DRAFT, and each service has one new row in it: ACTIVE if the service is the caller's,
-- PENDING_PROVIDER_APPROVAL if it is another provider's.
pub create_package_lem :
    (now : ℕ) (rows : List ServiceAvailability) (u : ℕ) (requested : List ℕ) (db : Db) (p : Package)
    → (create_package now rows u requested db).1 ≡ ok p
    → IsCreated now u rows (distinct requested) db p (create_package now rows u requested db).0
unfolding Ensures
create_package_lem now rows u requested db p e = create_package-Ensures now rows u requested db p e
