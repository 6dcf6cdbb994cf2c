-- ===== src/Refusal/Creation.antt =====
-- A package is created only once every check has passed.
use eventy_backend.Base.{
  ℕ, none, some, Bool, true, false, ◌≡◌, refl, List, Option, String, distinct, nat_eq,
}
use eventy_backend.Model.{
  Db, Service, Provider, Action, Result, ok, err, HttpError, ◌>>=◌, ◌>>◌, gets, or_raise, raise_if,
  raise_unless, provider_of_user, run_handler,
}
use eventy_backend.Packages.Composition.{
  ServiceAvailability, assert_no_duplicate_package_service_set, assert_common_time_window,
  assert_no_duplicate_service_types,
}
use eventy_backend.Packages.Creation.{assert_owner_has_packaged_hall_among, create_package}
use eventy_backend.Packages.Creation.Drafts.{insert_and_ask, insert_and_ask_run}

raise_if_same : (c : Bool) (e : HttpError) (db : Db) → (raise_if c e db).0 ≡ db
unfolding raise_if
raise_if_same true e db = refl
raise_if_same false e db = refl

raise_unless_same : (c : Bool) (e : HttpError) (db : Db) → (raise_unless c e db).0 ≡ db
unfolding raise_unless
raise_unless_same true e db = refl
raise_unless_same false e db = refl

set_same : (ids : List ℕ) (db : Db) → (assert_no_duplicate_package_service_set ids none db).0 ≡ db
unfolding assert_no_duplicate_package_service_set run_handler
set_same ids db =
    raise_if_same _
      (HttpError.bad_request "A package with the exact same set of services already exists") db

hall_same :
    (k : ℕ) (ids : List ℕ) (db : Db) → (assert_owner_has_packaged_hall_among k ids db).0 ≡ db
unfolding assert_owner_has_packaged_hall_among run_handler
hall_same k ids db =
    raise_unless_same _ (HttpError.bad_request "The package must include your own Hall service") db

-- If the handler throws, the database is as before.
Clean : {A : Type 0} → Action A → Db → Type 0
Clean m db = (e : HttpError) → (m db).1 ≡ err e → (m db).0 ≡ db

module _ {A B : Type 0} where
  Clean-result :
      (f : A → Action B) (db after : Db) (r : Result A)
      → after ≡ db
      → ((a : A) → Clean (f a) db)
      → (e : HttpError)
      → (let out : Db × Result B = elim r [ ok a ↦ f a after | err x ↦ (after, err x) ] in out).1
        ≡ err e
      → (let out : Db × Result B = elim r [ ok a ↦ f a after | err x ↦ (after, err x) ] in out).0
        ≡ db
  unfolding Clean
  Clean-result f db after (ok a) same h e c = rw same (h a e (rw same at c))
  Clean-result f db after (err x) same h e c = same

  -- A step that leaves the database, then the rest.
  Clean-guard :
      (m : Action A) (f : A → Action B) (db : Db)
      → (m db).0 ≡ db
      → ((a : A) → Clean (f a) db)
      → Clean (m >>= f) db
  unfolding Clean run_handler
  Clean-guard m f db same h e c = Clean-result f db (m db).0 (m db).1 same h e c

  Clean-read :
      (g : Db → A) (f : A → Action B) (db : Db) → Clean (f (g db)) db → Clean (gets g >>= f) db
  unfolding Clean run_handler
  Clean-read g f db h = h

  Clean-then :
      (m : Action A) (k : Action B) (db : Db) → (m db).0 ≡ db → Clean k db → Clean (m >> k) db
  unfolding Clean run_handler
  Clean-then m k db same h e c = Clean-result (λ _. k) db (m db).0 (m db).1 same (λ _. h) e c

found_same : {A : Type 0} (o : Option A) (e : HttpError) (db : Db) → (or_raise o e db).0 ≡ db
unfolding or_raise
found_same none e db = refl
found_same (some a) e db = refl

types_same : (names : List String) (db : Db) → (assert_no_duplicate_service_types names db).0 ≡ db
unfolding assert_no_duplicate_service_types
types_same names db = raise_if_same _ _ db

day_same :
    (rows : List ServiceAvailability) (ids : List ℕ) (db : Db)
    → (assert_common_time_window rows ids db).0 ≡ db
unfolding assert_common_time_window
day_same rows ids db = raise_if_same _ _ db

-- Nothing is refused once the checks have passed.
store_returns :
    (now u : ℕ) (owner : Provider) (services : List Service) (db : Db)
    → Clean (insert_and_ask now u owner services) db
unfolding Clean
store_returns now u owner services db e c =
    let out = insert_and_ask_run now u owner services db in cc

create_package-Clean :
    (now : ℕ) (rows : List ServiceAvailability) (u : ℕ) (requested : List ℕ) (db : Db)
    → Clean (create_package now rows u requested) db
unfolding create_package
create_package-Clean now rows u requested db =
    Clean-read (λ d. d) _ db
      (Clean-guard _ _ db (found_same (provider_of_user db u) _ db) λ owner.
        Clean-then _ _ db (raise_unless_same _ _ db) (
          Clean-then _ _ db (types_same _ db) (
            Clean-then _ _ db (hall_same owner.id (distinct requested) db) (
              Clean-then _ _ db (raise_if_same _ _ db) (
                Clean-then _ _ db (set_same (distinct requested) db) (
                  Clean-then _ _ db (set_same (distinct requested) db) (
                    Clean-then _ _ db (day_same rows (distinct requested) db)
                      (store_returns now u owner _ db))))))))

-- A creation that throws, whatever the exception, leaves the database as it was.
pub create_package_refused :
    (now : ℕ) (rows : List ServiceAvailability) (u : ℕ) (requested : List ℕ) (db : Db)
    (e : HttpError)
    → (create_package now rows u requested db).1 ≡ err e
    → (create_package now rows u requested db).0 ≡ db
unfolding Clean
create_package_refused now rows u requested db = create_package-Clean now rows u requested db
