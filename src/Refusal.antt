-- ===== src/Refusal.antt =====
-- What a refused request leaves behind: a handler that throws one of Nest's exceptions, or meets a unique
-- index, has not written yet. An error that is answered by status 500 may come later.
pub mod Bookings
pub mod Bulk
pub mod Packages
pub mod Partners
pub mod Creation
pub mod Rows
pub mod Payments
pub mod Discounts
pub mod Requests
use eventy_backend.Base.{ℕ, ◌≡◌, refl, Bool, true, false, Option, none, some, List, [], ◌∷◌}
use eventy_backend.Model.{
  Db, Action, HttpError, is_refusal, Result, ok, err, NoticeKind, run_handler, gets, ◌>>=◌, ◌>>◌,
  pure, raise, or_raise, raise_if, raise_unless, modify, when, transaction, for_each, emit,
}

-- If the handler throws a refusal, the database is as before.
unfoldable pub Harmless : {A : Type 0} → Action A → Db → Type 0
Harmless m db = (e : HttpError) → (m db).1 ≡ err e → is_refusal e ≡ true → (m db).0 ≡ db

-- The handler throws no refusal.
unfoldable pub Settled : {A : Type 0} → Action A → Type 0
Settled m = (db : Db) (e : HttpError) → (m db).1 ≡ err e → is_refusal e ≡ false

module _ {A B : Type 0} where
  guard_result :
      (f : A → Action B) (db after : Db) (r : Result A)
      → after ≡ db
      → ((a : A) → Harmless (f a) db)
      → (e : HttpError)
      → (let out : Db × Result B = elim r [ ok a ↦ f a after | err x ↦ (after, err x) ] in out).1
        ≡ err e
      → is_refusal e ≡ true
      → (let out : Db × Result B = elim r [ ok a ↦ f a after | err x ↦ (after, err x) ] in out).0
        ≡ db
  unfolding Harmless
  guard_result f db after (ok a) same h e c ne = rw same (h a e (rw same at c) ne)
  guard_result f db after (err x) same h e c ne = same

  -- A step that only reads, then the rest.
  pub Harmless-guard :
      (m : Action A) (f : A → Action B) (db : Db)
      → (m db).0 ≡ db
      → ((a : A) → Harmless (f a) db)
      → Harmless (m >>= f) db
  unfolding Harmless run_handler
  Harmless-guard m f db same h e c ne = guard_result f db (m db).0 (m db).1 same h e c ne

  -- The same, for a step whose result is not used.
  pub Harmless-passed :
      (m : Action A) (k : Action B) (db : Db) → (m db).0 ≡ db → Harmless k db → Harmless (m >> k) db
  unfolding Harmless run_handler
  Harmless-passed m k db same h e c ne =
      guard_result (λ _. k) db (m db).0 (m db).1 same (λ _. h) e c ne

  pub Harmless-read :
      (g : Db → A) (f : A → Action B) (db : Db)
      → Harmless (f (g db)) db
      → Harmless (gets g >>= f) db
  unfolding Harmless run_handler
  Harmless-read g f db h = h

  pub Harmless-lookup :
      (o : Option A) (e : HttpError) (f : A → Action B) (db : Db)
      → ((a : A) → Harmless (f a) db)
      → Harmless (or_raise o e >>= f) db
  unfolding Harmless run_handler
  Harmless-lookup none e f db h x c ne = refl
  Harmless-lookup (some a) e f db h x c ne = h a x c ne

  Settled-result :
      (f : A → Action B) (after : Db) (r : Result A)
      → ((e : HttpError) → r ≡ err e → is_refusal e ≡ false)
      → ((a : A) → Settled (f a))
      → (e : HttpError)
      → (let out : Db × Result B = elim r [ ok a ↦ f a after | err x ↦ (after, err x) ] in out).1
        ≡ err e
      → is_refusal e ≡ false
  unfolding Settled
  Settled-result f after (ok a) h k e c = k a after e c
  Settled-result f after (err x) h k e c = h e (cc)

  pub Settled-bind :
      (m : Action A) (f : A → Action B) → Settled m → ((a : A) → Settled (f a)) → Settled (m >>= f)
  unfolding Settled run_handler
  Settled-bind m f h k db e c = Settled-result f (m db).0 (m db).1 (h db) k e c

  pub Settled-then : (m : Action A) (k : Action B) → Settled m → Settled k → Settled (m >> k)
  unfolding Settled run_handler
  Settled-then m k h j db e c = Settled-result (λ _. k) (m db).0 (m db).1 (h db) (λ _. j) e c

module _ {A : Type 0} where
  -- Once the checks are passed, nothing is refused.
  pub Harmless-rest : (m : Action A) (db : Db) → Settled m → Harmless m db
  unfolding Harmless Settled
  Harmless-rest m db h e c ne = let late : is_refusal e ≡ false = h db e c in cc

  pub Settled-pure : (a : A) → Settled (pure a)
  unfolding Settled run_handler
  Settled-pure a db e c = cc

  pub Settled-gets : (g : Db → A) → Settled (gets g)
  unfolding Settled run_handler
  Settled-gets g db e c = cc

  pub Settled-lookup : (o : Option A) → Settled (or_raise o HttpError.type_error)
  unfolding Settled run_handler
  Settled-lookup none db e c = cc
  Settled-lookup (some a) db e c = cc

  pub Settled-query : (o : Option A) → Settled (or_raise o HttpError.query_error)
  unfolding Settled run_handler
  Settled-query none db e c = cc
  Settled-query (some a) db e c = cc

  transaction_result :
      (db after : Db) (r : Result A)
      → ((e : HttpError) → r ≡ err e → is_refusal e ≡ false)
      → (e : HttpError)
      → (let out : Db × Result A = elim r [ ok a ↦ (after, ok a) | err x ↦ (db, err x) ] in out).1
        ≡ err e
      → is_refusal e ≡ false
  transaction_result db after (ok a) h e c = cc
  transaction_result db after (err x) h e c = h e (cc)

  pub Settled-transaction : (m : Action A) → Settled m → Settled (transaction m)
  unfolding Settled run_handler
  Settled-transaction m h db e c = transaction_result db (m db).0 (m db).1 (h db) e c

  pub Settled-for_each :
      (f : A → Action (Unit {0}))
      → ((a : A) → Settled (f a))
      → (xs : List A) → Settled (for_each xs f)
  unfolding Settled run_handler
  Settled-for_each f h [] db e c = cc
  Settled-for_each f h (x ∷ xs) db e c =
      Settled-result (λ _. for_each xs f) (f x db).0 (f x db).1 (h x db)
        (λ _. Settled-for_each f h xs) e c

  pub Harmless-check :
      (c : Bool) (e : HttpError) (m : Action A) (db : Db)
      → Harmless m db
      → Harmless (raise_unless c e >> m) db
  unfolding Harmless run_handler
  Harmless-check true e m db h x c ne = h x c ne
  Harmless-check false e m db h x c ne = refl

  pub Harmless-refusal :
      (c : Bool) (e : HttpError) (m : Action A) (db : Db)
      → Harmless m db
      → Harmless (raise_if c e >> m) db
  unfolding Harmless run_handler
  Harmless-refusal true e m db h x c ne = refl
  Harmless-refusal false e m db h x c ne = h x c ne

  pub Harmless-write :
      (f : Db → Db) (m : Action A) (db : Db) → Settled m → Harmless (modify f >> m) db
  unfolding Harmless Settled run_handler
  Harmless-write f m db h e c ne = let late : is_refusal e ≡ false = h (f db) e c in cc

pub Settled-raise : (A : Type 0) → Settled (raise {A = A} HttpError.query_error)
unfolding Settled run_handler
Settled-raise A db e c = cc

pub Settled-modify : (f : Db → Db) → Settled (modify f)
unfolding Settled run_handler
Settled-modify f db e c = cc

pub Settled-emit :
    (kind : NoticeKind) (actor target entity : ℕ) → Settled (emit kind actor target entity)
unfolding Settled run_handler
Settled-emit kind actor target entity db e c = cc

pub Settled-when : (c : Bool) (m : Action (Unit {0})) → Settled m → Settled (when c m)
unfolding Settled run_handler
Settled-when true m h db e c = h db e c
Settled-when false m h db e c = cc

module _ {A B : Type 0} where
  rolled_back :
      (f : A → Action B) (db after : Db) (r : Result A)
      → ((a : A) → Settled (f a))
      → (e : HttpError)
      → (let (d, q) : Db × Result A = elim r [ ok a ↦ (after, ok a) | err x ↦ (db, err x) ] in
          let out : Db × Result B = elim q [ ok a ↦ f a d | err x ↦ (d, err x) ] in out).1
        ≡ err e
      → is_refusal e ≡ true
      → (let (d, q) : Db × Result A = elim r [ ok a ↦ (after, ok a) | err x ↦ (db, err x) ] in
          let out : Db × Result B = elim q [ ok a ↦ f a d | err x ↦ (d, err x) ] in out).0
        ≡ db
  unfolding Settled
  rolled_back f db after (ok a) h e c ne = let late : is_refusal e ≡ false = h a after e c in cc
  rolled_back f db after (err x) h e c ne = refl

  -- A transaction that throws is rolled back, and what stands after it refuses nothing.
  pub Harmless-transaction :
      (m : Action A) (f : A → Action B) (db : Db)
      → ((a : A) → Settled (f a))
      → Harmless (transaction m >>= f) db
  unfolding Harmless run_handler
  Harmless-transaction m f db h e c ne = rolled_back f db (m db).0 (m db).1 h e c ne

  pub Harmless-then_transaction :
      (m : Action A) (k : Action B) (db : Db) → Settled k → Harmless (transaction m >> k) db
  unfolding Harmless run_handler
  Harmless-then_transaction m k db h e c ne =
      rolled_back (λ _. k) db (m db).0 (m db).1 (λ _. h) e c ne
