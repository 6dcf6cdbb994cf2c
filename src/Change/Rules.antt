-- ===== src/Change/Rules.antt =====
-- How a handler's steps add up: one rule for each form that stands before the rest of a do block.
use eventy_backend.Base.{◌≡◌, refl, Bool, true, false, Option, none, some, List, [], ◌∷◌, ℕ}
use eventy_backend.Model.{
  Db, Action, HttpError, Result, ok, err, NoticeKind, run_handler, gets, ◌>>=◌, ◌>>◌, pure, raise,
  or_raise, raise_if, raise_unless, modify, when, transaction, for_each, emit,
}
use eventy_backend.Change.{Lawful, Sound}
use eventy_backend.Change.Tables.{Lawful-refl, Lawful-trans, set_notices}

-- The handler, started at this database, changes it lawfully, whether it returns or throws.
unfoldable pub LawfulAt : {A : Type 0} → Action A → Db → Type 0
LawfulAt m db = Lawful db (m db).0

module _ {A B : Type 0} where
  bind_result :
      (f : A → Action B) (db after : Db) (r : Result A)
      → Lawful db after
      → ((a : A) → LawfulAt (f a) after)
      → Lawful db
          (let out : Db × Result B = elim r [ ok a ↦ f a after | err e ↦ (after, err e) ] in out).0
  unfolding LawfulAt run_handler
  bind_result f db after (ok a) h k = Lawful-trans db after (f a after).0 h (k a)
  bind_result f db after (err e) h k = h

  -- Any step, then the rest at whatever it returns.
  pub after_step :
      (m : Action A) (f : A → Action B) (db : Db)
      → LawfulAt m db
      → ((a : A) → LawfulAt (f a) (m db).0)
      → LawfulAt (m >>= f) db
  unfolding LawfulAt run_handler
  after_step m f db h k = bind_result f db (m db).0 (m db).1 h k

  pub then_step :
      (m : Action A) (k : Action B) (db : Db)
      → LawfulAt m db
      → LawfulAt k (m db).0
      → LawfulAt (m >> k) db
  unfolding LawfulAt run_handler
  then_step m k db h j = bind_result (λ _. k) db (m db).0 (m db).1 h (λ _. j)

  -- A step that only checks.
  pub then_guard :
      (m : Action A) (k : Action B) (db : Db) → (m db).0 ≡ db → LawfulAt k db → LawfulAt (m >> k) db
  unfolding LawfulAt run_handler
  then_guard m k db same h =
      bind_result (λ _. k) db (m db).0 (m db).1 (rw same (Lawful-refl db)) (λ _. rw same h)

  passed_result :
      (k : Action B) (db after : Db) (r : Result A)
      → Lawful db after
      → ((a : A) → r ≡ ok a → LawfulAt k after)
      → Lawful db
          (let out : Db × Result B = elim r [ ok a ↦ k after | err e ↦ (after, err e) ] in out).0
  unfolding LawfulAt run_handler
  passed_result k db after (ok a) h j = Lawful-trans db after (k after).0 h (j a refl)
  passed_result k db after (err e) h j = h

  -- A step that only reads.
  pub after_guard :
      (m : Action A) (f : A → Action B) (db : Db)
      → (m db).0 ≡ db
      → ((a : A) → LawfulAt (f a) db)
      → LawfulAt (m >>= f) db
  unfolding LawfulAt run_handler
  after_guard m f db same h =
      bind_result f db (m db).0 (m db).1 (rw same (Lawful-refl db)) (λ a. rw same (h a))

  -- A check whose success is used by the rest.
  pub then_passed :
      (m : Action A) (k : Action B) (db : Db)
      → (m db).0 ≡ db
      → ((a : A) → (m db).1 ≡ ok a → LawfulAt k db)
      → LawfulAt (m >> k) db
  unfolding LawfulAt run_handler
  then_passed m k db same h =
      passed_result k db (m db).0 (m db).1 (rw same (Lawful-refl db)) (λ a e. rw same (h a e))

  -- `if (!x) throw …`, where `x` is not used again
  pub then_lookup :
      (o : Option A) (e : HttpError) (k : Action B) (db : Db)
      → LawfulAt k db
      → LawfulAt (or_raise o e >> k) db
  unfolding LawfulAt run_handler
  then_lookup none e k db h = Lawful-refl db
  then_lookup (some a) e k db h = h

  -- `const x = …`
  pub after_read :
      (g : Db → A) (f : A → Action B) (db : Db)
      → LawfulAt (f (g db)) db
      → LawfulAt (gets g >>= f) db
  unfolding LawfulAt run_handler
  after_read g f db h = h

  -- `const x = …; if (!x) throw …`
  pub after_lookup :
      (o : Option A) (e : HttpError) (f : A → Action B) (db : Db)
      → ((a : A) → o ≡ some a → LawfulAt (f a) db)
      → LawfulAt (or_raise o e >>= f) db
  unfolding LawfulAt run_handler
  after_lookup none e f db h = Lawful-refl db
  after_lookup (some a) e f db h = h a refl

module _ {B : Type 0} where
  -- `if (!c) throw …`
  pub after_check :
      (c : Bool) (e : HttpError) (m : Action B) (db : Db)
      → (c ≡ true → LawfulAt m db)
      → LawfulAt (raise_unless c e >> m) db
  unfolding LawfulAt run_handler
  after_check true e m db h = h refl
  after_check false e m db h = Lawful-refl db

  -- `if (c) throw …`
  pub after_refusal :
      (c : Bool) (e : HttpError) (m : Action B) (db : Db)
      → (c ≡ false → LawfulAt m db)
      → LawfulAt (raise_if c e >> m) db
  unfolding LawfulAt run_handler
  after_refusal true e m db h = Lawful-refl db
  after_refusal false e m db h = h refl

  pub after_write :
      (f : Db → Db) (m : Action B) (db : Db)
      → Lawful db (f db)
      → LawfulAt m (f db)
      → LawfulAt (modify f >> m) db
  unfolding LawfulAt run_handler
  after_write f m db h k = Lawful-trans db (f db) (m (f db)).0 h k

pub lawful_when :
    (c : Bool) (m : Action (Unit {0})) (db : Db)
    → (c ≡ true → LawfulAt m db)
    → LawfulAt (when c m) db
unfolding LawfulAt run_handler
lawful_when true m db h = h refl
lawful_when false m db h = Lawful-refl db

pub lawful_emit :
    (kind : NoticeKind) (actor target entity : ℕ) (db : Db)
    → LawfulAt (emit kind actor target entity) db
unfolding LawfulAt run_handler
lawful_emit kind actor target entity db = set_notices db _

module _ {A : Type 0} where
  transaction_result :
      (db after : Db) (r : Result A)
      → Lawful db after
      → Lawful db
          (let out : Db × Result A = elim r [ ok a ↦ (after, ok a) | err e ↦ (db, err e) ] in out).0
  unfolding LawfulAt run_handler
  transaction_result db after (ok a) h = h
  transaction_result db after (err e) h = Lawful-refl db

  pub lawful_transaction : (m : Action A) (db : Db) → LawfulAt m db → LawfulAt (transaction m) db
  unfolding LawfulAt run_handler
  lawful_transaction m db h = transaction_result db (m db).0 (m db).1 h

  pub lawful_for_each :
      (f : A → Action (Unit {0}))
      → ((a : A) (db : Db) → LawfulAt (f a) db)
      → (xs : List A) (db : Db) → LawfulAt (for_each xs f) db
  unfolding LawfulAt run_handler
  lawful_for_each f h [] db = Lawful-refl db
  lawful_for_each f h (x ∷ xs) db =
      bind_result (λ _. for_each xs f) db (f x db).0 (f x db).1 (h x db)
        (λ _. lawful_for_each f h xs (f x db).0)

  -- A loop whose rounds need a fact about the elements that are left.
  pub lawful_loop :
      (J : List A → Db → Type 0) (f : A → Action (Unit {0}))
      → ((x : A) (rest : List A) (db : Db)
          → J (x ∷ rest) db
          → LawfulAt (f x) db × J rest (f x db).0)
      → (xs : List A) (db : Db) → J xs db
      → LawfulAt (for_each xs f) db
  unfolding LawfulAt run_handler
  lawful_loop J f step [] db j = Lawful-refl db
  lawful_loop J f step (x ∷ xs) db j =
      let (lawful, left) = step x xs db j in
      bind_result (λ _. for_each xs f) db (f x db).0 (f x db).1 lawful
        (λ _. lawful_loop J f step xs (f x db).0 left)

pub lawful_pure : {A : Type 0} (a : A) (db : Db) → LawfulAt (pure a) db
unfolding LawfulAt run_handler
lawful_pure a db = Lawful-refl db

pub lawful_raise : (A : Type 0) (e : HttpError) (db : Db) → LawfulAt (raise {A = A} e) db
unfolding LawfulAt run_handler
lawful_raise A e db = Lawful-refl db

pub Lawful-write : (f : Db → Db) (db : Db) → Lawful db (f db) → LawfulAt (modify f) db
unfolding LawfulAt run_handler
Lawful-write f db h = h

-- The invariant may be used at the start of a handler.
pub with-Sound : {A : Type 0} (m : Action A) (db : Db) → (Sound db → LawfulAt m db) → LawfulAt m db
unfolding LawfulAt
with-Sound m db h s = h s s
