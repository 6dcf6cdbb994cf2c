-- ===== src/Model/Monad.antt =====
-- A handler: it reads and writes the database and returns or throws. What was written before a
-- throw stays written, except inside a transaction.
use eventy_backend.Base.{
  ℕ, ◌≡◌, ◌↔◌, refl, Bool, true, false, Option, none, some, List, [], ◌∷◌, ◌++◌, String,
}
use eventy_backend.Model.Rows.{Db, Notice, NoticeKind}

-- The exceptions of Nest, with their message, the error of the database when a row would break a
-- unique index, a TypeError of the runtime, and the error of
-- Prisma's client for a query that it does not run: an id or a value that is null, or no row to update.
pub data HttpError : Type 0 where
  bad_request not_found forbidden conflict : String → HttpError
  unique_violation type_error query_error : HttpError

-- An exception that the code or the schema means; the other two are answered by status 500.
abbrev pub is_refusal : HttpError → Bool
is_refusal HttpError.type_error = false
is_refusal HttpError.query_error = false
is_refusal _ = true

pub data Result {ℓ} (A : Type ℓ) : Type ℓ where
  ok : A → Result A
  err : HttpError → Result A

abbrev pub Action : Type 0 → Type 0
Action A = Db → Db × Result A

module _ {A : Type 0} where
  unfoldable pub pure : A → Action A
  pure a db = (db, ok a)

  unfoldable pub raise : HttpError → Action A
  raise e db = (db, err e)

  unfoldable pub gets : (Db → A) → Action A
  gets f db = (db, ok (f db))

  unfoldable pub or_raise : Option A → HttpError → Action A
  or_raise none e db = (db, err e)
  or_raise (some a) e db = (db, ok a)

  -- `prisma.$transaction`: a throw rolls back.
  unfoldable pub transaction : Action A → Action A
  transaction m db = let (after, r) = m db in elim r [ ok a ↦ (after, ok a) | err e ↦ (db, err e) ]

infixl 5 ◌>>=◌ ◌>>◌
unfoldable pub ◌>>=◌ : {A B : Type 0} → Action A → (A → Action B) → Action B
◌>>=◌ m f db = let (after, r) = m db in elim r [ ok a ↦ f a after | err e ↦ (after, err e) ]

unfoldable pub ◌>>◌ : {A B : Type 0} → Action A → Action B → Action B
m >> k = m >>= λ _. k

unfoldable pub raise_if : Bool → HttpError → Action (Unit {0})
raise_if true e db = (db, err e)
raise_if false e db = (db, ok tt)

pub raise_if_lem :
    (b : Bool) (e : HttpError) (db : Db) → (raise_if b e db ≡ (db, ok tt)) ↔ (b ≡ false)
unfolding raise_if
raise_if_lem true e db = ((λ same. cc), λ h. cc)
raise_if_lem false e db = ((λ same. refl), λ h. refl)

unfoldable pub raise_unless : Bool → HttpError → Action (Unit {0})
raise_unless true e db = (db, ok tt)
raise_unless false e db = (db, err e)

unfoldable pub modify : (Db → Db) → Action (Unit {0})
modify f db = (f db, ok tt)

unfoldable pub when : Bool → Action (Unit {0}) → Action (Unit {0})
when true m db = m db
when false m db = (db, ok tt)

-- `for (const x of xs) { … }`
unfoldable pub for_each : {A : Type 0} → List A → (A → Action (Unit {0})) → Action (Unit {0})
for_each [] f db = (db, ok tt)
for_each (x ∷ xs) f db =
    let (after, r) = f x db in elim r [ ok _ ↦ for_each xs f after | err e ↦ (after, err e) ]

unfoldable pub emit : NoticeKind → ℕ → ℕ → ℕ → Action (Unit {0})
emit kind actor target entity db =
    let notice : Notice = record {
      kind = kind;
      actor_id = actor;
      target_user_id = target;
      entity_id = entity;
    } in
    (record db { notices = db.notices ++ notice ∷ [] }, ok tt)

-- To run a handler is to open all of these.
unfoldable pub run_handler : Unit {0}
unfolding ◌>>=◌ ◌>>◌ pure raise gets or_raise transaction raise_if raise_unless modify when for_each
    emit
run_handler = tt
