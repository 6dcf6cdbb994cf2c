-- ===== src/Change/Keeps.antt =====
-- What a handler keeps, whether it returns or throws: one rule for each way in which steps are put
-- together.
use eventy_backend.Base.{◌≡◌, Bool, true, false, Option, none, some, List, [], ◌∷◌, All}
use eventy_backend.Model.{
  Db, Action, HttpError, Result, ok, err, run_handler, gets, ◌>>=◌, ◌>>◌, or_raise, raise_if,
  modify, when, for_each,
}

-- Where the predicate holds of the database, it holds of what the handler leaves.
unfoldable pub Keeps : {A : Type 0} → (Db → Type 0) → Action A → Type 0
Keeps K m = (db : Db) → K db → K (m db).0

module _ {A B : Type 0} (K : Db → Type 0) where
  bind_keeps :
      (f : A → Action B) (after : Db) (r : Result A)
      → ((a : A) → Keeps K (f a))
      → K after
      → K (let out : Db × Result B = elim r [ ok a ↦ f a after | err e ↦ (after, err e) ] in out).0
  unfolding Keeps
  bind_keeps f after (ok a) h k = h a after k
  bind_keeps f after (err e) h k = k

  pub Keeps-bind :
      (m : Action A) (f : A → Action B) → Keeps K m → ((a : A) → Keeps K (f a)) → Keeps K (m >>= f)
  unfolding Keeps run_handler
  Keeps-bind m f h j db k = bind_keeps f (m db).0 (m db).1 j (h db k)

  pub Keeps-then : (m : Action A) (k : Action B) → Keeps K m → Keeps K k → Keeps K (m >> k)
  unfolding Keeps run_handler
  Keeps-then m k h j db l = bind_keeps (λ _. k) (m db).0 (m db).1 (λ _. j) (h db l)

module _ {A : Type 0} (K : Db → Type 0) where
  -- A step that only reads.
  pub Keeps-same : (m : Action A) → ((db : Db) → (m db).0 ≡ db) → Keeps K m
  unfolding Keeps
  Keeps-same m same db k = rw (same db) k

  pub Keeps-lookup : (o : Option A) (e : HttpError) → Keeps K (or_raise o e)
  unfolding Keeps run_handler
  Keeps-lookup none e db k = k
  Keeps-lookup (some a) e db k = k

  pub Keeps-read : (g : Db → A) → Keeps K (gets g)
  unfolding Keeps run_handler
  Keeps-read g db k = k

pub Keeps-refusal : (K : Db → Type 0) (c : Bool) (e : HttpError) → Keeps K (raise_if c e)
unfolding Keeps run_handler
Keeps-refusal K true e db k = k
Keeps-refusal K false e db k = k

pub Keeps-write :
    (K : Db → Type 0) (f : Db → Db) → ((db : Db) → K db → K (f db)) → Keeps K (modify f)
unfolding Keeps run_handler
Keeps-write K f h db k = h db k

pub Keeps-when :
    (K : Db → Type 0) (c : Bool) (m : Action (Unit {0})) → Keeps K m → Keeps K (when c m)
unfolding Keeps run_handler
Keeps-when K true m h db k = h db k
Keeps-when K false m h db k = k

-- What every round keeps, a loop keeps.
pub loop_keeps :
    {A : Type 0} (K : Db → Type 0) (P : A → Type 0) (f : A → Action (Unit {0}))
    → ((x : A) (db : Db) → P x → K db → K (f x db).0)
    → (xs : List A) (db : Db) → All P xs
    → K db
    → K (for_each xs f db).0
unfolding run_handler
loop_keeps K P f step [] db h k = k
loop_keeps K P f step (x ∷ xs) db h k =
    rounds (f x db).1 (loop_keeps K P f step xs (f x db).0 h.1) (step x db h.0 k)
  where
    rounds :
        (r : Result (Unit {0}))
        → (K (f x db).0 → K (for_each xs f (f x db).0).0)
        → K (f x db).0
        → K
            (let out : Db × Result (Unit {0}) = elim r [
              | ok _ ↦ for_each xs f (f x db).0
              | err e ↦ ((f x db).0, err e)
            ] in
              out).0
    rounds (ok a) more j = more j
    rounds (err e) more j = j
