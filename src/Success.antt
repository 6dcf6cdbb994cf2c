-- ===== src/Success.antt =====
-- What a handler that returns has established: one rule for each form that stands before the rest of a
-- do block.
pub mod Owners
pub mod Quotes
pub mod Decisions
pub mod Expiry
pub mod Checkout
pub mod Listing
pub mod Events
pub mod Clearing
pub mod Packages
use eventy_backend.Base.{
  ℕ, ◌≡◌, refl, Bool, true, false, Option, none, some, List, [], ◌∷◌, All, Bool-cases, inl, inr,
  if◌then◌else◌,
}
use eventy_backend.Model.{
  Db, Booking, Action, HttpError, Result, ok, err, NoticeKind, run_handler, gets, ◌>>=◌, ◌>>◌, pure,
  or_raise, raise_if, raise_unless, modify, for_each, emit, update_where,
}

-- If the handler returns, this holds of its result and of the database that it leaves.
unfoldable pub Ensures : {A : Type 0} → (A → Db → Type 0) → Action A → Db → Type 0
Ensures {A = A} Q m db = (a : A) → (m db).1 ≡ ok a → Q a (m db).0

module _ {A B : Type 0} (Q : B → Db → Type 0) where
  pub Ensures-read :
      (g : Db → A) (f : A → Action B) (db : Db)
      → Ensures Q (f (g db)) db
      → Ensures Q (gets g >>= f) db
  unfolding Ensures run_handler
  Ensures-read g f db h = h

  pub Ensures-lookup :
      (o : Option A) (e : HttpError) (f : A → Action B) (db : Db)
      → ((a : A) → o ≡ some a → Ensures Q (f a) db)
      → Ensures Q (or_raise o e >>= f) db
  unfolding Ensures run_handler
  Ensures-lookup none e f db h b c = cc
  Ensures-lookup (some a) e f db h b c = h a refl b c

module _ {A B : Type 0} (Q : B → Db → Type 0) where
  then_result :
      (k : Action B) (after : Db) (r : Result A)
      → Ensures Q k after
      → (b : B)
      → (let out : Db × Result B = elim r [ ok _ ↦ k after | err e ↦ (after, err e) ] in out).1
        ≡ ok b
      → Q b (let out : Db × Result B = elim r [ ok _ ↦ k after | err e ↦ (after, err e) ] in out).0
  unfolding Ensures
  then_result k after (ok a) h b c = h b c
  then_result k after (err e) h b c = cc

  -- Any step, then the rest where it leaves the database.
  pub Ensures-then :
      (m : Action A) (k : Action B) (db : Db) → Ensures Q k (m db).0 → Ensures Q (m >> k) db
  unfolding Ensures run_handler
  Ensures-then m k db h b c = then_result k (m db).0 (m db).1 h b c

module _ {B : Type 0} (Q : B → Db → Type 0) where
  pub Ensures-check :
      (c : Bool) (e : HttpError) (m : Action B) (db : Db)
      → (c ≡ true → Ensures Q m db)
      → Ensures Q (raise_unless c e >> m) db
  unfolding Ensures run_handler
  Ensures-check true e m db h b k = h refl b k
  Ensures-check false e m db h b k = cc

  pub Ensures-refusal :
      (c : Bool) (e : HttpError) (m : Action B) (db : Db)
      → (c ≡ false → Ensures Q m db)
      → Ensures Q (raise_if c e >> m) db
  unfolding Ensures run_handler
  Ensures-refusal true e m db h b k = cc
  Ensures-refusal false e m db h b k = h refl b k

returned_pure :
    {B : Type 0} (after : Db) (r : Result (Unit {0})) (b : B)
    → r ≡ ok tt
    → (let out : Db × Result B = elim r [ ok _ ↦ pure b after | err e ↦ (after, err e) ] in out)
      ≡ (after, ok b)
unfolding run_handler
returned_pure after (ok a) b h = refl
returned_pure after (err e) b h = cc

module _ {A : Type 0} where
  -- After an update, what held of the rows outside it and of the changed ones holds of all.
  pub All-updated :
      (P : A → Type 0) (p : A → Bool) (f : A → A) (xs : List A)
      → All (λ x. (p x ≡ true → P (f x)) × (p x ≡ false → P x)) xs
      → All P (update_where p f xs)
  unfolding update_where
  All-updated P p f [] h = tt
  All-updated P p f (x ∷ xs) h = elim (Bool-cases (p x)) [
    | inl hit ↦ rw hit (h.0.0 hit, All-updated P p f xs h.1)
    | inr miss ↦ rw miss (h.0.1 miss, All-updated P p f xs h.1)
  ]

  pub All-each : (P : A → Type 0) → ((x : A) → P x) → (xs : List A) → All P xs
  All-each P h [] = tt
  All-each P h (x ∷ xs) = (h x, All-each P h xs)

  -- A loop that only emits leaves the bookings and the events alone.
  pub emits_keep :
      (kind : NoticeKind) (actor target entity : A → ℕ) (xs : List A) (db : Db)
      → ((for_each xs (λ x. emit kind (actor x) (target x) (entity x)) db).0.bookings ≡ db.bookings)
        × ((for_each xs (λ x. emit kind (actor x) (target x) (entity x)) db).0.events ≡ db.events)
  unfolding run_handler
  emits_keep kind actor target entity [] db = (refl, refl)
  emits_keep kind actor target entity (x ∷ xs) db =
      emits_keep kind actor target entity xs (emit kind (actor x) (target x) (entity x) db).0

  -- A loop whose rounds return, and keep what holds of the elements that are left.
  pub ensures_loop :
      (L : List A → Db → Type 0) (f : A → Action (Unit {0}))
      → ((x : A) (rest : List A) (db : Db)
          → L (x ∷ rest) db
          → ((f x db).1 ≡ ok tt) × L rest (f x db).0)
      → (xs : List A) (db : Db) → L xs db
      → L [] (for_each xs f db).0
  unfolding run_handler
  ensures_loop L f step [] db j = j
  ensures_loop L f step (x ∷ xs) db j =
      let (returns, left) = step x xs db j in
      rw (for_each, returns) (ensures_loop L f step xs (f x db).0 left)

  pub loop_returns :
      (f : A → Action (Unit {0}))
      → ((x : A) (db : Db) → (f x db).1 ≡ ok tt)
      → (xs : List A) (db : Db) → (for_each xs f db).1 ≡ ok tt
  unfolding run_handler
  loop_returns f h [] db = refl
  loop_returns f h (x ∷ xs) db = rw (for_each, h x db) (loop_returns f h xs (f x db).0)

  -- It returns, so that what stands after it is run.
  pub emits_pure :
      {B : Type 0} (kind : NoticeKind) (actor target entity : A → ℕ) (xs : List A) (db : Db) (b : B)
      → (for_each xs (λ x. emit kind (actor x) (target x) (entity x)) >> pure b) db
        ≡ ((for_each xs (λ x. emit kind (actor x) (target x) (entity x)) db).0, ok b)
  unfolding run_handler
  emits_pure kind actor target entity xs db b =
      returned_pure _ _ b
        (loop_returns (λ x. emit kind (actor x) (target x) (entity x)) (λ x d. refl) xs db)
