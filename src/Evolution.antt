-- ===== src/Evolution.antt =====
-- How a table changes: its rows stay at their places and move by a relation, and new rows come at
-- the end. The unique key of the rows makes an update by id an update of the row that was found.
pub mod Updates
pub mod Lookups
use eventy_backend.Base.{ℕ, Bool, true, ◌≡◌, ◌≢◌, List, [], ◌∷◌, ◌++◌, Option, some, All}

module _ {A : Type 0} where
  abbrev pub Evolves : (A → A → Type 0) → List A → List A → Type 0
  Evolves R [] ys = Unit {0}
  Evolves R (x ∷ xs) [] = ⊥
  Evolves R (x ∷ xs) (y ∷ ys) = R x y × Evolves R xs ys

  -- No two rows have the same key.
  abbrev pub Distinct : (A → ℕ) → List A → Type 0
  Distinct key [] = Unit {0}
  Distinct key (x ∷ xs) = All (λ y. key y ≢ key x) xs × Distinct key xs

  pub Evolves-refl : (R : A → A → Type 0) → ((x : A) → R x x) → (xs : List A) → Evolves R xs xs
  Evolves-refl R r [] = tt
  Evolves-refl R r (x ∷ xs) = (r x, Evolves-refl R r xs)

  pub Evolves-append :
      (R : A → A → Type 0) → ((x : A) → R x x) → (xs ys : List A) → Evolves R xs (xs ++ ys)
  Evolves-append R r [] ys = tt
  Evolves-append R r (x ∷ xs) ys = (r x, Evolves-append R r xs ys)

  pub Evolves-trans :
      (R : A → A → Type 0)
      → ((x y z : A) → R x y → R y z → R x z)
      → (xs ys zs : List A) → Evolves R xs ys
      → Evolves R ys zs
      → Evolves R xs zs
  Evolves-trans R t [] ys zs h k = tt
  Evolves-trans R t (x ∷ xs) [] zs h k = absurd h
  Evolves-trans R t (x ∷ xs) (y ∷ ys) [] h k = absurd k
  Evolves-trans R t (x ∷ xs) (y ∷ ys) (z ∷ zs) h k =
      (t x y z h.0 k.0, Evolves-trans R t xs ys zs h.1 k.1)
