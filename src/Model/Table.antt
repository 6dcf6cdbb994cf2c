-- ===== src/Model/Table.antt =====
-- The queries of Prisma over one table.
use eventy_backend.Base.{
  ℕ, Bool, false, Option, none, some, List, [], ◌∷◌, ◌==◌, nat_eq, if◌then◌else◌,
}

-- A nullable reference that holds the given id.
abbrev pub is_id : Option ℕ → ℕ → Bool
is_id none k = false
is_id (some x) k = x == k

module _ {A : Type 0} where
  -- `findFirst`
  unfoldable pub find_first : (A → Bool) → List A → Option A
  find_first p [] = none
  find_first p (x ∷ xs) = if p x then some x else find_first p xs

  -- `updateMany`; `update`, where the test is on the unique id
  unfoldable pub update_where : (A → Bool) → (A → A) → List A → List A
  update_where p f [] = []
  update_where p f (x ∷ xs) = (if p x then f x else x) ∷ update_where p f xs
