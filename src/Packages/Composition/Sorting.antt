-- ===== src/Packages/Composition/Sorting.antt =====
-- Two lists of ids have the same sorted list exactly when every id stands in both as often.
use eventy_backend.Base.{
  ℕ, suc, ◌≡◌, ◌≤◌, ◌<◌, refl, sym, ap, ◌∙◌, ◌↔◌, true, ◌&&◌, List, [], ◌∷◌, All, arith, ◌==◌,
  nat_eq, if◌then◌else◌, length, leb, Bool-cases, inl, inr,
}
use eventy_backend.Evolution.Updates.{All-map}
use eventy_backend.Packages.Composition.{insert, sort, match_ids}

abbrev pub count : ℕ → List ℕ → ℕ
count k [] = 0
count k (x ∷ xs) = let rest = count k xs in if x == k then suc rest else rest

abbrev IsSorted : List ℕ → Type 0
IsSorted [] = Unit {0}
IsSorted (x ∷ xs) = All (λ y. x ≤ y) xs × IsSorted xs

count-insert : (k a : ℕ) (xs : List ℕ) → count k (insert a xs) ≡ count k (a ∷ xs)
unfolding insert
count-insert k a [] = refl
count-insert k a (x ∷ xs) = elim (Bool-cases (leb a x)) [
  | inl h ↦ rw h refl
  | inr h ↦ rw (h, count-insert k a xs) (ground arith)
]

count-sort : (k : ℕ) (xs : List ℕ) → count k (sort xs) ≡ count k xs
unfolding sort
count-sort k [] = refl
count-sort k (x ∷ xs) = rw (count-insert k x (sort xs), count-sort k xs) refl

All-insert : (P : ℕ → Type 0) (a : ℕ) (xs : List ℕ) → P a → All P xs → All P (insert a xs)
unfolding insert
All-insert P a [] p h = (p, tt)
All-insert P a (x ∷ xs) p h = elim (Bool-cases (leb a x)) [
  | inl e ↦ rw e (p, h)
  | inr e ↦ rw e (h.0, All-insert P a xs p h.1)
]

insert-IsSorted : (a : ℕ) (xs : List ℕ) → IsSorted xs → IsSorted (insert a xs)
unfolding insert
insert-IsSorted a [] h = (tt, tt)
insert-IsSorted a (x ∷ xs) h = elim (Bool-cases (leb a x)) [
  | inl e ↦
      let le : a ≤ x = ground arith in
      rw e ((le, All-map (λ y. x ≤ y) (λ y. a ≤ y) (λ y l. omega (arith, le, l)) xs h.0), h)
  | inr e ↦ rw e (All-insert (λ y. x ≤ y) a xs (ground arith) h.0, insert-IsSorted a xs h.1)
]

sort-IsSorted : (xs : List ℕ) → IsSorted (sort xs)
unfolding sort
sort-IsSorted [] = tt
sort-IsSorted (x ∷ xs) = insert-IsSorted x (sort xs) (sort-IsSorted xs)

count_below : (k : ℕ) (xs : List ℕ) → All (λ y. k < y) xs → count k xs ≡ 0
count_below k [] h = refl
count_below k (x ∷ xs) h = ground (arith, count_below k xs h.1)

-- The head of a sorted list is not below that of another, in which it stands.
head_le : (x y : ℕ) (ys : List ℕ) (n : ℕ) → All (λ z. y ≤ z) ys → count x (y ∷ ys) ≡ suc n → y ≤ x
head_le x y ys n h e = elim (Bool-cases (leb y x)) [
  | inl le ↦ ground arith
  | inr gt ↦
      let lt : x < y = ground arith in
      let none_there : count x (y ∷ ys) ≡ 0 =
        count_below x (y ∷ ys)
          (lt, All-map (λ z. y ≤ z) (λ z. x < z) (λ z l. omega (arith, lt, l)) ys h) in
      omega (arith, none_there, e)
]

count_head : (x : ℕ) (xs : List ℕ) → count x (x ∷ xs) ≡ suc (count x xs)
count_head x xs = ground arith

sorted_unique :
    (xs ys : List ℕ) → IsSorted xs → IsSorted ys → ((k : ℕ) → count k xs ≡ count k ys) → xs ≡ ys
sorted_unique [] [] s t h = refl
sorted_unique [] (y ∷ ys) s t h = ground (arith, h y, count_head y ys)
sorted_unique (x ∷ xs) [] s t h = ground (arith, h x, count_head x xs)
sorted_unique (x ∷ xs) (y ∷ ys) s t h =
    let down : y ≤ x = head_le x y ys (count x xs) t.0 (sym (h x) ∙ count_head x xs) in
    let up : x ≤ y = head_le y x xs (count y ys) s.0 (h y ∙ count_head y ys) in
    let same : x ≡ y = omega arith in
    let rest : (k : ℕ) → count k xs ≡ count k ys = λ k. ground (arith, h k, same) in
    rw (same, sorted_unique xs ys s.1 t.1 rest) refl

match_refl : (xs : List ℕ) → match_ids xs xs ≡ true
unfolding match_ids
match_refl [] = refl
match_refl (x ∷ xs) = ground (arith, match_refl xs)

match_sound : (xs ys : List ℕ) → length xs ≡ length ys → match_ids xs ys ≡ true → xs ≡ ys
unfolding match_ids
match_sound [] [] e h = refl
match_sound [] (y ∷ ys) e h = ground arith
match_sound (x ∷ xs) [] e h = ground arith
match_sound (x ∷ xs) (y ∷ ys) e h =
    let same : x ≡ y = ground arith in
    rw (same, match_sound xs ys (ground arith) (ground arith)) refl

pub match_ids-sort :
    (xs ys : List ℕ)
    → (length (sort xs) == length (sort ys) && match_ids (sort xs) (sort ys) ≡ true)
      ↔ ((k : ℕ) → count k xs ≡ count k ys)
match_ids-sort xs ys = (
  λ h k.
      let same : sort xs ≡ sort ys =
        match_sound (sort xs) (sort ys) (ground arith) (ground arith) in
      sym (count-sort k xs) ∙ ap (count k) same ∙ count-sort k ys,
  λ h.
      let same : sort xs ≡ sort ys =
        sorted_unique (sort xs) (sort ys) (sort-IsSorted xs) (sort-IsSorted ys)
          (λ k. count-sort k xs ∙ h k ∙ sym (count-sort k ys)) in
      rw (same, match_refl (sort ys)) (ground arith),
)
