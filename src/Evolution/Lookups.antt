-- ===== src/Evolution/Lookups.antt =====
-- Looking a row up by its id: after an update of another row, and from a list read before.
use mathlib.Core.Path.{subst}
use mathlib.Core.Option.{some-injective}
use eventy_backend.Base.{
  includes, map, ℕ, Bool, true, false, ◌≡◌, ◌≢◌, refl, sym, ◌∙◌, List, [], ◌∷◌, ◌++◌, some, none,
  All, ◌==◌, nat_eq, nat_beq_iff, inl, inr, Bool-cases, arith, keep,
}
use eventy_backend.Model.{find_first, update_where}
use eventy_backend.Evolution.Updates.{All-map}
use eventy_backend.Evolution.{Distinct, Evolves}

-- A test of two ids passes for equal ones and fails for others.
pub id_self : (k : ℕ) → (k == k) ≡ true
id_self k = ground arith

pub id_other : (j k : ℕ) → j ≢ k → (j == k) ≡ false
id_other j k h = ground arith

pub keep-All :
    {A : Type 0} (q : A → Bool) (P : A → Type 0) (xs : List A) → All P xs → All P (keep q xs)
keep-All q P [] h = tt
keep-All q P (x ∷ xs) h = elim (Bool-cases (q x)) [
  | inl hit ↦ rw hit (h.0, keep-All q P xs h.1)
  | inr miss ↦ rw miss (keep-All q P xs h.1)
]

-- What a filter keeps passes its test.
pub keep_sound : {A : Type 0} (q : A → Bool) (xs : List A) → All (λ x. q x ≡ true) (keep q xs)
keep_sound q [] = tt
keep_sound q (x ∷ xs) = elim (Bool-cases (q x)) [
  | inl hit ↦ rw hit (hit, keep_sound q xs)
  | inr miss ↦ rw miss (keep_sound q xs)
]

module _ {A : Type 0} (key : A → ℕ) where
  pub find-update_other :
      (f : A → A) (j k : ℕ)
      → ((x : A) → key (f x) ≡ key x)
      → j ≢ k
      → (xs : List A)
      → find_first (λ x. key x == j) (update_where (λ x. key x == k) f xs)
        ≡ find_first (λ x. key x == j) xs
  unfolding find_first update_where
  find-update_other f j k same ne [] = refl
  find-update_other f j k same ne (x ∷ xs) = elim (Bool-cases (key x == k)) [
    | inl hit ↦
        let own : key x ≡ k = (nat_beq_iff (key x) k).0 hit in
        rw (hit, same x, id_other (key x) j (λ e. ne (sym e ∙ own)))
          (find-update_other f j k same ne xs)
    | inr miss ↦ rw (miss, find-update_other f j k same ne xs) refl
  ]

  pub find-update_self :
      (f : A → A) (k : ℕ)
      → ((x : A) → key (f x) ≡ key x)
      → (xs : List A) (r : A) → find_first (λ x. key x == k) xs ≡ some r
      → find_first (λ x. key x == k) (update_where (λ x. key x == k) f xs) ≡ some (f r)
  unfolding find_first update_where
  find-update_self f k same [] r e = cc
  find-update_self f k same (x ∷ xs) r e = elim (Bool-cases (key x == k)) [
    | inl hit ↦ let here : some x ≡ some r = rw hit at e in rw (hit, same x, hit) (cc)
    | inr miss ↦ let rest = rw miss at e in rw (miss, miss) (find-update_self f k same xs r rest)
  ]

  -- Each row of a table with distinct ids is what a lookup of its id finds.
  pub found_by_key :
      (xs : List A) → Distinct key xs → All (λ x. find_first (λ y. key y == key x) xs ≡ some x) xs
  unfolding find_first
  found_by_key [] d = tt
  found_by_key (x ∷ xs) d = (rw (id_self (key x)), more xs d.0 (found_by_key xs d.1))
    where
      more :
          (ys : List A)
          → All (λ y. key y ≢ key x) ys
          → All (λ y. find_first (λ z. key z == key y) xs ≡ some y) ys
          → All (λ y. find_first (λ z. key z == key y) (x ∷ xs) ≡ some y) ys
      more [] n h = tt
      more (y ∷ ys) n h = (rw (id_other (key x) (key y) (λ e. n.0 (sym e))) h.0, more ys n.1 h.1)

  pub Distinct-keep : (q : A → Bool) (xs : List A) → Distinct key xs → Distinct key (keep q xs)
  Distinct-keep q [] d = tt
  Distinct-keep q (x ∷ xs) d = elim (Bool-cases (q x)) [
    | inl hit ↦ rw hit (keep-All q (λ y. key y ≢ key x) xs d.0, Distinct-keep q xs d.1)
    | inr miss ↦ rw miss (Distinct-keep q xs d.1)
  ]

  -- A row appended under a new id is what its id finds.
  pub find-append :
      (xs : List A) (r : A)
      → All (λ x. key x ≢ key r) xs
      → find_first (λ x. key x == key r) (xs ++ r ∷ []) ≡ some r
  unfolding find_first
  find-append [] r h = rw (id_self (key r)) refl
  find-append (x ∷ xs) r h = rw (id_other (key x) (key r) h.0) (find-append xs r h.1)

  -- A row that is there before a table evolves is there after it, moved.
  pub find-Evolves :
      (R : A → A → Type 0)
      → ((x y : A) → R x y → key y ≡ key x)
      → (k : ℕ) (xs ys : List A) (r : A) → Evolves R xs ys
      → find_first (λ x. key x == k) xs ≡ some r
      → (t : A) × (find_first (λ x. key x == k) ys ≡ some t) × R r t
  unfolding find_first
  find-Evolves R same k [] ys r h e = cc
  find-Evolves R same k (x ∷ xs) [] r h e = absurd h
  find-Evolves R same k (x ∷ xs) (y ∷ ys) r h e = elim (Bool-cases (key x == k)) [
    | inl hit ↦
        let here : x ≡ r = some-injective _ _ (rw hit at e) in
        (y, rw (same x y h.0, hit) refl, subst (λ z. R z y) here h.0)
    | inr miss ↦
        let (t, there, moved) = find-Evolves R same k xs ys r h.1 (rw miss at e) in
        (t, rw (same x y h.0, miss) there, moved)
  ]

  -- An update makes no id appear.
  pub find-update_none :
      (f : A → A) (j k : ℕ)
      → ((x : A) → key (f x) ≡ key x)
      → (xs : List A) → find_first (λ x. key x == j) xs ≡ none
      → find_first (λ x. key x == j) (update_where (λ x. key x == k) f xs) ≡ none
  unfolding find_first update_where
  find-update_none f j k same [] h = refl
  find-update_none f j k same (x ∷ xs) h = elim (Bool-cases (key x == j)) [
    | inl hit ↦ let found = rw hit at h in cc
    | inr miss ↦
        let rest = find-update_none f j k same xs (rw miss at h) in
        elim (Bool-cases (key x == k)) [
          | inl own ↦ rw (own, same x, miss) rest
          | inr other ↦ rw (other, miss) rest
        ]
  ]

module _ {A : Type 0} (key : A → ℕ) (q : A → Bool) where
  kept_more :
      (b : A) (bs : List A) (k : ℕ)
      → includes (map key (keep q bs)) k ≡ true
      → includes (map key (keep q (b ∷ bs))) k ≡ true
  kept_more b bs k h = elim (Bool-cases (q b)) [
    | inl hit ↦ rw hit (ground arith)
    | inr miss ↦ rw miss h
  ]

  kept_head :
      (b : A) (bs : List A) → q b ≡ true → includes (map key (keep q (b ∷ bs))) (key b) ≡ true
  kept_head b bs h = rw h (ground arith)

  -- A filter keeps the key of each row that passes.
  pub kept_included :
      (bs : List A) → All (λ b. q b ≡ true → includes (map key (keep q bs)) (key b) ≡ true) bs
  kept_included [] = tt
  kept_included (b ∷ bs) = (
    kept_head b bs,
    All-map (λ x. q x ≡ true → includes (map key (keep q bs)) (key x) ≡ true) _
        (λ x h e. kept_more b bs (key x) (h e)) bs (kept_included bs),
  )
