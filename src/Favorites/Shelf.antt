-- ===== src/Favorites/Shelf.antt =====
-- The favorites as a set of (user, kind, target): whatever the commands, the table says what the set
-- says.

use eventy_backend.Base.{
  none_of_absent, ℕ, suc, ◌<◌, ◌≡◌, ◌≢◌, refl, sym, ◌∙◌, Bool, true, false, not, ◌&&◌, ◌||◌, Option,
  none, some, List, [], ◌∷◌, ◌++◌, All, arith, ◌==◌, nat_eq, is_some, if◌then◌else◌, keep,
  Bool-cases, Option-cases, inl, inr,
}
use eventy_backend.Model.{
  FavoriteTargetType, favorite_target_type_eq, Db, Favorite, find_first, run_handler,
}
use eventy_backend.Evolution.{Distinct}
use eventy_backend.Evolution.Updates.{
  All-map, All-append, Distinct-append, none-found, find_first_sound,
}
use eventy_backend.Evolution.Lookups.{keep-All, Distinct-keep}
use eventy_backend.Favorites.{
  is_valid_target, is_favorite_row, favorite_of, new_favorite, create_favorite, remove_favorite,
}
use eventy_backend.Favorites.Table.{
  same_key, OnePerKey, found_any, any-append, any-without, OnePerKey-append, OnePerKey-keep,
  key_sym,
}

pub record FavoritesSound (db : Db) : Type 0 where
  pub ids : Distinct (λ f. f.id) db.favorites
  pub fresh : All (λ f. f.id < db.next_id) db.favorites
  pub one_each : OnePerKey db.favorites

abbrev pub Shelf : Type 0
Shelf = ℕ → FavoriteTargetType → ℕ → Bool

abbrev pub shelf : Db → Shelf
shelf db u t k = is_some (favorite_of db u t k)

pub data Command : Type 0 where
  add drop : ℕ → FavoriteTargetType → ℕ → Command

unfoldable pub obey : Command → Db → Db
obey (add u t k) db = (create_favorite u t k db).0
obey (drop u t k) db = (remove_favorite u t k db).0

unfoldable pub obey_all : List Command → Db → Db
unfolding obey
obey_all [] db = db
obey_all (c ∷ cs) db = obey_all cs (obey c db)

abbrev pub is_same : ℕ → FavoriteTargetType → ℕ → ℕ → FavoriteTargetType → ℕ → Bool
is_same u t k v s j = u == v && (t == s && k == j)

-- The commands on the set: a target that is not valid is not added.
unfoldable pub apply : (FavoriteTargetType → ℕ → Bool) → Command → Shelf → Shelf
apply valid (add u t k) shown v s j = shown v s j || (is_same u t k v s j && valid t k)
apply valid (drop u t k) shown v s j = shown v s j && not (is_same u t k v s j)

unfoldable pub apply_all : (FavoriteTargetType → ℕ → Bool) → List Command → Shelf → Shelf
unfolding apply
apply_all valid [] shown = shown
apply_all valid (c ∷ cs) shown = apply_all valid cs (apply valid c shown)

-- One key, one answer.
moved :
    (db : Db) (u : ℕ) (t : FavoriteTargetType) (k v : ℕ) (s : FavoriteTargetType) (j : ℕ)
    → is_same u t k v s j ≡ true
    → is_some (favorite_of db v s j) ≡ is_some (favorite_of db u t k)
moved db u t k v s j same =
    let (a, b, c) : (u ≡ v) × (t ≡ s) × (k ≡ j) = ground arith in rw (sym a, sym b, sym c) refl

-- What a command makes of the database: the invariant stays, the targets stay valid, and the set obeys.
ObeyedBy : Command → Db → Db → Type 0
ObeyedBy c db after =
    FavoritesSound after
    × ((t : FavoriteTargetType) (k : ℕ) → is_valid_target after t k ≡ is_valid_target db t k)
    × ((v : ℕ) (s : FavoriteTargetType) (j : ℕ)
        → shelf after v s j ≡ apply (is_valid_target db) c (shelf db) v s j)

valid_same :
    (fs : List Favorite) (n : ℕ) (db : Db) (t : FavoriteTargetType) (k : ℕ)
    → is_valid_target (record db { favorites = fs; next_id = n }) t k ≡ is_valid_target db t k
unfolding is_valid_target
valid_same fs n db FavoriteTargetType.service k = refl
valid_same fs n db FavoriteTargetType.provider k = refl
valid_same fs n db FavoriteTargetType.package_target k = refl

by_own_key :
    (u : ℕ) (t : FavoriteTargetType) (k : ℕ) (e : Favorite) (fs : List Favorite)
    (r : Option Favorite)
    → e.user_id ≡ u
    → e.target_type ≡ t
    → e.target_id ≡ k
    → find_first (is_favorite_row u t k) fs ≡ r
    → find_first (same_key e) fs ≡ r
by_own_key u t k e fs r a b c h = rw (a, b, c) h

module _ (u : ℕ) (t : FavoriteTargetType) (k : ℕ) (db : Db) (h : FavoritesSound db) where
  refused : is_valid_target db t k ≡ false → ObeyedBy (add u t k) db db
  unfolding ObeyedBy apply
  refused bad = (h, (λ s j. refl), λ v s j. rw bad (ground arith))

  -- A target that is there already.
  repeated : is_some (favorite_of db u t k) ≡ true → ObeyedBy (add u t k) db db
  unfolding ObeyedBy apply
  repeated old = (h, (λ s j. refl), λ v s j. still v s j)
    where
      still :
          (v : ℕ) (s : FavoriteTargetType) (j : ℕ)
          → shelf db v s j ≡ (shelf db v s j || (is_same u t k v s j && is_valid_target db t k))
      still v s j = elim (Bool-cases (is_same u t k v s j)) [
        | inl same ↦
            let here : is_some (favorite_of db v s j) ≡ true = moved db u t k v s j same ∙ old in
            ground arith
        | inr other ↦ ground arith
      ]

  added :
      is_valid_target db t k ≡ true
      → is_some (favorite_of db u t k) ≡ false
      → ObeyedBy (add u t k) db (record db {
        favorites = db.favorites ++ new_favorite db.next_id u t k ∷ [];
        next_id = suc db.next_id;
      })
  unfolding ObeyedBy apply
  added good new =
      let row = new_favorite db.next_id u t k in
      let apart : All (λ g. is_favorite_row u t k g ≡ false) db.favorites =
        none-found (is_favorite_row u t k) db.favorites (none_of_absent _ new) in
      (
        record {
          ids =
              Distinct-append (λ f. f.id) db.favorites row h.ids
                (All-map (λ f. f.id < db.next_id) (λ f. f.id ≢ row.id) (λ f l e. omega arith)
                  db.favorites h.fresh);
          fresh =
              All-append (λ f. f.id < suc db.next_id) db.favorites row
                (All-map (λ f. f.id < db.next_id) (λ f. f.id < suc db.next_id) (λ f l. omega arith)
                  db.favorites h.fresh)
                (omega arith);
          one_each =
              OnePerKey-append db.favorites row h.one_each
                (All-map _ _ (λ g miss. key_sym g row miss) db.favorites apart);
        },
        valid_same _ _ db,
        λ v s j.
            rw
              (
                good,
                found_any (is_favorite_row v s j) (db.favorites ++ row ∷ []),
                found_any (is_favorite_row v s j) db.favorites,
                any-append (is_favorite_row v s j) db.favorites row,
              )
              (ground arith),
      )

  dropped :
      (e : Favorite)
      → favorite_of db u t k ≡ some e
      → ObeyedBy
          (drop u t k)
          db
          (record db { favorites = keep (λ f. not (f.id == e.id)) db.favorites })
  unfolding ObeyedBy apply
  dropped e found =
      let hit : is_favorite_row u t k e ≡ true =
        find_first_sound (is_favorite_row u t k) db.favorites e found in
      let (a, b, c) : (e.user_id ≡ u) × (e.target_type ≡ t) × (e.target_id ≡ k) = ground arith in
      let own : find_first (same_key e) db.favorites ≡ some e =
        by_own_key u t k e db.favorites (some e) a b c found in
      (
        record {
          ids = Distinct-keep (λ f. f.id) _ db.favorites h.ids;
          fresh = keep-All _ _ db.favorites h.fresh;
          one_each = OnePerKey-keep _ db.favorites h.one_each;
        },
        valid_same _ db.next_id db,
        λ v s j.
            rw
              (
                found_any (is_favorite_row v s j) (keep (λ f. not (f.id == e.id)) db.favorites),
                found_any (is_favorite_row v s j) db.favorites,
                any-without v s j e db.favorites h.ids h.one_each own,
                sym a,
                sym b,
                sym c,
              )
              refl,
      )

  missing : favorite_of db u t k ≡ none → ObeyedBy (drop u t k) db db
  unfolding ObeyedBy apply
  missing absent = (h, (λ s j. refl), λ v s j. still v s j)
    where
      still :
          (v : ℕ) (s : FavoriteTargetType) (j : ℕ)
          → shelf db v s j ≡ (shelf db v s j && not (is_same u t k v s j))
      still v s j = elim (Bool-cases (is_same u t k v s j)) [
        | inl same ↦
            let gone : is_some (favorite_of db v s j) ≡ false =
              moved db u t k v s j same ∙ rw absent refl in
            ground arith
        | inr other ↦ ground arith
      ]

-- What the two handlers leave.
create_favorite-result :
    (u : ℕ) (t : FavoriteTargetType) (k : ℕ) (db : Db)
    → (create_favorite u t k db).0 ≡ (
        if is_valid_target db t k
        then (if is_some (favorite_of db u t k) then db else record db {
          favorites = db.favorites ++ new_favorite db.next_id u t k ∷ [];
          next_id = suc db.next_id;
        })
        else db)
unfolding create_favorite run_handler
create_favorite-result u t k db = ground arith

remove_favorite-result :
    (u : ℕ) (t : FavoriteTargetType) (k : ℕ) (db : Db)
    → (remove_favorite u t k db).0 ≡ (elim (favorite_of db u t k) [
      | none ↦ db
      | some e ↦ record db { favorites = keep (λ f. not (f.id == e.id)) db.favorites }
    ])
unfolding remove_favorite run_handler
remove_favorite-result u t k db = ground arith

obeyed : (c : Command) (db : Db) → FavoritesSound db → ObeyedBy c db (obey c db)
unfolding obey
obeyed (add u t k) db h =
    rw (create_favorite-result u t k db) (elim (Bool-cases (is_valid_target db t k)) [
      | inr bad ↦ rw bad (refused u t k db h bad)
      | inl good ↦ elim (Bool-cases (is_some (favorite_of db u t k))) [
        | inl old ↦ rw (good, old) (repeated u t k db h old)
        | inr new ↦ rw (good, new) (added u t k db h good new)
      ]
    ])
obeyed (drop u t k) db h =
    rw (remove_favorite-result u t k db) (elim (Option-cases (favorite_of db u t k)) [
      | inl absent ↦ rw absent (missing u t k db h absent)
      | inr (e, found) ↦ rw found (dropped u t k db h e found)
    ])

apply_ext :
    (valid other : FavoriteTargetType → ℕ → Bool) (cs : List Command) (a b : Shelf)
    → ((t : FavoriteTargetType) (k : ℕ) → valid t k ≡ other t k)
    → ((v : ℕ) (s : FavoriteTargetType) (j : ℕ) → a v s j ≡ b v s j)
    → (v : ℕ) (s : FavoriteTargetType) (j : ℕ)
    → apply_all valid cs a v s j ≡ apply_all other cs b v s j
unfolding apply_all
apply_ext valid other [] a b e h = h
apply_ext valid other (c ∷ cs) a b e h =
    apply_ext valid other cs (apply valid c a) (apply other c b) e (step c)
  where
    step :
        (c : Command) (v : ℕ) (s : FavoriteTargetType) (j : ℕ)
        → apply valid c a v s j ≡ apply other c b v s j
    step (add u t k) v s j = rw (h v s j, e t k) refl
    step (drop u t k) v s j = rw (h v s j) refl

-- In a sound table, what a user sees as a favorite after any sequence of additions and removals, refused
-- ones included, is what the same commands make of a plain set of favorites, in which an addition of a
-- target that is not valid does nothing; and the table stays sound.
pub obey_all-apply_all :
    (cs : List Command) (db : Db) (u : ℕ) (t : FavoriteTargetType) (k : ℕ)
    → FavoritesSound db
    → FavoritesSound (obey_all cs db)
      × (shelf (obey_all cs db) u t k ≡ apply_all (is_valid_target db) cs (shelf db) u t k)
unfolding obey_all apply_all ObeyedBy
obey_all-apply_all [] db u t k h = (h, refl)
obey_all-apply_all (c ∷ cs) db u t k h =
    let (sound, valid, said) = obeyed c db h in
    let (last, rest) = obey_all-apply_all cs (obey c db) u t k sound in
    (
      last,
      rest
          ∙ apply_ext (is_valid_target (obey c db)) (is_valid_target db) cs (shelf (obey c db))
              (apply (is_valid_target db) c (shelf db)) valid said u t k,
    )
