-- ===== src/Favorites/Lawful.antt =====
-- Favorites change the database lawfully.
use eventy_backend.Base.{ℕ, arith}
use eventy_backend.Model.{FavoriteTargetType, Db}
use eventy_backend.Change.Ids.{set_favorites}
use eventy_backend.Change.Rules.{
  LawfulAt, after_read, after_lookup, after_check, after_refusal, after_write, Lawful-write,
  lawful_pure,
}
use eventy_backend.Favorites.{favorite_of, create_favorite, remove_favorite}

pub create_favorite-Lawful :
    (u : ℕ) (t : FavoriteTargetType) (k : ℕ) (db : Db) → LawfulAt (create_favorite u t k) db
unfolding create_favorite
create_favorite-Lawful u t k db =
    after_read (λ d. d) _ db
      (after_check _ _ _ db λ _.
        after_refusal _ _ _ db
          λ _. after_write _ _ db (set_favorites db _ (omega arith) _) (lawful_pure _ _))

pub remove_favorite-Lawful :
    (u : ℕ) (t : FavoriteTargetType) (k : ℕ) (db : Db) → LawfulAt (remove_favorite u t k) db
unfolding remove_favorite
remove_favorite-Lawful u t k db =
    after_read (λ d. d) _ db
      (after_lookup (favorite_of db u t k) _ _ db
        λ existing _. Lawful-write _ db (set_favorites db db.next_id (omega arith) _))
