-- ===== src/Refusal/Discounts.antt =====
-- The discounts' handlers write last.
use eventy_backend.Base.{ℕ, ◌≡◌, nat_eq, arith}
use eventy_backend.Model.{payment_method_eq, Db, Discount, NoticeKind, run_handler, DiscountOrigin}
use eventy_backend.Refusal.{
  Harmless, Settled, Harmless-guard, Harmless-passed, Harmless-read, Harmless-lookup, Harmless-rest,
  Harmless-check, Harmless-refusal, Settled-then, Settled-modify, Settled-emit, Settled-when,
}
use eventy_backend.Discounts.{
  CreateDiscount, resolve_owned_target, assert_no_overlapping_auto_discount, insert_discount,
  create_provider_discount, create_company_funded_discount, discount_by_id, get_owned_discount,
  update_discount, reconfirm, cancel, cancel_by_provider, cancel_by_admin,
  suspend_discounts_for_package,
}
use eventy_backend.Discounts.Lawful.{resolve_same, assert_same}

insert_discount-Harmless :
    (u : ℕ) (o : DiscountOrigin) (dto : CreateDiscount) (db : Db)
    → Harmless (insert_discount u o dto) db
unfolding insert_discount
insert_discount-Harmless u o dto db =
    Harmless-read (λ d. d) _ db (Harmless-refusal _ _ _ db (Harmless-rest _ db (Settled-modify _)))

pub create_provider_discount-Harmless :
    (u : ℕ) (dto : CreateDiscount) (db : Db) → Harmless (create_provider_discount u dto) db
unfolding create_provider_discount
create_provider_discount-Harmless u dto db =
    Harmless-passed (resolve_owned_target u dto) _ db (resolve_same u dto db) (
      Harmless-passed (assert_no_overlapping_auto_discount dto) _ db (assert_same dto db) (
        Harmless-read (λ d. d) _ db
          (Harmless-refusal _ _ _ db (insert_discount-Harmless u DiscountOrigin.provider dto db))))

pub create_company_funded_discount-Harmless :
    (u : ℕ) (dto : CreateDiscount) (db : Db) → Harmless (create_company_funded_discount u dto) db
unfolding create_company_funded_discount
create_company_funded_discount-Harmless u dto db = Harmless-check _ _ _ db (
    Harmless-passed (assert_no_overlapping_auto_discount dto) _ db (assert_same dto db)
      (insert_discount-Harmless u DiscountOrigin.company_funded dto db))

owned_same : (u k : ℕ) (db : Db) → (get_owned_discount u k db).0 ≡ db
unfolding get_owned_discount run_handler
owned_same u k db = ground arith

update_discount-Settled : (k : ℕ) (f : Discount → Discount) → Settled (update_discount k f)
unfolding update_discount
update_discount-Settled k f = Settled-modify _

pub reconfirm-Harmless : (u k : ℕ) (db : Db) → Harmless (reconfirm u k) db
unfolding reconfirm
reconfirm-Harmless u k db =
    Harmless-guard (get_owned_discount u k) _ db (owned_same u k db)
      λ d. Harmless-check _ _ _ db (Harmless-rest _ db (update_discount-Settled k _))

cancel-Harmless : (k actor : ℕ) (db : Db) → Harmless (cancel k actor) db
unfolding cancel
cancel-Harmless k actor db =
    Harmless-read (λ d. d) _ db
      (Harmless-lookup (discount_by_id db k) _ _ db λ d. Harmless-check _ _ _ db (
        Harmless-rest _ db (
          Settled-then _ _ (update_discount-Settled k _) (
            Settled-when _ _
              (Settled-emit NoticeKind.discount_cancelled actor d.created_by_user_id d.id)))))

pub cancel_by_provider-Harmless : (u k : ℕ) (db : Db) → Harmless (cancel_by_provider u k) db
unfolding cancel_by_provider
cancel_by_provider-Harmless u k db =
    Harmless-passed (get_owned_discount u k) _ db (owned_same u k db) (cancel-Harmless k u db)

pub cancel_by_admin-Harmless : (k : ℕ) (db : Db) → Harmless (cancel_by_admin k) db
unfolding cancel_by_admin
cancel_by_admin-Harmless k db =
    Harmless-read (λ d. d) _ db
      (Harmless-lookup (discount_by_id db k) _ _ db λ d. cancel-Harmless k d.created_by_user_id db)

pub suspend_discounts_for_package-Harmless :
    (k : ℕ) (db : Db) → Harmless (suspend_discounts_for_package k) db
unfolding suspend_discounts_for_package
suspend_discounts_for_package-Harmless k db = Harmless-rest _ db (Settled-modify _)
