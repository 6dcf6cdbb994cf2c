-- ===== src/Discounts/Lawful.antt =====
-- The discount handlers change the database lawfully, and with them no two discounts that apply by
-- themselves come to conflict.
use eventy_backend.Base.{
  ℕ, suc, Bool, true, false, ◌≡◌, refl, ◌⊎◌, inl, inr, arith, nat_eq, any, Bool-cases,
}
use eventy_backend.Model.{
  DiscountStatus, discount_status_eq, DiscountOrigin, Db, Discount, run_handler, ok,
  provider_of_user, NoticeKind,
}
use eventy_backend.Change.Payments.{set_discounts}
use eventy_backend.Change.Rules.{
  LawfulAt, then_step, then_passed, after_step, after_read, after_lookup, after_check,
  after_refusal, lawful_emit, lawful_pure, Lawful-write, lawful_when,
}
use eventy_backend.Discounts.{
  CreateDiscount, is_given, names_target, has_overlap, resolve_owned_target,
  assert_no_overlapping_auto_discount, insert_discount, create_provider_discount,
  create_company_funded_discount, discount_by_id, get_owned_discount, update_discount, reconfirm,
  cancel, cancel_by_provider, cancel_by_admin, suspend_discounts_for_package,
}
use eventy_backend.Discounts.Overlap.{DiscountsKept-append, DiscountsKept-update_where, Calms}

pub resolve_same : (u : ℕ) (dto : CreateDiscount) (db : Db) → (resolve_owned_target u dto db).0 ≡ db
unfolding resolve_owned_target run_handler
resolve_same u dto db = ground arith

resolve_names_target :
    (u : ℕ) (dto : CreateDiscount) (db : Db) (r : Unit {0})
    → (resolve_owned_target u dto db).1 ≡ ok r
    → names_target dto ≡ true
unfolding resolve_owned_target run_handler
resolve_names_target u dto db r h = ground arith

pub assert_same :
    (dto : CreateDiscount) (db : Db) → (assert_no_overlapping_auto_discount dto db).0 ≡ db
unfolding assert_no_overlapping_auto_discount run_handler
assert_same dto db = ground arith

assert_free :
    (dto : CreateDiscount) (db : Db) (r : Unit {0})
    → (assert_no_overlapping_auto_discount dto db).1 ≡ ok r
    → (is_given dto.code ≡ true) ⊎ (any (has_overlap dto) db.discounts ≡ false)
unfolding assert_no_overlapping_auto_discount run_handler
assert_free dto db r h = elim (Bool-cases (is_given dto.code)) [
  | inl given ↦ inl given
  | inr bare ↦ inr (ground arith)
]

insert_discount-Lawful :
    (u : ℕ) (o : DiscountOrigin) (dto : CreateDiscount) (db : Db)
    → names_target dto ≡ true
    → (is_given dto.code ≡ true) ⊎ (any (has_overlap dto) db.discounts ≡ false)
    → LawfulAt (insert_discount u o dto) db
unfolding insert_discount
insert_discount-Lawful u o dto db target free =
    after_read (λ d. d) _ db
      (after_refusal _ _ _ db λ _. Lawful-write _ db (
        set_discounts db _ (suc db.next_id) (inr refl)
          (DiscountsKept-append dto _ db.discounts target refl refl refl refl free)))

pub create_provider_discount-Lawful :
    (u : ℕ) (dto : CreateDiscount) (db : Db) → LawfulAt (create_provider_discount u dto) db
unfolding create_provider_discount
create_provider_discount-Lawful u dto db =
    then_passed (resolve_owned_target u dto) _ db (resolve_same u dto db) λ r own.
      then_passed (assert_no_overlapping_auto_discount dto) _ db (assert_same dto db) λ q free.
        after_read (λ d. d) _ db
          (after_refusal _ _ _ db λ _.
            insert_discount-Lawful u DiscountOrigin.provider dto db
              (resolve_names_target u dto db r own) (assert_free dto db q free))

pub create_company_funded_discount-Lawful :
    (u : ℕ) (dto : CreateDiscount) (db : Db) → LawfulAt (create_company_funded_discount u dto) db
unfolding create_company_funded_discount
create_company_funded_discount-Lawful u dto db = after_check (names_target dto) _ _ db λ target.
    then_passed (assert_no_overlapping_auto_discount dto) _ db (assert_same dto db) λ q free.
      insert_discount-Lawful u DiscountOrigin.company_funded dto db target
        (assert_free dto db q free)

update_discount-Lawful :
    (k : ℕ) (f : Discount → Discount) (db : Db) → Calms f → LawfulAt (update_discount k f) db
unfolding update_discount
update_discount-Lawful k f db calm =
    Lawful-write _ db
      (set_discounts db _ db.next_id (inl refl) (DiscountsKept-update_where _ f db.discounts calm))

suspend-Calms : (b : Bool) → Calms (λ d. record d { needs_reconfirmation = b })
suspend-Calms b = record {
  same_service = λ d. refl;
  same_package = λ d. refl;
  same_code = λ d. refl;
  same_start = λ d. refl;
  same_end = λ d. refl;
  not_activated = λ d h. h;
}

cancel-Calms : Calms (λ d. record d { status = DiscountStatus.cancelled })
cancel-Calms = record {
  same_service = λ d. refl;
  same_package = λ d. refl;
  same_code = λ d. refl;
  same_start = λ d. refl;
  same_end = λ d. refl;
  not_activated = λ d h. cc;
}

owned_same : (u k : ℕ) (db : Db) → (get_owned_discount u k db).0 ≡ db
unfolding get_owned_discount run_handler
owned_same u k db = ground arith

owned-Lawful : (u k : ℕ) (db : Db) → LawfulAt (get_owned_discount u k) db
unfolding get_owned_discount
owned-Lawful u k db =
    after_read (λ d. d) _ db
      (after_lookup (provider_of_user db u) _ _ db λ p _.
        after_lookup (discount_by_id db k) _ _ db λ d _. after_check _ _ _ db λ _. lawful_pure d db)

pub reconfirm-Lawful : (u k : ℕ) (db : Db) → LawfulAt (reconfirm u k) db
unfolding reconfirm
reconfirm-Lawful u k db =
    after_step (get_owned_discount u k) _ db (owned-Lawful u k db)
      λ d. after_check _ _ _ _ λ _. update_discount-Lawful k _ _ (suspend-Calms false)

pub cancel-Lawful : (k actor : ℕ) (db : Db) → LawfulAt (cancel k actor) db
unfolding cancel
cancel-Lawful k actor db =
    after_read (λ d. d) _ db
      (after_lookup (discount_by_id db k) _ _ db λ d _. after_check _ _ _ db λ _.
        then_step (update_discount k _) _ db (update_discount-Lawful k _ db cancel-Calms)
          (lawful_when _ _ _ λ _. lawful_emit NoticeKind.discount_cancelled actor _ d.id _))

pub cancel_by_provider-Lawful : (u k : ℕ) (db : Db) → LawfulAt (cancel_by_provider u k) db
unfolding cancel_by_provider
cancel_by_provider-Lawful u k db =
    then_step (get_owned_discount u k) _ db (owned-Lawful u k db) (cancel-Lawful k u _)

pub cancel_by_admin-Lawful : (k : ℕ) (db : Db) → LawfulAt (cancel_by_admin k) db
unfolding cancel_by_admin
cancel_by_admin-Lawful k db =
    after_read (λ d. d) _ db
      (after_lookup (discount_by_id db k) _ _ db λ d _. cancel-Lawful k d.created_by_user_id db)

pub suspend_discounts_for_package-Lawful :
    (package_id : ℕ) (db : Db) → LawfulAt (suspend_discounts_for_package package_id) db
unfolding suspend_discounts_for_package
suspend_discounts_for_package-Lawful package_id db = Lawful-write _ db (
    set_discounts db _ db.next_id (inl refl)
      (DiscountsKept-update_where _ _ db.discounts (suspend-Calms true)))
