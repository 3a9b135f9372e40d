-- ===== src/Listings/Vouchers.antt =====
-- The lists of voucher batches and of the vouchers of a batch (api/internal/handlers/operator.go).
use myfipay.Base.{
  ℕ, String, List, map, Option, some, Bool, ◌&&◌, coalesce, select, length, ◌==◌, string_eq,
}
use myfipay.Http.{Reply}
use myfipay.Sql.Joins.{join}
use myfipay.Db.{Db, Location, Plan, Voucher, VoucherBatch}
use myfipay.Middleware.{UserClaims}
use myfipay.Sessions.{same_option}
use myfipay.Listings.{listing}

pub record BatchRow : Type 0 where
  pub id : String
  pub location_name : String
  pub plan_name : String
  pub price_ugx : ℕ
  pub quantity : ℕ
  pub used_count : ℕ
  pub note : String
  pub created_at : ℕ

-- COUNT(CASE WHEN v.status = 'used' THEN 1 END) over the vouchers of a batch
unfoldable pub used_vouchers : Db → String → ℕ
unfolding select
used_vouchers db batch_id =
    length (select (λ v. same_option v.batch_id (some batch_id) && v.status == "used") db.vouchers)

-- voucher_batches vb JOIN locations l ... JOIN plans p ...
unfoldable pub list_voucher_batches :
    Bool → (String → ℕ) → (List BatchRow → List BatchRow) → UserClaims → Db → Reply (List BatchRow)
unfolding join select used_vouchers
list_voucher_batches reached created_at newest claims db =
    let at =
      join (λ (vb : VoucherBatch) l. vb.location_id == l.id) db.voucher_batches db.locations in
    let rows = join (λ (bl : VoucherBatch × Location) p. bl.0.plan_id == p.id) at db.plans in
    listing reached "query failed" (
      newest (
        map
          (λ (blp : (VoucherBatch × Location) × Plan). record {
            id = blp.0.0.id;
            location_name = blp.0.1.name;
            plan_name = blp.1.name;
            price_ugx = blp.1.price_ugx;
            quantity = blp.0.0.quantity;
            used_count = used_vouchers db blp.0.0.id;
            note = blp.0.0.note;
            created_at = created_at blp.0.0.id;
          })
          (select
            (λ (blp : (VoucherBatch × Location) × Plan). blp.0.1.tenant_id == claims.tenant_id)
            rows)))

pub record VoucherRow : Type 0 where
  pub id : String
  pub code' : String
  pub status : String
  pub used_by_phone : String
  pub expires_at : Option ℕ
  pub activated_at : Option ℕ
  pub created_at : ℕ

-- vouchers v JOIN voucher_batches vb ... JOIN locations l ...
unfoldable pub get_voucher_batch :
    Bool
    → (String → Option ℕ)
    → (String → ℕ)
    → (List VoucherRow → List VoucherRow)
    → UserClaims
    → String
    → Db
    → Reply (List VoucherRow)
unfolding join select
get_voucher_batch reached activated_at created_at oldest claims batch_id db =
    let batched =
      join (λ (v : Voucher) vb. same_option v.batch_id (some vb.id)) db.vouchers
        db.voucher_batches in
    let rows =
      join (λ (vb : Voucher × VoucherBatch) l. vb.1.location_id == l.id) batched db.locations in
    listing reached "query failed" (
      oldest (
        map
          (λ (vbl : (Voucher × VoucherBatch) × Location). record {
            id = vbl.0.0.id;
            code' = vbl.0.0.code;
            status = vbl.0.0.status;
            used_by_phone = coalesce vbl.0.0.used_by_phone "";
            expires_at = vbl.0.0.expires_at;
            activated_at = activated_at vbl.0.0.id;
            created_at = created_at vbl.0.0.id;
          })
          (select
            (λ (vbl : (Voucher × VoucherBatch) × Location).
              same_option vbl.0.0.batch_id (some batch_id) && vbl.1.tenant_id == claims.tenant_id)
            rows)))
