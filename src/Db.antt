-- ===== src/Db.antt =====
-- The tables that the handlers share (api/db/migrations), with the columns that they read or write.
-- A column that may be NULL is an option; a time is in seconds.
pub mod Sample
use myfipay.Base.{ℕ, String, Bool, true, false, Option, List, ◌↔◌, ◌≡◌, arith, HasEq}

pub record Tenant : Type 0 where
  pub id : String
  pub name : String
  pub slug : String
  pub kind : String
  pub status : String
  -- settings->>'commission_rate', "" where it is not set
  pub commission_rate : String

-- The object of the column branding.
pub record Branding : Type 0 where
  pub portal_name : String
  pub tagline : String
  pub primary_color : String
  pub logo_url : String

pub record Location : Type 0 where
  pub id : String
  pub tenant_id : String
  pub name : String
  pub address : String
  pub portal_slug : String
  pub branding : Option Branding
  pub status : String

pub record User : Type 0 where
  pub id : String
  pub tenant_id : String
  pub email : String
  pub phone : String
  pub name : String
  pub role : String
  pub password : String
  pub status : String
  pub last_login : Option ℕ

pub record Plan : Type 0 where
  pub id : String
  pub location_id : String
  pub name : String
  pub price_ugx : ℕ
  pub duration_mins : ℕ
  pub speed_down_kbps : Option ℕ
  pub speed_up_kbps : Option ℕ
  pub active : Bool

pub record Payment : Type 0 where
  pub id : String
  pub location_id : String
  pub plan_id : Option String
  pub customer_phone : String
  pub amount_ugx : ℕ
  pub method : String
  pub status : String
  pub zengapay_ref : Option String
  -- metadata->>'payment_id' and metadata->>'session_id'
  pub portal_payment : Option String
  pub session_id : String

pub record Session : Type 0 where
  pub id : String
  pub location_id : String
  pub plan_id : Option String
  pub username : String
  pub customer_phone : String
  pub mac_address : Option String
  pub status : String
  pub expires_at : ℕ
  pub terminated_at : Option ℕ

pub record RadRow : Type 0 where
  pub username : String
  pub attribute : String
  pub op : String
  pub value : String

pub record Referral : Type 0 where
  pub agent_id : String
  pub operator_id : String

pub record Commission : Type 0 where
  pub agent_id : String
  pub operator_id : String
  pub payment_id : String
  pub amount_ugx : ℕ
  pub settled : Bool

pub record VoucherBatch : Type 0 where
  pub id : String
  pub location_id : String
  pub plan_id : String
  pub quantity : ℕ
  pub note : String

pub record Voucher : Type 0 where
  pub id : String
  pub batch_id : Option String
  pub location_id : String
  pub plan_id : String
  pub code : String
  pub status : String
  pub used_by_phone : Option String
  pub expires_at : Option ℕ

-- A router; its tunnel identity may be missing.
pub record Device : Type 0 where
  pub id : String
  pub location_id : String
  pub name : String
  pub nas_ip : String
  pub wg_ip : Option String
  pub wg_private_key : Option String
  pub radius_secret : String

-- A RADIUS client of FreeRADIUS.
pub record Nas : Type 0 where
  pub nasname : String
  pub shortname : String
  pub secret : String
  pub description : String

-- A row of radacct; it is open until it has a stop time.
pub record AcctRow : Type 0 where
  pub username : String
  pub acct_session_id : String
  pub nas_ip : String
  pub calling_station_id : Option String
  pub framed_ip : String
  pub stopped : Bool

-- The status column of payouts and payout_requests.
pub data PayoutStatus : Type 0 where
  pending approved paid rejected : PayoutStatus

abbrev pub same_status : PayoutStatus → PayoutStatus → Bool
same_status pending pending = true
same_status approved approved = true
same_status paid paid = true
same_status rejected rejected = true
same_status _ _ = false

pub same_status_iff : (a b : PayoutStatus) → (same_status a b ≡ true) ↔ (a ≡ b)
same_status_iff pending b = ground arith
same_status_iff approved b = ground arith
same_status_iff paid b = ground arith
same_status_iff rejected b = ground arith

instance abbrev pub status_eq : HasEq PayoutStatus
status_eq = record { equals = same_status; equals_iff = same_status_iff }

pub record Payout : Type 0 where
  pub id : String
  pub tenant_id : String
  pub requested_by : String
  pub amount_ugx : ℕ
  pub momo_phone : String
  pub momo_name : Option String
  pub note : Option String
  pub status : PayoutStatus
  pub reference : Option String
  pub rejection_reason : Option String
  pub reviewed_by : Option String
  pub reviewed_at : Option ℕ
  pub paid_at : Option ℕ

pub record PayoutRequest : Type 0 where
  pub id : String
  pub agent_id : String
  pub amount_ugx : ℕ
  pub method : String
  pub phone : String
  pub status : PayoutStatus
  pub notes : String
  pub admin_notes : String
  pub processed_at : Option ℕ

pub record Db : Type 0 where
  pub tenants : List Tenant
  pub locations : List Location
  pub plans : List Plan
  pub payments : List Payment
  pub sessions : List Session
  pub vouchers : List Voucher
  pub voucher_batches : List VoucherBatch
  pub users : List User
  pub devices : List Device
  pub nas : List Nas
  pub radacct : List AcctRow
  pub radcheck : List RadRow
  pub radreply : List RadRow
  pub referrals : List Referral
  pub commissions : List Commission
  pub payouts : List Payout
  pub payout_requests : List PayoutRequest
