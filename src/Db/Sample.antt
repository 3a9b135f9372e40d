-- ===== src/Db/Sample.antt =====
-- A database without rows, for tests.
use myfipay.Base.{[]}
use myfipay.Db.{Db}

abbrev pub no_rows : Db
no_rows = record {
  tenants = [];
  locations = [];
  plans = [];
  payments = [];
  sessions = [];
  vouchers = [];
  voucher_batches = [];
  users = [];
  devices = [];
  nas = [];
  radacct = [];
  radcheck = [];
  radreply = [];
  referrals = [];
  commissions = [];
  payouts = [];
  payout_requests = [];
}
