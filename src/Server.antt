-- ===== src/Server.antt =====
-- The routes with what guards them, and CORS (api/internal/server/server.go).
pub mod Guards
mod Tests
use myfipay.Base.{
  ℕ, ◌≡◌, ◌⊎◌, inl, inr, String, List, [], ◌∷◌, Option, none, some, Bool, true, false, not, ◌&&◌,
  if◌then◌else◌, ◌==◌, string_eq, map,
}
use myfipay.Text.{trim_slashes_right}
use myfipay.Sql.{exists, first}
use myfipay.Middleware.{
  Jwt, Net, Request, Rejection, UserClaims, require_auth, require_role, require_source_ip,
}

-- What stands in front of a handler: nothing, the source addresses of the gateway, the token, or the
-- token with a role.
pub data Guard : Type 0 where
  public webhook signed_in agents admins : Guard

pub data Method : Type 0 where
  get post put delete : Method

-- A route: its method, its pattern, its guard and the name of its handler.
abbrev pub Route : Type 0
Route = Method × String × Guard × String

unfoldable pub routes : List Route
routes =
    (get, "/health", public, "Health")
    ∷ (get, "/api/health", public, "Health")
    ∷ (get, "/portal/{slug}/", public, "PortalPage")
    ∷ (post, "/portal/{slug}/pay", public, "InitiatePayment")
    ∷ (get, "/portal/{slug}/pay/{paymentID}/status", public, "PaymentStatus")
    ∷ (post, "/portal/{slug}/voucher", public, "RedeemVoucher")
    ∷ (get, "/portal/{slug}/session", public, "SessionStatus")
    ∷ (post, "/webhooks/zengapay", webhook, "ZengapayWebhook")
    ∷ (post, "/api/auth/login", public, "Login")
    ∷ (post, "/api/auth/register", public, "Register")
    ∷ (post, "/api/auth/register/agent", public, "RegisterAgent")
    ∷ (post, "/api/auth/logout", signed_in, "Logout")
    ∷ (get, "/api/auth/me", signed_in, "Me")
    ∷ (put, "/api/auth/password", signed_in, "ChangePassword")
    ∷ (get, "/api/dashboard/stats", signed_in, "DashboardStats")
    ∷ (get, "/api/dashboard/revenue-chart", signed_in, "RevenueChart")
    ∷ (get, "/api/payments", signed_in, "ListPayments")
    ∷ (get, "/api/payouts", signed_in, "ListPayouts")
    ∷ (get, "/api/payouts/balance", signed_in, "GetPayoutBalance")
    ∷ (post, "/api/payouts", signed_in, "RequestOperatorPayout")
    ∷ (get, "/api/statement", signed_in, "OperatorStatement")
    ∷ (get, "/api/sessions", signed_in, "ListSessions")
    ∷ (post, "/api/sessions/grant", signed_in, "GrantSession")
    ∷ (post, "/api/sessions/{id}/extend", signed_in, "ExtendSession")
    ∷ (delete, "/api/sessions/{id}", signed_in, "TerminateSession")
    ∷ (get, "/api/locations", signed_in, "ListOperatorLocations")
    ∷ (post, "/api/locations", signed_in, "CreateLocation")
    ∷ (get, "/api/locations/{id}/branding", signed_in, "GetLocationBranding")
    ∷ (put, "/api/locations/{id}/branding", signed_in, "UpdateLocationBranding")
    ∷ (get, "/api/devices", signed_in, "ListDevices")
    ∷ (post, "/api/devices", signed_in, "CreateDevice")
    ∷ (put, "/api/devices/{id}", signed_in, "UpdateDevice")
    ∷ (delete, "/api/devices/{id}", signed_in, "DeleteDevice")
    ∷ (get, "/api/devices/{id}/script", signed_in, "DeviceScript")
    ∷ (get, "/api/devices/{id}/status", signed_in, "DeviceStatus")
    ∷ (get, "/api/devices/{id}/clients", signed_in, "DeviceClients")
    ∷ (get, "/api/plans", signed_in, "ListOperatorPlans")
    ∷ (post, "/api/plans", signed_in, "CreatePlan")
    ∷ (put, "/api/plans/{id}", signed_in, "UpdatePlan")
    ∷ (delete, "/api/plans/{id}", signed_in, "DeletePlan")
    ∷ (post, "/api/vouchers/batches", signed_in, "CreateVoucherBatch")
    ∷ (get, "/api/vouchers/batches", signed_in, "ListVoucherBatches")
    ∷ (get, "/api/vouchers/batches/{id}", signed_in, "GetVoucherBatch")
    ∷ (get, "/api/profile", signed_in, "GetProfile")
    ∷ (put, "/api/profile", signed_in, "UpdateProfile")
    ∷ (get, "/api/agent/dashboard", agents, "AgentDashboard")
    ∷ (get, "/api/agent/invite", agents, "AgentInviteLink")
    ∷ (get, "/api/agent/operators", agents, "AgentOperators")
    ∷ (get, "/api/agent/commissions", agents, "AgentCommissions")
    ∷ (post, "/api/agent/payouts", agents, "RequestPayout")
    ∷ (get, "/api/agent/payouts", agents, "ListPayoutRequests")
    ∷ (post, "/api/admin/operators", admins, "CreateOperator")
    ∷ (get, "/api/admin/kyc", admins, "ListKYCQueue")
    ∷ (post, "/api/admin/kyc/{id}/approve", admins, "ApproveKYC")
    ∷ (post, "/api/admin/kyc/{id}/reject", admins, "RejectKYC")
    ∷ (get, "/api/admin/tenants", admins, "ListTenants")
    ∷ (get, "/api/admin/revenue", admins, "PlatformRevenue")
    ∷ (get, "/api/admin/payouts", admins, "ListPayoutQueue")
    ∷ (post, "/api/admin/payouts/{id}/approve", admins, "ApprovePayout")
    ∷ (post, "/api/admin/payouts/{id}/reject", admins, "RejectPayout")
    ∷ (post, "/api/admin/payouts/{id}/mark-paid", admins, "MarkOperatorPayoutPaid")
    ∷ (get, "/api/admin/agents", admins, "ListAgents")
    ∷ (get, "/api/admin/agent-payouts", admins, "ListAllPayoutRequests")
    ∷ (post, "/api/admin/agent-payouts/{id}/approve", admins, "ApprovePayoutRequest")
    ∷ (post, "/api/admin/agent-payouts/{id}/paid", admins, "MarkPayoutPaid")
    ∷ (post, "/api/admin/agent-payouts/{id}/reject", admins, "RejectPayoutRequest")
    ∷ []

abbrev pub same_method : Method → Method → Bool
same_method get get = true
same_method post post = true
same_method put put = true
same_method delete delete = true
same_method _ _ = false

-- The route of a method and a pattern.
unfoldable pub route_of : Method → String → Option Route
unfolding first routes
route_of method pattern =
    first (λ (route : Route). same_method route.0 method && route.1 == pattern) routes

-- What a handler gets: nothing, or the claims of the caller.
abbrev pub admit_role : List String → Rejection ⊎ UserClaims → Rejection ⊎ Option UserClaims
admit_role roles (inl rejection) = inl rejection
admit_role roles (inr claims) = elim (require_role roles (some claims)) [
  | inl rejection ↦ inl rejection
  | inr claims ↦ inr (some claims)
]

abbrev pub admit_user : Rejection ⊎ UserClaims → Rejection ⊎ Option UserClaims
admit_user (inl rejection) = inl rejection
admit_user (inr claims) = inr (some claims)

abbrev admit_source : Option Rejection → Rejection ⊎ Option UserClaims
admit_source none = inr none
admit_source (some rejection) = inl rejection

module _ (jwt : Jwt) (net : Net) (secret : String) (nets : List net.Network) where
  -- The middleware of the groups, from the outside in.
  unfoldable pub admit : Guard → Request → Rejection ⊎ Option UserClaims
  unfolding require_auth require_role require_source_ip
  admit public r = inr none
  admit webhook r = admit_source (require_source_ip net nets r)
  admit signed_in r = admit_user (require_auth jwt secret r)
  admit agents r = admit_role ("agent" ∷ []) (require_auth jwt secret r)
  admit admins r = admit_role ("admin" ∷ "super_admin" ∷ []) (require_auth jwt secret r)

unfoldable pub origin_allowed : String → List String → Bool → Bool
unfolding trim_slashes_right exists
origin_allowed origin allowed dev_mode =
    if origin == ""
    then false
    else if exists (λ o. o == trim_slashes_right origin) allowed
    then true
    else dev_mode && elim allowed [ [] ↦ true | o ∷ os ↦ false ]

-- Access-Control-Allow-Origin, with credentials, and whether the request goes on to its handler.
unfoldable pub cors_middleware : List String → Bool → Request → Option String × Bool
unfolding origin_allowed
cors_middleware origins dev_mode r =
    let allowed = map trim_slashes_right origins in
    (if origin_allowed r.origin allowed dev_mode then some r.origin else none, not r.is_options)
