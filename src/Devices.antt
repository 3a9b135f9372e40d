-- ===== src/Devices.antt =====
-- The routers of an operator (api/internal/handlers/device.go): the rows of devices, and the RADIUS
-- clients in the nas table. The operations on both are transactions. The bytes of a secret, ids and the
-- next number of the sequence of tunnel addresses are drawn for the call.
pub mod Rows
pub mod Addresses
mod Tests
use myfipay.Base.{
  ℕ, String, ◌∷◌, Option, none, some, Bool, true, false, not, ◌&&◌, ◌||◌, coalesce, if◌then◌else◌,
  ◌==◌, string_eq, nat_eq,
}
use Prim.Native.String.{◌++◌ as concat}
use myfipay.Text.{random_text, first_eight}
use myfipay.Http.{Reply, respond, respond_error}
use myfipay.Sql.{update_where, delete_where, exists, first}
use myfipay.Db.{Db, Device, Nas}
use myfipay.Middleware.{UserClaims, Net}
use myfipay.Operator.{owns}

abbrev secret_charset : String
secret_charset = "abcdefghijkmnpqrstuvwxyzABCDEFGHJKLMNPQRSTUVWXYZ23456789"

-- Twenty-four random bytes, none where the source of randomness fails.
unfoldable pub gen_device_secret : Option (ℕ → ℕ) → Option String
unfolding random_text
gen_device_secret none = none
gen_device_secret (some draw) = some (random_text secret_charset draw 0 24)

-- The addresses under which a router may appear.
unfoldable pub radius_ips : Device → String × String
radius_ips d =
    let wg_ip = coalesce d.wg_ip "" in
    if wg_ip == "" then (d.nas_ip, d.nas_ip) else (d.nas_ip, wg_ip)

unfoldable pub device_by_id : Db → String → String → Option Device
unfolding first owns
device_by_id db device_id tenant =
    first (λ d. d.id == device_id && owns db tenant d.location_id) db.devices

pub record DeviceForm : Type 0 where
  pub name : String
  pub location_id : String
  pub nas_ip : String

-- The answer where a statement of a transaction fails; the database stays as it was.
abbrev pub db_failed : {A : Type 0} → String → Reply A
db_failed message = respond_error 500 "DB_ERROR" message

-- "mfb-" + deviceID[:8]
unfoldable pub shortname_of : String → String
unfolding first_eight
shortname_of device_id = concat "mfb-" (first_eight device_id)

abbrev pub new_device : String → DeviceForm → String → String → Device
new_device id req ip secret = record {
  id = id;
  location_id = req.location_id;
  name = req.name;
  nas_ip = ip;
  wg_ip = none;
  wg_private_key = none;
  radius_secret = secret;
}

abbrev pub new_nas : String → DeviceForm → String → String → Nas
new_nas id req ip secret = record {
  nasname = ip;
  shortname = shortname_of id;
  secret = secret;
  description = req.name;
}

-- SELECT EXISTS(SELECT 1 FROM devices WHERE nas_ip = $1 AND id <> $2)
unfoldable pub ip_taken : Db → String → String → Bool
unfolding exists
ip_taken db ip besides = exists (λ d. d.nas_ip == ip && not (d.id == besides)) db.devices

module _ (net : Net) where
  -- The text of an IPv4 address.
  abbrev pub four_bytes : Option net.Ip → Option String
  four_bytes none = none
  four_bytes (some ip) = elim (net.to4 ip) [ none ↦ none | some four ↦ some (net.ip_string ip) ]

  unfoldable pub ipv4_of : String → Option String
  ipv4_of text = four_bytes (net.parse_ip text)

  -- From the secret on: the two INSERTs of the transaction, and the row that is read back.
  abbrev pub insert_device :
      (ℕ → Bool)
      → UserClaims
      → String
      → DeviceForm
      → String
      → Option String
      → Db
      → Reply Device × Db
  insert_device ok claims id req ip none db =
      (respond_error 500 "SECRET_ERROR" "could not generate secret", db)
  insert_device ok claims id req ip (some secret) db =
      let after = record db {
        devices = new_device id req ip secret ∷ db.devices;
        nas = new_nas id req ip secret ∷ db.nas;
      } in
      if not (ok 2)
      then (db_failed "could not start transaction", db)
      else if not (ok 3) || exists (λ d. d.id == id) db.devices
      then (db_failed "could not register device", db)
      else if not (ok 4)
      then (db_failed "could not register RADIUS client", db)
      else if not (ok 5)
      then (db_failed "could not save device", db)
      else elim (if ok 6 then device_by_id after id claims.tenant_id else none) [
        | none ↦ (db_failed "device saved but could not be loaded", after)
        | some d ↦ (respond 201 d, after)
      ]

  abbrev pub create_at :
      (ℕ → Bool)
      → Option (ℕ → ℕ)
      → UserClaims
      → String
      → DeviceForm
      → Option String
      → Db
      → Reply Device × Db
  create_at ok draw claims id req none db = (
    respond_error 422 "VALIDATION_ERROR"
        "nas_ip must be a valid IPv4 address (your router's public IP)",
    db,
  )
  create_at ok draw claims id req (some ip) db =
      let inserted = insert_device ok claims id req ip (gen_device_secret draw) db in
      if not (ok 0 && owns db claims.tenant_id req.location_id)
      then (respond_error 404 "NOT_FOUND" "location not found", db)
      else if ok 1 && exists (λ d. d.nas_ip == ip) db.devices
      then (respond_error 409 "CONFLICT" "a router with this IP address is already registered", db)
      else inserted

  unfoldable pub create_device :
      (ℕ → Bool) → Option (ℕ → ℕ) → UserClaims → String → Option DeviceForm → Db → Reply Device × Db
  unfolding gen_device_secret ipv4_of owns exists device_by_id shortname_of
  create_device ok draw claims id none db =
      (respond_error 400 "VALIDATION_ERROR" "name, location_id and nas_ip are required", db)
  create_device ok draw claims id (some req) db =
      let created = create_at ok draw claims id req (ipv4_of req.nas_ip) db in
      if req.name == "" || req.location_id == ""
      then (respond_error 400 "VALIDATION_ERROR" "name, location_id and nas_ip are required", db)
      else created

  -- The three UPDATEs of the transaction.
  abbrev pub move_device : String → String → String → Db → Db
  move_device id name ip db =
      let described =
        (update_where (λ n. n.shortname == shortname_of id)
          (λ n. record n { nasname = ip; description = name }) db.nas).0 in
      record db {
        devices =
            (update_where (λ d. d.id == id) (λ d. record d { name = name; nas_ip = ip })
              db.devices).0;
        nas =
            (update_where (λ n. n.shortname == concat (shortname_of id) "-wg")
              (λ n. record n { description = concat name " (tunnel)" }) described).0;
      }

  abbrev pub update_at :
      (ℕ → Bool) → String → String → String → Option Device → Db → Reply String × Db
  update_at ok id name ip none db = (respond_error 404 "NOT_FOUND" "device not found", db)
  update_at ok id name ip (some d) db =
      if not (ip == d.nas_ip) && ok 1 && ip_taken db ip id
      then (respond_error 409 "CONFLICT" "a router with this IP address is already registered", db)
      else if not (ok 2)
      then (db_failed "could not start transaction", db)
      else if not (ok 3 && ok 4 && ok 5 && ok 6)
      then (db_failed "could not update device", db)
      else (respond 200 "device updated", move_device id name ip db)

  abbrev pub update_to :
      (ℕ → Bool) → UserClaims → String → String → Option String → Db → Reply String × Db
  update_to ok claims id name none db =
      (respond_error 422 "VALIDATION_ERROR" "nas_ip must be a valid IPv4 address", db)
  update_to ok claims id name (some ip) db =
      update_at ok id name ip (if ok 0 then device_by_id db id claims.tenant_id else none) db

  -- The form has a name and an address.
  unfoldable pub update_device :
      (ℕ → Bool) → UserClaims → String → Option (String × String) → Db → Reply String × Db
  unfolding ipv4_of device_by_id ip_taken shortname_of update_where
  update_device ok claims id none db =
      (respond_error 400 "VALIDATION_ERROR" "name and nas_ip are required", db)
  update_device ok claims id (some (name, nas_ip)) db =
      let updated = update_to ok claims id name (ipv4_of nas_ip) db in
      if name == ""
      then (respond_error 400 "VALIDATION_ERROR" "name and nas_ip are required", db)
      else updated

-- The two DELETEs of the transaction; the commit fails where one of them did.
abbrev pub remove_device : String → Db → Db
remove_device id db = record db {
  nas =
      delete_where
        (λ n. n.shortname == shortname_of id || n.shortname == concat (shortname_of id) "-wg")
        db.nas;
  devices = delete_where (λ d. d.id == id) db.devices;
}

abbrev pub delete_found : (ℕ → Bool) → String → Option Device → Db → Reply String × Db
delete_found ok id none db = (respond_error 404 "NOT_FOUND" "device not found", db)
delete_found ok id (some d) db =
    if not (ok 1)
    then (db_failed "could not start transaction", db)
    else if not (ok 2 && ok 3 && ok 4)
    then (db_failed "could not remove device", db)
    else (respond 200 "device removed", remove_device id db)

unfoldable pub delete_device : (ℕ → Bool) → UserClaims → String → Db → Reply String × Db
unfolding device_by_id shortname_of delete_where
delete_device ok claims id db =
    delete_found ok id (if ok 0 then device_by_id db id claims.tenant_id else none) db

-- ensureWG: the tunnel address and the private key of a device. `keypair` is what
-- wireguard.GenerateKeypair gives, and `tunnel_ip` the address of the next number of the sequence.
abbrev pub identity_of : Device → String × String
identity_of d = (coalesce d.wg_ip "", coalesce d.wg_private_key "")

-- UPDATE devices ... WHERE id = $3 AND wg_ip IS NULL RETURNING host(wg_ip): wg_ip is UNIQUE.
abbrev has_wg_ip : Device → Bool
has_wg_ip d = elim d.wg_ip [ none ↦ false | some ip ↦ true ]

abbrev has_this_ip : String → Device → Bool
has_this_ip ip d = elim d.wg_ip [ none ↦ false | some other ↦ other == ip ]

abbrev pub provision :
    (ℕ → Bool) → String → String → Option (String × String) → Db → Option (String × String) × Db
provision ok id tunnel_ip none db = (none, db)
provision ok id tunnel_ip (some (priv, public_key)) db =
    let (rows, n) =
      update_where (λ d. d.id == id && not (has_wg_ip d))
        (λ d. record d { wg_ip = some tunnel_ip; wg_private_key = some priv }) db.devices in
    let theirs : Option (String × String) =
      elim (if ok 2 then first (λ d. d.id == id && has_wg_ip d) db.devices else none) [
        | none ↦ none
        | some d ↦ some (identity_of d)
      ] in
    if not (ok 1) || n == 0 || exists (has_this_ip tunnel_ip) db.devices
    then (theirs, db)
    else (some (tunnel_ip, priv), record db { devices = rows })

abbrev pub ensure_found :
    (ℕ → Bool)
    → String
    → String
    → Option (String × String)
    → Option Device
    → Db
    → Option (String × String) × Db
ensure_found ok id tunnel_ip keypair none db = (none, db)
ensure_found ok id tunnel_ip keypair (some d) db =
    let (wg_ip, priv) = identity_of d in
    let provisioned = provision ok id tunnel_ip keypair db in
    if not (wg_ip == "") && not (priv == "") then (some (wg_ip, priv), db) else provisioned

unfoldable pub ensure_wg :
    (ℕ → Bool) → String → String → Option (String × String) → Db → Option (String × String) × Db
unfolding first update_where exists
ensure_wg ok id tunnel_ip keypair db =
    ensure_found ok id tunnel_ip keypair (if ok 0 then first (λ d. d.id == id) db.devices else none)
      db
