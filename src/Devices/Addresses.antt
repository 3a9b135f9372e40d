-- ===== src/Devices/Addresses.antt =====
-- One RADIUS client per address: no two routers have the same one.
use myfipay.Base.{
  ℕ, ◌≡◌, refl, sym, subst, ◌∙◌, inl, inr, String, List, [], ◌∷◌, Option, none, some, Bool, true,
  false, not, ◌&&◌, ◌||◌, if◌then◌else◌, if-cases, Bool-cases, ◌==◌, string_eq, ==→eq, arith,
}
use myfipay.Http.{Reply, respond}
use myfipay.Sql.{exists, first_sound}
use myfipay.Sql.Keys.{
  is_key, AllRows, first-AllRows, is_key-cons, is_key-delete_where, is_key-update_where,
}
use myfipay.Db.{Db, Device}
use myfipay.Middleware.{UserClaims, Net}
use myfipay.Operator.{owns}
use myfipay.Devices.{
  DeviceForm, gen_device_secret, device_by_id, ip_taken, ipv4_of, new_device, new_nas,
  insert_device, create_at, create_device, move_device, update_at, update_to, update_device,
  delete_found, delete_device, db_failed,
}
use myfipay.Devices.Rows.{id_of, ip_of, moved, is_other, move-is_key, own_free}

-- The ids and the addresses of the routers are unique.
abbrev pub IsKeyed : Db → Type 0
IsKeyed db = (is_key id_of db.devices ≡ true) × (is_key ip_of db.devices ≡ true)

-- One operation on the routers, of any operator, with its draws and the statements that go through.
pub data Operation : Type 0 where
  create : (ℕ → Bool) → Option (ℕ → ℕ) → UserClaims → String → Option DeviceForm → Operation
  update : (ℕ → Bool) → UserClaims → String → Option (String × String) → Operation
  remove : (ℕ → Bool) → UserClaims → String → Operation

-- The query for routers with the same address goes through.
abbrev looks_up : Operation → Bool
looks_up (create ok draw claims id form) = ok 1
looks_up (update ok claims id form) = ok 1
looks_up (remove ok claims id) = true

abbrev pub AllLookUp : List Operation → Type 0
AllLookUp [] = Unit
AllLookUp (op ∷ ops) = (looks_up op ≡ true) × AllLookUp ops

first_id :
    (db : Db) (tenant id : String) (d : Device) → device_by_id db id tenant ≡ some d → d.id ≡ id
unfolding device_by_id
first_id db tenant id d h = ==→eq d.id id (
    both (d.id == id) (owns db tenant d.location_id)
      (first_sound (λ x. x.id == id && owns db tenant x.location_id) db.devices h))
  where
    both : (a b : Bool) → a && b ≡ true → a ≡ true
    both a b h = ground arith

only_row :
    (db : Db) (tenant id : String) (d : Device)
    → is_key ip_of db.devices ≡ true
    → device_by_id db id tenant ≡ some d
    → AllRows (λ x. (ip_of x == d.nas_ip) ≡ true → x ≡ d) db.devices
unfolding device_by_id
only_row db tenant id d ips h =
    first-AllRows ip_of (λ x. x.id == id && owns db tenant x.location_id) db.devices d ips h

module _ (net : Net) where
  unfoldable pub perform : Operation → Db → Db
  unfolding create_device update_device delete_device
  perform (create ok draw claims id form) db = (create_device net ok draw claims id form db).1
  perform (update ok claims id form) db = (update_device net ok claims id form db).1
  perform (remove ok claims id) db = (delete_device ok claims id db).1

  unfoldable pub perform_all : List Operation → Db → Db
  unfolding perform
  perform_all [] db = db
  perform_all (op ∷ ops) db = perform_all ops (perform op db)

  insert-IsKeyed :
      (ok : ℕ → Bool) (claims : UserClaims) (id : String) (req : DeviceForm) (ip : String)
      (secret : Option String) (db : Db)
      → exists (λ d. d.nas_ip == ip) db.devices ≡ false
      → IsKeyed db
      → IsKeyed (insert_device net ok claims id req ip secret db).1
  unfolding device_by_id
  insert-IsKeyed ok claims id req ip none db free keyed = keyed
  insert-IsKeyed ok claims id req ip (some secret) db free keyed =
      let P : Reply Device × Db → Type 0 = λ r. IsKeyed r.1 in
      let after = record db {
        devices = new_device id req ip secret ∷ db.devices;
        nas = new_nas id req ip secret ∷ db.nas;
      } in
      if-cases P (not (ok 2)) (λ _. keyed)
        (λ _.
          if-cases P (not (ok 3) || exists (λ d. d.id == id) db.devices) (λ _. keyed)
            (λ fresh.
              if-cases P (not (ok 4)) (λ _. keyed)
                (λ _.
                  if-cases P (not (ok 5)) (λ _. keyed)
                    (λ _.
                      loaded (if ok 6 then device_by_id after id claims.tenant_id else none) after (
                        is_key-cons id_of (new_device id req ip secret) db.devices
                            (right (not (ok 3)) (exists (λ d. d.id == id) db.devices) fresh)
                            keyed.0,
                        is_key-cons ip_of (new_device id req ip secret) db.devices free keyed.1,
                      )))))
    where
      right : (a b : Bool) → a || b ≡ false → b ≡ false
      right a b h = ground arith

      loaded :
          (row : Option Device) (after : Db)
          → IsKeyed after
          → IsKeyed
              (elim row as (λ x. Reply Device × Db) [
                | none ↦ (db_failed "device saved but could not be loaded", after)
                | some d ↦ (respond 201 d, after)
              ]).1
      loaded none after h = h
      loaded (some d) after h = h

  create-IsKeyed :
      (ok : ℕ → Bool) (draw : Option (ℕ → ℕ)) (claims : UserClaims) (id : String)
      (form : Option DeviceForm) (db : Db)
      → ok 1 ≡ true
      → IsKeyed db
      → IsKeyed (create_device net ok draw claims id form db).1
  unfolding create_device
  create-IsKeyed ok draw claims id none db up keyed = keyed
  create-IsKeyed ok draw claims id (some req) db up keyed =
      if-cases (λ (r : Reply Device × Db). IsKeyed r.1) (req.name == "" || req.location_id == "")
        (λ _. keyed) (λ _. at (ipv4_of net req.nas_ip))
    where
      taken-free : (a b : Bool) → a ≡ true → a && b ≡ false → b ≡ false
      taken-free a b h g = ground arith

      at : (o : Option String) → IsKeyed (create_at net ok draw claims id req o db).1
      at none = keyed
      at (some ip) =
          if-cases (λ (r : Reply Device × Db). IsKeyed r.1)
            (not (ok 0 && owns db claims.tenant_id req.location_id)) (λ _. keyed)
            (λ _.
              if-cases (λ (r : Reply Device × Db). IsKeyed r.1)
                (ok 1 && exists (λ d. d.nas_ip == ip) db.devices) (λ _. keyed)
                (λ free.
                  insert-IsKeyed ok claims id req ip (gen_device_secret draw) db
                    (taken-free (ok 1) _ up free) keyed))

  move-IsKeyed :
      (id name ip : String) (db : Db)
      → exists (is_other id ip) db.devices ≡ false
      → IsKeyed db
      → IsKeyed (move_device net id name ip db)
  move-IsKeyed id name ip db free (ids, ips) = (
    is_key-update_where id_of (λ d. d.id == id) (moved name ip) (λ d. refl) db.devices ∙ ids,
    move-is_key id name ip db.devices ids ips free,
  )

  -- The address is the router's own, or it was looked up.
  free_for :
      (ok : ℕ → Bool) (id ip : String) (d : Device) (db : Db)
      → ok 1 ≡ true
      → d.id ≡ id
      → AllRows (λ x. (ip_of x == d.nas_ip) ≡ true → x ≡ d) db.devices
      → not (ip == d.nas_ip) && ok 1 && ip_taken db ip id ≡ false
      → exists (is_other id ip) db.devices ≡ false
  unfolding ip_taken
  free_for ok id ip d db up same only h = elim (Bool-cases (ip == d.nas_ip)) [
    | inl own ↦
        subst (λ a. exists (is_other id a) db.devices ≡ false) (sym (==→eq ip d.nas_ip own))
          (own_free id d db.devices same only)
    | inr new ↦ looked_up (ip == d.nas_ip) (ok 1) _ new up h
  ]
    where
      looked_up : (a b c : Bool) → a ≡ false → b ≡ true → not a && b && c ≡ false → c ≡ false
      looked_up a b c e f h = ground arith

  update-IsKeyed :
      (ok : ℕ → Bool) (claims : UserClaims) (id : String) (form : Option (String × String))
      (db : Db)
      → ok 1 ≡ true
      → IsKeyed db
      → IsKeyed (update_device net ok claims id form db).1
  unfolding update_device
  update-IsKeyed ok claims id none db up keyed = keyed
  update-IsKeyed ok claims id (some (name, nas_ip)) db up keyed =
      if-cases (λ (r : Reply String × Db). IsKeyed r.1) (name == "") (λ _. keyed)
        (λ _. to (ipv4_of net nas_ip))
    where
      at :
          (ip : String) (o : Option Device)
          → ((d : Device) → o ≡ some d → device_by_id db id claims.tenant_id ≡ some d)
          → IsKeyed (update_at net ok id name ip o db).1
      at ip none found = keyed
      at ip (some d) found =
          if-cases (λ (r : Reply String × Db). IsKeyed r.1)
            (not (ip == d.nas_ip) && ok 1 && ip_taken db ip id) (λ _. keyed)
            (λ free.
              if-cases (λ (r : Reply String × Db). IsKeyed r.1) (not (ok 2)) (λ _. keyed)
                (λ _.
                  if-cases (λ (r : Reply String × Db). IsKeyed r.1)
                    (not (ok 3 && ok 4 && ok 5 && ok 6)) (λ _. keyed)
                    (λ _.
                      move-IsKeyed id name ip db
                        (free_for ok id ip d db up
                          (first_id db claims.tenant_id id d (found d refl))
                          (only_row db claims.tenant_id id d keyed.1 (found d refl)) free)
                        keyed)))

      found :
          (b : Bool) (d : Device)
          → (if b then device_by_id db id claims.tenant_id else none) ≡ some d
          → device_by_id db id claims.tenant_id ≡ some d
      found true d h = h
      found false d h = cc

      to : (o : Option String) → IsKeyed (update_to net ok claims id name o db).1
      to none = keyed
      to (some ip) =
          at ip (if ok 0 then device_by_id db id claims.tenant_id else none) (found (ok 0))

  delete-IsKeyed :
      (ok : ℕ → Bool) (claims : UserClaims) (id : String) (db : Db)
      → IsKeyed db
      → IsKeyed (delete_device ok claims id db).1
  unfolding delete_device
  delete-IsKeyed ok claims id db keyed =
      at (if ok 0 then device_by_id db id claims.tenant_id else none)
    where
      at : (o : Option Device) → IsKeyed (delete_found ok id o db).1
      at none = keyed
      at (some d) =
          if-cases (λ (r : Reply String × Db). IsKeyed r.1) (not (ok 1)) (λ _. keyed)
            (λ _.
              if-cases (λ (r : Reply String × Db). IsKeyed r.1) (not (ok 2 && ok 3 && ok 4))
                (λ _. keyed)
                (λ _. (
                  is_key-delete_where id_of (λ d. d.id == id) db.devices keyed.0,
                  is_key-delete_where ip_of (λ d. d.id == id) db.devices keyed.1,
                )))

  perform-IsKeyed :
      (op : Operation) (db : Db) → looks_up op ≡ true → IsKeyed db → IsKeyed (perform op db)
  unfolding perform
  perform-IsKeyed (create ok draw claims id form) db up keyed =
      create-IsKeyed ok draw claims id form db up keyed
  perform-IsKeyed (update ok claims id form) db up keyed =
      update-IsKeyed ok claims id form db up keyed
  perform-IsKeyed (remove ok claims id) db up keyed = delete-IsKeyed ok claims id db keyed

-- Over any sequence of registrations, changes and removals of routers, by any operators, of which each
-- query for a router with the same address goes through, no two routers have the same id or the same
-- address, where this holds to begin with.
pub perform_all-IsKeyed :
    (net : Net) (ops : List Operation) (db : Db)
    → AllLookUp ops
    → IsKeyed db
    → IsKeyed (perform_all net ops db)
unfolding perform_all
perform_all-IsKeyed net [] db up keyed = keyed
perform_all-IsKeyed net (op ∷ ops) db (up, rest) keyed =
    perform_all-IsKeyed net ops (perform net op db) rest (perform-IsKeyed net op db up keyed)
