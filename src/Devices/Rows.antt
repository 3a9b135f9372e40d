-- ===== src/Devices/Rows.antt =====
-- The rows of devices after a change of an address.
use myfipay.Base.{
  ◌≡◌, ◌≢◌, refl, ap, sym, subst, ◌∙◌, inl, inr, String, List, [], ◌∷◌, Bool, true, false, not,
  ◌&&◌, if◌then◌else◌, Bool-cases, ◌==◌, string_eq, ==→eq, ne→==, ==-refl, arith,
}
use myfipay.Sql.{update_where, exists}
use myfipay.Sql.Keys.{is_key, AllRows, is_key-cons, is_key-head, is_key-tail, update_where-none}
use myfipay.Db.{Device}

abbrev pub id_of : Device → String
id_of d = d.id

abbrev pub ip_of : Device → String
ip_of d = d.nas_ip

abbrev pub moved : String → String → Device → Device
moved name ip d = record d { name = name; nas_ip = ip }

abbrev pub is_other : String → String → Device → Bool
is_other id ip d = d.nas_ip == ip && not (d.id == id)

not_here : (a b c : Bool) → (if a && not b then true else c) ≡ false → b ≡ false → a ≡ false
not_here a b c h e = ground arith

not_there : (a c : Bool) → (if a then true else c) ≡ false → c ≡ false
not_there a c h = ground arith

free-of :
    (id ip : String) (rows : List Device)
    → exists (is_other id ip) rows ≡ false
    → exists (λ d. d.id == id) rows ≡ false
    → exists (λ d. d.nas_ip == ip) rows ≡ false
unfolding exists
free-of id ip [] taken absent = refl
free-of id ip (d ∷ rows) taken absent = ground (arith, free-of id ip rows, taken, absent)

move-misses :
    (id name ip a : String) (rows : List Device)
    → (ip == a) ≡ false
    → exists (λ d. d.nas_ip == a) rows ≡ false
    → exists (λ d. d.nas_ip == a) (update_where (λ d. d.id == id) (moved name ip) rows).0 ≡ false
unfolding exists update_where
move-misses id name ip a [] ne h = refl
move-misses id name ip a (d ∷ rows) ne h = elim (Bool-cases (d.id == id)) [
  | inl hit ↦ rw hit (rw ne (move-misses id name ip a rows ne (not_there (d.nas_ip == a) _ h)))
  | inr miss ↦ rw miss (
      rw (head (d.nas_ip == a) _ h)
        (move-misses id name ip a rows ne (not_there (d.nas_ip == a) _ h)))
]
  where
    head : (b c : Bool) → (if b then true else c) ≡ false → b ≡ false
    head b c h = ground arith

==-sym : (a b : String) → (a == b) ≡ false → (b == a) ≡ false
==-sym a b h = ne→== b a (λ e. clash (subst (λ x. (x == b) ≡ false) (sym e) h))
  where
    clash : (b == b) ≢ false
    clash z = absurd ((λ (w : true ≢ false). w (sym (==-refl b) ∙ z)) (λ w. cc))

-- The UPDATE of the devices, where no other router has the address.
pub move-is_key :
    (id name ip : String) (rows : List Device)
    → is_key id_of rows ≡ true
    → is_key ip_of rows ≡ true
    → exists (is_other id ip) rows ≡ false
    → is_key ip_of (update_where (λ d. d.id == id) (moved name ip) rows).0 ≡ true
unfolding update_where exists
move-is_key id name ip [] ids ips taken = ips
move-is_key id name ip (d ∷ rows) ids ips taken = elim (Bool-cases (d.id == id)) [
  | inl hit ↦
      let absent =
        subst (λ i. exists (λ y. y.id == i) rows ≡ false) (==→eq d.id id hit)
          (is_key-head id_of d rows ids) in
      let after =
        is_key-cons ip_of (moved name ip d) rows
          (free-of id ip rows (not_there (is_other id ip d) _ taken) absent)
          (is_key-tail ip_of d rows ips) in
      rw hit (rw (update_where-none (λ y. y.id == id) (moved name ip) rows absent) after)
  | inr miss ↦ rw miss (
      is_key-cons ip_of d _
        (move-misses id name ip d.nas_ip rows
          (==-sym d.nas_ip ip (not_here (d.nas_ip == ip) (d.id == id) _ taken miss))
          (is_key-head ip_of d rows ips))
        (move-is_key id name ip rows (is_key-tail id_of d rows ids) (is_key-tail ip_of d rows ips)
          (not_there (is_other id ip d) _ taken)))
]

-- The address of a router is free for it, as addresses are unique.
pub own_free :
    (id : String) (d : Device) (rows : List Device)
    → d.id ≡ id
    → AllRows (λ x. (ip_of x == d.nas_ip) ≡ true → x ≡ d) rows
    → exists (is_other id d.nas_ip) rows ≡ false
unfolding exists
own_free id d [] same only = refl
own_free id d (x ∷ rows) same (head, tail) = elim (Bool-cases (x.nas_ip == d.nas_ip)) [
  | inl hit ↦ rw hit (
      rw (ap (λ y. y.id == id) (head hit) ∙ ap (λ i. i == id) same ∙ ==-refl id)
        (own_free id d rows same tail))
  | inr miss ↦ rw miss (own_free id d rows same tail)
]
