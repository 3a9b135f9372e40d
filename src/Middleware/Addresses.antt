-- ===== src/Middleware/Addresses.antt =====
-- The addresses from which the gateway may call (api/internal/middleware/ipallow.go, with the list of
-- api/internal/config/config.go).
use mathlib.Core.List.{Memᴰ}
use myfipay.Base.{
  ==→eq, coalesce, suc, ◌≡◌, ◌≢◌, refl, ap, sym, subst, ◌∙◌, inl, inr, String, List, [], ◌∷◌,
  Option, none, some, Bool, true, false, not, ◌&&◌, if◌then◌else◌, Bool-cases, ◌==◌, string_eq,
  length, arith,
}
use myfipay.Text.{trim_space, split_commas}
use myfipay.Sql.{exists}
use myfipay.Config.{trim_parts, split_list}
use myfipay.Middleware.{
  Net, Request, Rejection, parse_entry, parse_parts, parse_ip_list, append_network, ip_allowed,
  client_ip, inside, has_nets, require_source_ip,
}

module _ (net : Net) where
  abbrev listed : Option (List net.Network) → List net.Network
  listed none = []
  listed (some ns) = ns

  append-inv :
      (entry : Option net.Network) (rest : Option (List net.Network)) (nets : List net.Network)
      → append_network net entry rest ≡ some nets
      → (others : List net.Network) × (rest ≡ some others) × (length nets ≡ suc (length others))
  append-inv none rest nets h = cc
  append-inv (some n) none nets h = cc
  append-inv (some n) (some others) nets h =
      (others, refl, ap (λ (o : Option (List net.Network)). length (listed o)) (sym h))

  parse_parts-length :
      (parts : List String) (nets : List net.Network)
      → parse_parts net parts ≡ some nets
      → length nets ≡ length (trim_parts parts)
  unfolding parse_parts trim_parts
  parse_parts-length [] nets h = ap (λ (o : Option (List net.Network)). length (listed o)) (sym h)
  parse_parts-length (part ∷ parts) nets h = elim (Bool-cases (trim_space part == "")) [
    | inl blank ↦ rw blank (
        parse_parts-length parts nets (
          subst
            (λ b.
              (if b
                then parse_parts net parts
                else append_network net (parse_entry net (trim_space part)) (parse_parts net parts))
              ≡ some nets)
            blank h))
    | inr full ↦
        let (others, e, more) =
          append-inv (parse_entry net (trim_space part)) (parse_parts net parts) nets (
            subst
              (λ b.
                (if b
                  then parse_parts net parts
                  else append_network net (parse_entry net (trim_space part))
                      (parse_parts net parts))
                ≡ some nets)
              full h) in
        rw full (more ∙ ap suc (parse_parts-length parts others e))
  ]

  not-empty :
      (nets : List net.Network) (parts : List String)
      → length nets ≡ length parts
      → parts ≢ []
      → has_nets net nets ≡ true
  not-empty [] [] same full = absurd (full refl)
  not-empty [] (p ∷ parts) same full = absurd (omega (arith, same))
  not-empty (n ∷ nets) parts same full = refl

-- The trusted address of a request: what the proxy wrote, or else the peer of the connection.
pub data ComesFrom (net : Net) (r : Request) : String → Type 0 where
  real_ip : trim_space r.x_real_ip ≢ "" → ComesFrom net r (trim_space r.x_real_ip)
  host :
      {address : String}
      → trim_space r.x_real_ip ≡ ""
      → net.split_host_port r.remote_addr ≡ some address
      → ComesFrom net r address
  peer :
      trim_space r.x_real_ip ≡ ""
      → net.split_host_port r.remote_addr ≡ none
      → ComesFrom net r r.remote_addr

client_ip-ComesFrom : (net : Net) (r : Request) → ComesFrom net r (client_ip net r)
unfolding client_ip
client_ip-ComesFrom net r = elim (Bool-cases (trim_space r.x_real_ip == "")) [
  | inl blank ↦ rw blank (connection (==→eq _ _ blank) (net.split_host_port r.remote_addr) refl)
  | inr given ↦ rw given (real_ip (λ e. cc (given, (string_eq.equals_iff _ _).1 e)))
]
  where
    connection :
        trim_space r.x_real_ip ≡ ""
        → (split : Option String) → net.split_host_port r.remote_addr ≡ split
        → ComesFrom net r (coalesce split r.remote_addr)
    connection blank (some address) e = host blank e
    connection blank none e = peer blank e

-- The address reads as one that a network of the list contains.
pub record IsInside (net : Net) (nets : List net.Network) (address : String) : Type 0 where
  pub ip : net.Ip
  pub network : net.Network
  pub reads : net.parse_ip (trim_space address) ≡ some ip
  pub in_list : Memᴰ network nets
  pub inside : net.contains network ip ≡ true

exists-Mem :
    {A : Type 0} (p : A → Bool) (xs : List A)
    → exists p xs ≡ true
    → (x : A) × Memᴰ x xs × (p x ≡ true)
unfolding exists
exists-Mem p [] h = cc
exists-Mem p (x ∷ xs) h = elim (Bool-cases (p x)) [
  | inl hit ↦ (x, Memᴰ.head refl, hit)
  | inr miss ↦
      let (y, m, e) =
        exists-Mem p xs (subst (λ b. (if b then true else exists p xs) ≡ true) miss h) in
      (y, Memᴰ.tail m, e)
]

ip_allowed-IsInside :
    (net : Net) (nets : List net.Network) (address : String)
    → ip_allowed net address nets ≡ true
    → IsInside net nets address
unfolding ip_allowed
ip_allowed-IsInside net nets address = parsed (net.parse_ip (trim_space address)) refl
  where
    parsed :
        (o : Option net.Ip)
        → net.parse_ip (trim_space address) ≡ o
        → inside net nets o ≡ true
        → IsInside net nets address
    parsed none e h = cc
    parsed (some ip) e h =
        let (n, m, c) = exists-Mem (λ n. net.contains n ip) nets h in
        record { ip = ip; network = n; reads = e; in_list = m; inside = c }

-- A list of addresses that has an entry which is not blank, and that is accepted as the allowlist of
-- the webhook, lets a request through only if its trusted address, the trimmed X-Real-IP or else the
-- host of its connection, reads as an address that a network of the list contains: the list is never
-- taken for the empty one, which lets everything through.
pub require_source_ip-allows :
    (net : Net) (text : String) (nets : List net.Network) (r : Request)
    → parse_ip_list net text ≡ some nets
    → split_list text ≢ []
    → require_source_ip net nets r ≡ none
    → (address : String) × ComesFrom net r address × IsInside net nets address
unfolding parse_ip_list split_list require_source_ip
require_source_ip-allows net text nets r parsed full passes =
    let on =
      not-empty net nets (split_list text) (parse_parts-length net (split_commas text) nets parsed)
        full in
    (
      client_ip net r,
      client_ip-ComesFrom net r,
      ip_allowed-IsInside net nets (client_ip net r)
          (decided (has_nets net nets) (ip_allowed net (client_ip net r) nets) on passes),
    )
  where
    decided :
        (on allowed : Bool)
        → on ≡ true
        → (if◌then◌else◌ {A = Option Rejection}
            (on && not allowed)
            (some (record { status = 403; message = "source not allowed" }))
            none)
          ≡ none
        → allowed ≡ true
    decided on true e h = refl
    decided true false e h = cc
    decided false false e h = cc
