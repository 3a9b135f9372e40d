-- ===== src/Live.antt =====
-- The end of a user's live sessions on the routers (api/internal/handlers/disconnect.go).
use myfipay.Base.{
  ℕ, suc, ◌++◌, String, List, [], ◌∷◌, Option, none, some, Bool, false, not, ◌&&◌, select,
  if◌then◌else◌, ◌==◌, string_eq, map,
}
use myfipay.Db.{Db, AcctRow}
use myfipay.Radius.{Bytes, NasSession, Result, disconnect_detail}

-- Why a router was not told, or did not answer.
pub data DisconnectError : Type 0 where
  no_registered_router exchange_failed : DisconnectError

pub record DisconnectResult : Type 0 where
  pub nas_ip : String
  pub acked : Bool
  pub error : Option DisconnectError

pub record Target : Type 0 where
  pub session : NasSession
  pub nas_ip : String
  pub secret : String

-- One row for every router of the address, or one without a secret.
abbrev pub secrets_or_empty : List String → List String
secrets_or_empty [] = "" ∷ []
secrets_or_empty (s ∷ ss) = s ∷ ss

-- What is taken of Go's library: the bytes of a text in UTF-8, net.ParseIP with the four bytes of the
-- address, and the two hashes.
pub record RouterLibrary : Type 0 where
  pub bytes : String → Bytes
  pub parse_ip : String → Bytes
  pub md5 : Bytes → Bytes
  pub hmac_md5 : Bytes → Bytes → Bytes

module _ (lib : RouterLibrary) where
  abbrev pub target_of : String → AcctRow → String → String → Target
  target_of username ra station secret = record {
    session = record {
      username = lib.bytes username;
      acct_session_id = lib.bytes ra.acct_session_id;
      calling_station_id = lib.bytes station;
      framed_ip = lib.parse_ip ra.framed_ip;
    };
    nas_ip = ra.nas_ip;
    secret = secret;
  }

  -- The rows of radacct, each joined with the routers of its address. A station that is NULL does not
  -- scan into a string, and the rows are closed upon an error.
  unfoldable pub targets_from : Db → String → List AcctRow → List Target
  unfolding select
  targets_from db username [] = []
  targets_from db username (ra ∷ rows) =
      let rest = targets_from db username rows in
      let secrets =
        secrets_or_empty (map (λ n. n.secret) (select (λ n. n.nasname == ra.nas_ip) db.nas)) in
      elim ra.calling_station_id [
        | none ↦ []
        | some station ↦ map (target_of username ra station) secrets ++ rest
      ]

  unfoldable pub live_targets : Db → String → List Target
  unfolding targets_from
  live_targets db username =
      targets_from db username (select (λ ra. ra.username == username && not ra.stopped) db.radacct)

  -- The exchange with the i-th target, and the id of its request, are drawn for the call.
  module _ (exchange : ℕ → Bytes → ℕ → Option Bytes) (id : ℕ → ℕ) where
    abbrev answered : String → Option Result → DisconnectResult
    answered nas_ip none = record { nas_ip = nas_ip; acked = false; error = some exchange_failed }
    answered nas_ip (some res) = record { nas_ip = nas_ip; acked = res.acked; error = none }

    unfoldable pub disconnect_target : ℕ → Target → DisconnectResult
    unfolding disconnect_detail
    disconnect_target i t =
        let told = answered t.nas_ip (
          disconnect_detail lib.md5 lib.hmac_md5 (exchange i) (id i) (lib.bytes t.secret)
            t.session) in
        if t.secret == ""
        then record { nas_ip = t.nas_ip; acked = false; error = some no_registered_router }
        else told

    unfoldable pub disconnect_targets : ℕ → List Target → List DisconnectResult
    unfolding disconnect_target
    disconnect_targets i [] = []
    disconnect_targets i (t ∷ ts) =
        let rest = disconnect_targets (suc i) ts in disconnect_target i t ∷ rest

    -- `reached` says whether the query went through.
    unfoldable pub disconnect_live_sessions : Bool → Db → String → List DisconnectResult
    unfolding live_targets disconnect_targets
    disconnect_live_sessions reached db username =
        let told = disconnect_targets 0 (live_targets db username) in if reached then told else []
