-- ===== src/Radius/Tests.antt =====
-- A request and the router's answers at concrete inputs.
use myfipay.Base.{
  ℕ, zero, suc, ◌/◌, ◌%◌, ◌≤◌, ◌≡◌, ◌↔◌, refl, inr, [], ◌∷◌, ◌++◌, Option, none, some, false,
  length, take, replicate, codes_beq,
}
use myfipay.Radius.{
  Bytes, NasSession, uint16, slice, build_disconnect, valid_response, disconnect_detail,
  response_result, parse_nak_detail, no_detail,
}
use myfipay.Radius.Response.{IsGenuine, Says, valid_response_iff}
use myfipay.Radius.Retry.{Outcome, disconnect_detail_cases}
use myfipay.Radius.Details.{Walk, parse_nak_detail_terminates}
use myfipay.Radius.Contents.{Carries, build_disconnect-Carries}
use myfipay.Radius.Packet.{build_disconnect_header}

abbrev sevens : Bytes → Bytes
sevens _ = replicate 16 7

abbrev nines : Bytes → Bytes → Bytes
nines _ _ = replicate 16 9

abbrev visit : NasSession
visit = record {
  username = 50 ∷ 53 ∷ [];
  acct_session_id = [];
  calling_station_id = [];
  framed_ip = 10 ∷ 0 ∷ 0 ∷ 2 ∷ [];
}

abbrev request : Bytes
request =
    40 ∷ 5 ∷ 0 ∷ 48 ∷ replicate 16 7
    ++ (1 ∷ 4 ∷ 50 ∷ 53 ∷ 8 ∷ 6 ∷ 10 ∷ 0 ∷ 0 ∷ 2 ∷ 80 ∷ 18 ∷ replicate 16 9)

built : build_disconnect sevens nines 5 [] visit ≡ some request
unfolding build_disconnect
built = refl

build_disconnect_header_example :
    (length request ≤ 1295)
    × (take 4 request ≡ 40 ∷ 5 ∷ length request / 256 ∷ length request % 256 ∷ [])
build_disconnect_header_example = build_disconnect_header sevens nines 5 [] visit request built

-- A NAK with Error-Cause 503 and a Reply-Message.
abbrev nak : Bytes
nak = 42 ∷ 5 ∷ 0 ∷ 28 ∷ replicate 16 7 ++ (101 ∷ 6 ∷ 0 ∷ 0 ∷ 1 ∷ 247 ∷ 18 ∷ 2 ∷ [])

abbrev answers : Bytes → ℕ → Option Bytes
answers pkt zero = none
answers pkt (suc n) = some nak

says_so :
    disconnect_detail sevens nines answers 5 [] visit
    ≡ some (record {
      acked = false;
      error_cause = 503;
      error_cause_name' = "Session Context Not Found";
      reply_message = [];
    })
unfolding disconnect_detail codes_beq
says_so = refl

valid_response_iff_example :
    (valid_response sevens nak (replicate 16 7) 5 [] ≡ inr (response_result nak)) ↔ (
      IsGenuine sevens nak (replicate 16 7) 5 []
      × Says (take (uint16 (slice 2 4 nak)) nak) (response_result nak))
valid_response_iff_example =
    valid_response_iff sevens nak (replicate 16 7) 5 [] (response_result nak)

disconnect_detail_cases_example :
    Outcome sevens 2 0
      (answers request)
      (slice 4 20 request)
      5
      []
      (disconnect_detail sevens nines answers 5 [] visit)
disconnect_detail_cases_example =
    disconnect_detail_cases sevens nines answers 5 [] visit request built

build_disconnect-Carries_example : Carries sevens nines [] visit request
build_disconnect-Carries_example =
    build_disconnect-Carries sevens nines 5 [] visit request (λ key text. refl) built

-- An attribute whose length goes past the end.
parse_nak_detail_terminates_example :
    Walk (18 ∷ 9 ∷ 1 ∷ []) (no_detail false) (no_detail false)
    ↔ (no_detail false ≡ parse_nak_detail (18 ∷ 9 ∷ 1 ∷ []) (no_detail false))
parse_nak_detail_terminates_example =
    parse_nak_detail_terminates (18 ∷ 9 ∷ 1 ∷ []) (no_detail false) (no_detail false)
