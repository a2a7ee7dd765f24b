-- ===== src/Bridge/Relay/Execute.antt =====
-- relay/execute.go and relay/status.go: the unsigned transaction of a quote, and the status of an
-- order.
use chain_route.Prelude.{
  ℕ, ◌+◌, ◌*◌, ◌-◌, String, true, ◌&&◌, not, Option, none, some, List, [], ◌∷◌, ◌==◌, eqb, leb,
  if◌then◌else◌, and_then, ensure,
}
use chain_route.Money.{set_string}
use chain_route.Execution.{codes}
use chain_route.Bridge.Http.{Reply, replied, get}
use chain_route.Bridge.Quote.{
  Quote, TxEnvelope, StatusRequest, StatusResult, ExternalState, pending, filled, refunded,
  fill_failed,
}
use chain_route.Bridge.Relay.{Provider, IntentStatus}

abbrev pub hex_digit : ℕ → Option ℕ
hex_digit c =
    if leb b'0' c && leb c b'9'
    then some (c - b'0')
    else if leb b'a' c && leb c b'f'
    then some (c - b'a' + 10)
    else if leb b'A' c && leb c b'F'
    then some (c - b'A' + 10)
    else none

-- hex.DecodeString; an odd length is refused.
unfoldable pub decode_hex : List ℕ → Option (List ℕ)
decode_hex [] = some []
decode_hex (a ∷ []) = none
decode_hex (a ∷ b ∷ rest) =
    let more = decode_hex rest in
    and_then (hex_digit a)
      λ x. and_then (hex_digit b) λ y. and_then more λ bytes. some ((x * 16 + y) ∷ bytes)

-- A leading 0x or 0X is taken off.
unfoldable pub strip_prefix : List ℕ → List ℕ
strip_prefix (a ∷ b ∷ rest) =
    if eqb a b'0' && (if eqb b b'x' then true else eqb b b'X') then rest else a ∷ b ∷ rest
strip_prefix s = s

unfoldable pub build_transaction : Provider → Quote → Option TxEnvelope
unfolding decode_hex strip_prefix
build_transaction p q = and_then (p.codec.unmarshal_payload q.raw_provider_payload) λ payload.
    ensure (not (payload.recipient == "")) (
      ensure (p.codec.hex_to_address payload.recipient == p.wallet_address) (
        and_then (set_string payload.value) λ value.
          and_then (decode_hex (strip_prefix payload.data_hex)) λ input. some (record {
            to = p.codec.hex_to_address payload.to;
            value = some value;
            input = input;
            chain_id = payload.chain_id;
          })))

-- Every other status, known or not, is pending.
unfoldable pub relay_status_to_state : String → ExternalState
relay_status_to_state raw =
    if raw == "success"
    then filled
    else if raw == "refund"
    then refunded
    else if raw == "failure"
    then fill_failed
    else pending

abbrev first : List String → Option String
first [] = none
first (x ∷ xs) = some x

abbrev pub status_result : Reply IntentStatus → Option StatusResult
status_result (replied s) = some (record {
  state = relay_status_to_state s.status;
  raw_status = s.status;
  destination_tx_hash = first s.tx_hashes;
})
status_result _ = none

unfoldable pub check_status : Provider → ℕ → StatusRequest → Option StatusResult
unfolding get relay_status_to_state
check_status p n req = ensure (not (req.provider_reference_id == "")) (
    status_result (
      get p.transport p.base_url p.api_key p.codec.unmarshal_status n "/intents/status"
        (("requestId", codes req.provider_reference_id) ∷ [])))
