-- ===== src/Bridge/Across/Execute.antt =====
-- across/execute.go and across/status.go: the unsigned deposit of a quote, and the status of a
-- deposit.
use chain_route.Prelude.{
  ℕ, ◌-◌, ◌%◌, ◌^◌, String, Option, none, some, List, [], ◌∷◌, ◌==◌, ltb, if◌then◌else◌, and_then,
  ensure,
}
use chain_route.Prelude.Int.{ℤ, pos, negsuc}
use chain_route.Money.{set_digits, to_string}
use chain_route.Execution.{codes}
use chain_route.Bridge.Http.{Reply, replied, api_error, failed}
use chain_route.Bridge.Quote.{
  Quote, TxEnvelope, StatusRequest, StatusResult, ExternalState, pending, filled, refunded,
}
use chain_route.Bridge.Across.{Provider, Codec, QuotePayload, DepositArguments, call}

-- strconv.ParseUint(s, 10, 32).
unfoldable pub parse_uint32 : List ℕ → Option ℕ
parse_uint32 s = and_then (set_digits s) λ n. ensure (ltb n (2 ^ 32)) (some n)

-- uint32(n) of an int64.
abbrev pub to_uint32 : ℤ → ℕ
to_uint32 (pos n) = n % 2 ^ 32
to_uint32 (negsuc n) = 2 ^ 32 - 1 - n % 2 ^ 32

unfoldable pub deposit_arguments : Provider → Quote → QuotePayload → ℕ → ℕ → DepositArguments
deposit_arguments p q payload timestamp deadline = record {
  depositor = p.wallet_address;
  recipient = p.wallet_address;
  input_token = p.weth_origin;
  output_token = p.weth_destination;
  input_amount = q.input_amount_base_units;
  output_amount = q.output_amount_base_units;
  destination_chain_id = q.destination_chain_id;
  exclusive_relayer = p.codec.hex_to_address payload.exclusive_relayer;
  quote_timestamp = timestamp;
  fill_deadline = deadline;
  exclusivity_deadline = to_uint32 payload.exclusivity_deadline;
}

unfoldable pub build_transaction : Provider → Quote → Option TxEnvelope
unfolding parse_uint32 deposit_arguments
build_transaction p q = and_then (p.codec.unmarshal_payload q.raw_provider_payload) λ payload.
    ensure (p.codec.hex_to_address payload.spoke_pool_address == p.spoke_pool_address) (
      and_then (parse_uint32 payload.quote_timestamp) λ timestamp.
        and_then (parse_uint32 payload.fill_deadline) λ deadline.
          and_then (p.codec.pack_deposit (deposit_arguments p q payload timestamp deadline))
            λ calldata. some (record {
              to = p.spoke_pool_address;
              value = q.input_amount_base_units;
              input = calldata;
              chain_id = q.source_chain_id;
            }))

pub data DepositStatus : Type 0 where
  reported : String → DepositStatus
  deposit_not_found status_failed : DepositStatus

unfoldable pub status_reply : Codec → Reply String → DepositStatus
status_reply c (replied status) = reported status
status_reply c (api_error body) =
    if c.contains body "DepositNotFoundException" then deposit_not_found else status_failed
status_reply c failed = status_failed

unfoldable pub deposit_status_by_tx_hash : Provider → ℕ → ℕ → String → DepositStatus
unfolding call status_reply
deposit_status_by_tx_hash p n origin hash = status_reply p.codec (
    call p p.codec.unmarshal_status n "/deposit/status"
      (("originChainId", to_string (pos origin)) ∷ ("depositTxHash", codes hash) ∷ []))

unfoldable pub across_status_to_state : String → ExternalState
across_status_to_state raw =
    if raw == "filled"
    then filled
    else if raw == "expired"
    then refunded
    else if raw == "refunded"
    then refunded
    else pending

abbrev pub status_result : DepositStatus → Option StatusResult
status_result (reported raw) =
    some
      (record { state = across_status_to_state raw; raw_status = raw; destination_tx_hash = none })
status_result _ = none

unfoldable pub check_status : Provider → ℕ → StatusRequest → Option StatusResult
unfolding deposit_status_by_tx_hash across_status_to_state
check_status p n req =
    status_result (deposit_status_by_tx_hash p n p.origin_chain_id req.origin_tx_hash)
