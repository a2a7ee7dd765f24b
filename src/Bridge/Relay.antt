-- ===== src/Bridge/Relay.antt =====
-- go-api/internal/bridge/relay: the quotes, the unsigned transactions and the statuses of Relay.
-- JSON, addresses and net/http are parameters.
pub mod Execute
pub mod Sound
use chain_route.Prelude.{
  ℕ, ◌+◌, ◌*◌, ◌-◌, String, Bool, true, false, ◌&&◌, not, Option, none, some, List, [], ◌∷◌, ◌==◌,
  eqb, leb, if◌then◌else◌, and_then, ensure,
}
use chain_route.Prelude.Int.{ℤ, ◌-ℤ◌, ltb_ℤ}
use chain_route.Payment.{Time}
use chain_route.Money.{set_string, to_string}
use chain_route.Execution.{codes}
use chain_route.Bridge.Http.{Transport, Reply, replied, api_error, failed, get, post}
use chain_route.Bridge.Quote.{
  Quote, Request, TxEnvelope, StatusRequest, StatusResult, ExternalState, pending, filled, refunded,
  fill_failed,
}

abbrev pub native_address : String
native_address = "0x0000000000000000000000000000000000000000"

unfoldable pub weth_address_by_chain_id : ℕ → Option String
weth_address_by_chain_id id =
    if eqb id 11155111
    then some "0xfFf9976782d46CC05630D1f6eBAb18b2324d6B14"
    else if eqb id 84532
    then some "0x4200000000000000000000000000000000000006"
    else none

pub record QuoteRequestBody : Type 0 where
  pub user : String
  pub origin_chain_id : ℕ
  pub destination_chain_id : ℕ
  pub origin_currency : String
  pub destination_currency : String
  pub amount : List ℕ
  pub trade_type : String

-- The amount that is not used is left out.
pub record CurrencyInfo : Type 0 where
  pub chain_id : ℕ
  pub address : String
  pub minimum_amount : List ℕ

-- The gas fields, which nothing reads, are left out.
pub record StepItem : Type 0 where
  pub to : String
  pub data_hex : List ℕ
  pub value : List ℕ
  pub chain_id : ℕ

pub record QuoteStep : Type 0 where
  pub kind : String
  pub items : List StepItem

pub record QuoteResponseBody : Type 0 where
  pub request_id : String
  pub steps : List QuoteStep
  pub currency_in : CurrencyInfo
  pub currency_out : CurrencyInfo
  pub time_estimate : ℕ
  pub recipient : String
  pub deadline : ℕ

pub record QuotePayload : Type 0 where
  pub to : String
  pub data_hex : List ℕ
  pub value : List ℕ
  pub chain_id : ℕ
  pub request_id : String
  pub deadline : ℕ
  pub recipient : String

pub record IntentStatus : Type 0 where
  pub status : String
  pub tx_hashes : List String

-- encoding/json at the types of this package, and the address functions of go-ethereum.
pub record Codec : Type 0 where
  pub marshal_request : QuoteRequestBody → Option String
  pub unmarshal_response : String → Option QuoteResponseBody
  pub unmarshal_error_code : String → Option String
  pub marshal_payload : QuotePayload → Option String
  pub unmarshal_payload : String → Option QuotePayload
  pub unmarshal_status : String → Option IntentStatus
  pub hex_to_address : String → String
  pub hex : String → String

pub record Provider : Type 0 where
  pub transport : Transport
  pub base_url : String
  pub api_key : String
  pub wallet_address : String
  pub quote_ttl : Time
  pub clock : ℕ → Time
  pub codec : Codec

abbrev pub no_routes_code : Option String → Bool
no_routes_code none = false
no_routes_code (some code) = code == "NO_SWAP_ROUTES_FOUND"

unfoldable pub is_no_routes_found : Codec → String → Bool
is_no_routes_found c body = no_routes_code (c.unmarshal_error_code body)

-- A quote that is not available; its amounts are nil.
unfoldable pub no_quote : Provider → ℕ → Request → Quote
no_quote p n req = record {
  provider_name = "relay";
  source_chain_id = req.source_chain_id;
  destination_chain_id = req.destination_chain_id;
  asset = req.asset;
  input_amount_base_units = none;
  output_amount_base_units = ℤ.pos 0;
  fee_base_units = ℤ.pos 0;
  estimated_fill_time_sec = 0;
  available = false;
  quoted_at = p.clock n;
  expires_at = p.clock n + p.quote_ttl;
  raw_provider_payload = "";
}

-- Exactly one step, a transaction, with exactly one item.
abbrev pub single_item : List QuoteStep → Option StepItem
single_item (step ∷ []) = elim step.items [
  | [] ↦ none
  | (item ∷ []) ↦ if step.kind == "transaction" then some item else none
  | (item ∷ x ∷ xs) ↦ none
]
single_item _ = none

abbrev pub matches : CurrencyInfo → ℕ → String → Bool
matches c id address = eqb c.chain_id id && (c.address == address)

unfoldable pub payload_of : QuoteResponseBody → StepItem → QuotePayload
payload_of resp item = record {
  to = item.to;
  data_hex = item.data_hex;
  value = item.value;
  chain_id = item.chain_id;
  request_id = resp.request_id;
  deadline = resp.deadline;
  recipient = resp.recipient;
}

unfoldable pub priced : Provider → ℕ → Request → QuoteResponseBody → ℤ → String → Quote
priced p n req resp output raw = record {
  provider_name = "relay";
  source_chain_id = req.source_chain_id;
  destination_chain_id = req.destination_chain_id;
  asset = req.asset;
  input_amount_base_units = some req.amount_base_units;
  output_amount_base_units = output;
  fee_base_units = req.amount_base_units -ℤ output;
  estimated_fill_time_sec = resp.time_estimate;
  available = true;
  quoted_at = p.clock n;
  expires_at = p.clock n + p.quote_ttl;
  raw_provider_payload = raw;
}

-- The checks of a response, and the quote that is made of it.
unfoldable pub accept : Provider → ℕ → Request → String → QuoteResponseBody → Option Quote
unfolding payload_of priced
accept p n req dest resp = and_then (single_item resp.steps) λ item.
    ensure (not (resp.request_id == "")) (
      ensure (matches resp.currency_in req.source_chain_id native_address) (
        ensure (matches resp.currency_out req.destination_chain_id dest) (
          ensure (eqb item.chain_id req.source_chain_id) (
            and_then (set_string resp.currency_out.minimum_amount) λ output.
              ensure (ltb_ℤ output req.amount_base_units) (
                and_then (p.codec.marshal_payload (payload_of resp item))
                  λ raw. some (priced p n req resp output raw))))))

unfoldable pub quote_reply :
    Provider → ℕ → Request → String → Reply QuoteResponseBody → Option Quote
unfolding accept no_quote is_no_routes_found
quote_reply p n req dest failed = none
quote_reply p n req dest (api_error body) =
    if is_no_routes_found p.codec body then some (no_quote p n req) else none
quote_reply p n req dest (replied resp) = accept p n req dest resp

unfoldable pub quote_request : Provider → Request → String → QuoteRequestBody
quote_request p req dest = record {
  user = p.codec.hex p.wallet_address;
  origin_chain_id = req.source_chain_id;
  destination_chain_id = req.destination_chain_id;
  origin_currency = native_address;
  destination_currency = dest;
  amount = to_string req.amount_base_units;
  trade_type = "EXACT_INPUT";
}

unfoldable pub get_quote : Provider → ℕ → Request → Option Quote
unfolding quote_reply quote_request post weth_address_by_chain_id
get_quote p n req = ensure (req.asset == "WETH") (
    and_then (weth_address_by_chain_id req.destination_chain_id) λ dest.
      and_then (weth_address_by_chain_id req.source_chain_id) λ source. quote_reply p n req dest (
        post p.transport p.base_url p.api_key p.codec.unmarshal_response n "/quote"
          (p.codec.marshal_request (quote_request p req dest))))
