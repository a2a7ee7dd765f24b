-- ===== src/Bridge/Across.antt =====
-- go-api/internal/bridge/across: the quotes, the unsigned depositV3 transactions and the statuses of
-- Across. JSON, addresses, the ABI and net/http are parameters.
pub mod Execute
pub mod Sound
use chain_route.Prelude.{
  ℕ, ◌+◌, ◌-◌, ◌%◌, ◌^◌, String, Bool, true, false, ◌&&◌, not, Option, none, some, List, [], ◌∷◌,
  ◌++◌, ◌==◌, eqb, ltb, if◌then◌else◌, and_then, ensure,
}
use chain_route.Prelude.Int.{ℤ, pos, negsuc, ◌-ℤ◌}
use chain_route.Payment.{Time}
use chain_route.Money.{set_digits, set_string, to_string}
use chain_route.Execution.{codes}
use chain_route.Bridge.Http.{Transport, Reply, replied, api_error, failed, get}
use chain_route.Bridge.Quote.{
  Quote, Request, TxEnvelope, StatusRequest, StatusResult, ExternalState, pending, filled, refunded,
}

unfoldable pub weth_address_by_chain_id : ℕ → Option String
weth_address_by_chain_id id =
    if eqb id 11155111
    then some "0xfFf9976782d46CC05630D1f6eBAb18b2324d6B14"
    else if eqb id 84532
    then some "0x4200000000000000000000000000000000000006"
    else none

-- The decimals, which nothing reads, are left out.
pub record QuoteTokenInfo : Type 0 where
  pub address : String
  pub chain_id : ℕ

pub record SuggestedFeesResponse : Type 0 where
  pub output_amount : List ℕ
  pub fill_deadline : List ℕ
  pub exclusivity_deadline : ℤ
  pub exclusive_relayer : String
  pub timestamp : List ℕ
  pub spoke_pool_address : String
  pub is_amount_too_low : Bool
  pub estimated_fill_time_sec : ℕ
  pub input_token : QuoteTokenInfo
  pub output_token : QuoteTokenInfo

pub record QuotePayload : Type 0 where
  pub exclusive_relayer : String
  pub quote_timestamp : List ℕ
  pub fill_deadline : List ℕ
  pub exclusivity_deadline : ℤ
  pub spoke_pool_address : String

-- The arguments of depositV3; the message is empty.
pub record DepositArguments : Type 0 where
  pub depositor : String
  pub recipient : String
  pub input_token : String
  pub output_token : String
  pub input_amount : Option ℤ
  pub output_amount : ℤ
  pub destination_chain_id : ℕ
  pub exclusive_relayer : String
  pub quote_timestamp : ℕ
  pub fill_deadline : ℕ
  pub exclusivity_deadline : ℕ

-- encoding/json at the types of this package, strings.Contains, and go-ethereum's addresses and ABI.
pub record Codec : Type 0 where
  pub unmarshal_fees : String → Option SuggestedFeesResponse
  pub unmarshal_status : String → Option String
  pub marshal_payload : QuotePayload → Option String
  pub unmarshal_payload : String → Option QuotePayload
  pub contains : String → String → Bool
  pub hex_to_address : String → String
  pub pack_deposit : DepositArguments → Option (List ℕ)

pub record Provider : Type 0 where
  pub transport : Transport
  pub base_url : String
  pub api_key : String
  pub integrator_id : String
  pub quote_ttl : Time
  pub clock : ℕ → Time
  pub wallet_address : String
  pub spoke_pool_address : String
  pub weth_origin : String
  pub weth_destination : String
  pub origin_chain_id : ℕ
  pub codec : Codec

-- query.Set("integratorId", ...): no query has this key before.
unfoldable pub with_integrator : Provider → List (String × List ℕ) → List (String × List ℕ)
with_integrator p query =
    if p.integrator_id == "" then query else query ++ ("integratorId", codes p.integrator_id) ∷ []

unfoldable pub call :
    {A : Type 0} → Provider → (String → Option A) → ℕ → String → List (String × List ℕ) → Reply A
unfolding get with_integrator
call p decode n path query =
    get p.transport p.base_url p.api_key decode n path (with_integrator p query)

pub data Fees : Type 0 where
  suggested : SuggestedFeesResponse → Fees
  amount_too_low fees_failed : Fees

unfoldable pub fees_reply : Reply SuggestedFeesResponse → Fees
fees_reply (replied r) = if r.is_amount_too_low then amount_too_low else suggested r
fees_reply (api_error body) = fees_failed
fees_reply failed = fees_failed

unfoldable pub suggested_fees : Provider → ℕ → ℕ → ℕ → String → String → List ℕ → Fees
unfolding call fees_reply
suggested_fees p n origin destination input_token output_token amount = fees_reply (
    call p p.codec.unmarshal_fees n "/suggested-fees" (
      ("originChainId", to_string (pos origin))
      ∷ ("destinationChainId", to_string (pos destination))
      ∷ ("inputToken", codes input_token)
      ∷ ("outputToken", codes output_token)
      ∷ ("amount", amount)
      ∷ []))

-- A quote that is not available; its amounts are nil.
unfoldable pub no_quote : Provider → ℕ → Request → Quote
no_quote p n req = record {
  provider_name = "across";
  source_chain_id = req.source_chain_id;
  destination_chain_id = req.destination_chain_id;
  asset = req.asset;
  input_amount_base_units = none;
  output_amount_base_units = pos 0;
  fee_base_units = pos 0;
  estimated_fill_time_sec = 0;
  available = false;
  quoted_at = p.clock n;
  expires_at = p.clock n + p.quote_ttl;
  raw_provider_payload = "";
}

abbrev pub matches : QuoteTokenInfo → ℕ → String → Bool
matches c id address = eqb c.chain_id id && (c.address == address)

unfoldable pub payload_of : SuggestedFeesResponse → QuotePayload
payload_of resp = record {
  exclusive_relayer = resp.exclusive_relayer;
  quote_timestamp = resp.timestamp;
  fill_deadline = resp.fill_deadline;
  exclusivity_deadline = resp.exclusivity_deadline;
  spoke_pool_address = resp.spoke_pool_address;
}

unfoldable pub priced : Provider → ℕ → Request → SuggestedFeesResponse → ℤ → String → Quote
priced p n req resp output raw = record {
  provider_name = "across";
  source_chain_id = req.source_chain_id;
  destination_chain_id = req.destination_chain_id;
  asset = req.asset;
  input_amount_base_units = some req.amount_base_units;
  output_amount_base_units = output;
  fee_base_units = req.amount_base_units -ℤ output;
  estimated_fill_time_sec = resp.estimated_fill_time_sec;
  available = true;
  quoted_at = p.clock n;
  expires_at = p.clock n + p.quote_ttl;
  raw_provider_payload = raw;
}

unfoldable pub accept :
    Provider → ℕ → Request → String → String → SuggestedFeesResponse → Option Quote
unfolding payload_of priced
accept p n req source dest resp = ensure (matches resp.input_token req.source_chain_id source) (
    ensure (matches resp.output_token req.destination_chain_id dest) (
      and_then (set_string resp.output_amount) λ output.
        and_then (p.codec.marshal_payload (payload_of resp))
          λ raw. some (priced p n req resp output raw)))

unfoldable pub quote_reply : Provider → ℕ → Request → String → String → Fees → Option Quote
unfolding accept no_quote
quote_reply p n req source dest fees_failed = none
quote_reply p n req source dest amount_too_low = some (no_quote p n req)
quote_reply p n req source dest (suggested resp) = accept p n req source dest resp

unfoldable pub get_quote : Provider → ℕ → Request → Option Quote
unfolding quote_reply suggested_fees weth_address_by_chain_id
get_quote p n req = ensure (req.asset == "WETH") (
    and_then (weth_address_by_chain_id req.source_chain_id) λ source.
      and_then (weth_address_by_chain_id req.destination_chain_id) λ dest.
        quote_reply p n req source dest (
          suggested_fees p n req.source_chain_id req.destination_chain_id source dest
            (to_string req.amount_base_units)))
