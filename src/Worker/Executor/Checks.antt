-- ===== src/Worker/Executor/Checks.antt =====
-- executor.go: the configuration of an Executor, the slippage and guardrail tests, and the checks of
-- an unsigned envelope.
use chain_route.Prelude.{
  ℕ, String, Bool, false, Option, none, some, List, ◌==◌, eqb, if◌then◌else◌, not,
}
use chain_route.Prelude.Int.{ℤ, pos, ◌-ℤ◌, ◌*ℤ◌, ltb_ℤ, leb_ℤ}
use chain_route.Payment.{Quote}
use chain_route.Money.{set_string}
use chain_route.Bridge.Quote.{Quote as LiveQuote, TxEnvelope, Provider, Signer}
use chain_route.World.{
  M, pure, fail, or_fail, external, ◌>>=◌, ◌>>◌, signer_not_configured, build_failed,
  provider_mismatch, chain_id_mismatch, contract_mismatch, value_mismatch,
}
use chain_route.Worker.Clients.{EthClient, Codec}

-- The maps are functions. `none` for max_amount_wei is the nil *big.Int: no ceiling.
pub record Executor : Type 0 where
  pub wallet_address : String
  pub codec : Codec
  pub origin_client : EthClient
  pub quote_providers : String → Option Provider
  pub signers : String → Option Signer
  pub expected_contract_by_provider : String → Option String
  pub max_fee_slippage_bps : ℤ
  pub origin_chain_id : ℕ
  pub dest_chain_id : ℕ
  pub max_amount_wei : Option ℤ

abbrev pub is_zero : ℤ → Bool
is_zero (pos n) = eqb n 0
is_zero _ = false

-- The comparison behind a baseline that could be parsed.
unfoldable pub exceeds_baseline : ℤ → ℤ → ℤ → Bool
exceeds_baseline baseline fresh_fee tolerance_bps =
    if is_zero baseline
    then ltb_ℤ baseline fresh_fee
    else if leb_ℤ fresh_fee baseline
    then false
    else ltb_ℤ (baseline *ℤ tolerance_bps) ((fresh_fee -ℤ baseline) *ℤ pos 10000)

unfoldable pub exceeds_slippage_tolerance : List ℕ → ℤ → ℤ → Bool
unfolding exceeds_baseline
exceeds_slippage_tolerance baseline_fee_decimal fresh_fee tolerance_bps =
    elim (set_string baseline_fee_decimal) [
      | none ↦ ltb_ℤ (pos 0) fresh_fee
      | some baseline ↦ exceeds_baseline baseline fresh_fee tolerance_bps
    ]

-- `e.MaxAmountWei != nil && inputAmount.Cmp(e.MaxAmountWei) > 0`.
unfoldable pub exceeds_guardrail : Option ℤ → ℤ → Bool
exceeds_guardrail none amount = false
exceeds_guardrail (some max) amount = ltb_ℤ max amount

abbrev pub eqb_ℤ : ℤ → ℤ → Bool
eqb_ℤ a b = if leb_ℤ a b then leb_ℤ b a else false

-- Both amounts are there and equal.
abbrev pub same_amount : Option ℤ → Option ℤ → Bool
same_amount (some a) (some b) = eqb_ℤ a b
same_amount _ _ = false

abbrev pub is_pinned : Option String → String → Bool
is_pinned none to = false
is_pinned (some expected) to = to == expected

-- The independent check of an envelope, each mismatch an error of its own.
unfoldable pub validate_envelope : Executor → TxEnvelope → Quote → LiveQuote → M (Unit {0})
validate_envelope e envelope quote_row fresh_quote =
    if not (fresh_quote.provider_name == quote_row.provider)
    then fail provider_mismatch
    else if not (eqb envelope.chain_id e.origin_chain_id)
    then fail chain_id_mismatch
    else if not (is_pinned (e.expected_contract_by_provider quote_row.provider) envelope.to)
    then fail contract_mismatch
    else if not (same_amount envelope.value fresh_quote.input_amount_base_units)
    then fail value_mismatch
    else pure tt

-- The signer's envelope, once it has passed the check.
unfoldable pub build_validated_envelope : Executor → Quote → LiveQuote → M TxEnvelope
unfolding validate_envelope
build_validated_envelope e quote_row fresh_quote = do
  signer ← or_fail (e.signers quote_row.provider) signer_not_configured
  built ← external (λ n. signer.build_transaction n fresh_quote)
  envelope ← or_fail built build_failed
  validate_envelope e envelope quote_row fresh_quote
  pure envelope

-- Relay's requestId; nothing for another provider, or where it is absent or empty.
abbrev nonempty : Option String → Option String
nonempty none = none
nonempty (some s) = if s == "" then none else some s

unfoldable pub extract_provider_reference_id : Executor → LiveQuote → Option String
extract_provider_reference_id e fresh_quote =
    if fresh_quote.provider_name == "relay"
    then nonempty (e.codec.decode_request_id fresh_quote.raw_provider_payload)
    else none
