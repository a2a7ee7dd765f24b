-- ===== src/Bridge/Across/Sound.antt =====
-- across/provider.go and across/execute.go: a quote that GetQuote accepts, and the transaction that
-- BuildTransaction makes of it.
use chain_route.Prelude.{
  ℕ, ◌<◌, String, true, some, List, ◌≡◌, refl, sym, ap, ◌∙◌, subst, arith, ltb, ◌^◌, and_then-some,
  ensure-some,
}
use mathlib.Core.Option.{some-injective}
use chain_route.Prelude.Int.{◌-ℤ◌}
use chain_route.Money.{set_digits, set_string}
use chain_route.Bridge.Quote.{Quote, Request, TxEnvelope}
use chain_route.Bridge.Across.{
  Provider, DepositArguments, SuggestedFeesResponse, Fees, suggested, amount_too_low, fees_failed,
  weth_address_by_chain_id, no_quote, payload_of, priced, accept, quote_reply, get_quote,
}
use chain_route.Bridge.Across.Execute.{parse_uint32, deposit_arguments, build_transaction}

-- What an available quote is.
pub record Accepted (req : Request) (q : Quote) : Type 0 where
  pub source : q.source_chain_id ≡ req.source_chain_id
  pub destination : q.destination_chain_id ≡ req.destination_chain_id
  pub input : q.input_amount_base_units ≡ some req.amount_base_units
  pub fee : q.fee_base_units ≡ req.amount_base_units -ℤ q.output_amount_base_units

accept-Accepted :
    (p : Provider) (n : ℕ) (req : Request) (s d : String) (resp : SuggestedFeesResponse) (q : Quote)
    → accept p n req s d resp ≡ some q
    → Accepted req q
unfolding accept priced
accept-Accepted p n req s d resp q h =
    let (_, h1) = ensure-some _ _ q h in
    let (_, h2) = ensure-some _ _ q h1 in
    let (output, _, h3) = and_then-some (set_string resp.output_amount) _ q h2 in
    let (raw, _, h4) = and_then-some (p.codec.marshal_payload (payload_of resp)) _ q h3 in
    subst (Accepted req) (some-injective (priced p n req resp output raw) q h4)
      (record { source = refl; destination = refl; input = refl; fee = refl })

get_quote-Accepted :
    (p : Provider) (n : ℕ) (req : Request) (q : Quote)
    → get_quote p n req ≡ some q
    → q.available ≡ true
    → Accepted req q
unfolding get_quote quote_reply no_quote
get_quote-Accepted p n req q h a =
    let (_, h1) = ensure-some _ _ q h in
    let (source, _, h2) = and_then-some (weth_address_by_chain_id req.source_chain_id) _ q h1 in
    let (dest, _, h3) = and_then-some (weth_address_by_chain_id req.destination_chain_id) _ q h2 in
    go source dest _ h3
  where
    go : (s d : String) (r : Fees) → quote_reply p n req s d r ≡ some q → Accepted req q
    go s d fees_failed e = absurd (ground arith)
    go s d (suggested resp) e = accept-Accepted p n req s d resp q e
    go s d amount_too_low e =
        absurd (ground (arith, ap (λ x. x.available) (some-injective (no_quote p n req) q e), a))

parse_uint32-bound : (s : List ℕ) (n : ℕ) → parse_uint32 s ≡ some n → n < 2 ^ 32
unfolding parse_uint32
parse_uint32-bound s n h =
    let (m, _, h1) = and_then-some (set_digits s) _ n h in
    let (less, h2) = ensure-some (ltb m (2 ^ 32)) (some m) n h1 in
    let same = some-injective m n h2 in ground (arith, less, same)

-- The call of depositV3 that an envelope carries.
pub record Deposit (p : Provider) (req : Request) (q : Quote) (e : TxEnvelope) : Type 0 where
  pub args : DepositArguments
  pub packed : p.codec.pack_deposit args ≡ some e.input
  pub recipient : args.recipient ≡ p.wallet_address
  pub input_amount : args.input_amount ≡ some req.amount_base_units
  pub output_amount : args.output_amount ≡ q.output_amount_base_units
  pub destination : args.destination_chain_id ≡ req.destination_chain_id
  pub timestamp : args.quote_timestamp < 2 ^ 32
  pub deadline : args.fill_deadline < 2 ^ 32

-- If an available quote was given for a request and a transaction is built of it, the transaction
-- goes to the configured SpokePool on the source chain of the request with the requested amount as
-- its value, and its data is depositV3 to the own wallet, of the requested amount, for the quoted
-- output on the requested destination chain, its two times in 32 bits.
pub build_transaction-Deposit :
    (p : Provider) (n : ℕ) (req : Request) (q : Quote) (e : TxEnvelope)
    → get_quote p n req ≡ some q
    → q.available ≡ true
    → build_transaction p q ≡ some e
    → (e.to ≡ p.spoke_pool_address)
      × (e.chain_id ≡ req.source_chain_id)
      × (e.value ≡ some req.amount_base_units)
      × Deposit p req q e
unfolding build_transaction deposit_arguments
build_transaction-Deposit p n req q e quoted available h =
    let a = get_quote-Accepted p n req q quoted available in
    let (x, _, h1) = and_then-some (p.codec.unmarshal_payload q.raw_provider_payload) _ e h in
    let (_, h2) = ensure-some _ _ e h1 in
    let (t, time, h3) = and_then-some (parse_uint32 x.quote_timestamp) _ e h2 in
    let (d, due, h4) = and_then-some (parse_uint32 x.fill_deadline) _ e h3 in
    let (data_bytes, packed, h5) =
      and_then-some (p.codec.pack_deposit (deposit_arguments p q x t d)) _ e h4 in
    let same = some-injective _ e h5 in
    (
      sym (ap (λ z. z.to) same),
      sym (ap (λ z. z.chain_id) same) ∙ a.source,
      sym (ap (λ z. z.value) same) ∙ a.input,
      record {
        args = deposit_arguments p q x t d;
        packed = packed ∙ ap (λ z. some z.input) same;
        recipient = refl;
        input_amount = a.input;
        output_amount = refl;
        destination = a.destination;
        timestamp = parse_uint32-bound x.quote_timestamp t time;
        deadline = parse_uint32-bound x.fill_deadline d due;
      },
    )
