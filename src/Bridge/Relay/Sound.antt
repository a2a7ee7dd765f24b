-- ===== src/Bridge/Relay/Sound.antt =====
-- relay/quote.go and relay/execute.go: a quote that GetQuote accepts, and the transaction that
-- BuildTransaction makes of it.
use chain_route.Prelude.{
  ℕ, String, Bool, true, false, none, some, ◌≡◌, refl, sym, ap, ◌∙◌, arith, eqb, eq_iff,
  if◌then◌else◌, ◌==◌, and_then-some, ensure-some,
}
use mathlib.Core.Option.{some-injective}
use chain_route.Prelude.Int.{ℤ, pos, ◌-ℤ◌, ◌<ℤ◌, ltb_ℤ}
use chain_route.Money.{set_string}
use chain_route.Bridge.Quote.{Quote, Request, TxEnvelope}
use chain_route.Bridge.Http.{Reply, replied, api_error, failed}
use chain_route.Bridge.Relay.{
  Provider, QuotePayload, QuoteResponseBody, weth_address_by_chain_id, is_no_routes_found, no_quote,
  single_item, payload_of, priced, accept, quote_reply, get_quote,
}
use chain_route.Bridge.Relay.Execute.{decode_hex, strip_prefix, build_transaction}

-- What an available quote is.
pub record Accepted (p : Provider) (req : Request) (q : Quote) : Type 0 where
  pub payload : QuotePayload
  pub marshalled : p.codec.marshal_payload payload ≡ some q.raw_provider_payload
  pub chain : payload.chain_id ≡ req.source_chain_id
  pub input : q.input_amount_base_units ≡ some req.amount_base_units
  pub less : q.output_amount_base_units <ℤ req.amount_base_units
  pub fee : pos 0 <ℤ q.fee_base_units

fee-positive : (a b : ℤ) → b <ℤ a → pos 0 <ℤ (a -ℤ b)
unfolding ◌-ℤ◌
fee-positive (pos a) (pos b) h = ground (arith, h)
fee-positive (pos a) (ℤ.negsuc b) h = ground (arith, h)
fee-positive (ℤ.negsuc a) (pos b) h = ground (arith, h)
fee-positive (ℤ.negsuc a) (ℤ.negsuc b) h = ground (arith, h)

eqb-true : (a b : ℕ) → eqb a b ≡ true → a ≡ b
eqb-true a b h = ground (arith, h)

ltb_ℤ-true : (a b : ℤ) → ltb_ℤ a b ≡ true → a <ℤ b
ltb_ℤ-true a b h = ground (arith, h)

accept-Accepted :
    (p : Provider) (n : ℕ) (req : Request) (dest : String) (resp : QuoteResponseBody) (q : Quote)
    → accept p n req dest resp ≡ some q
    → Accepted p req q
unfolding accept payload_of priced
accept-Accepted p n req dest resp q h =
    let (item, _, h1) = and_then-some (single_item resp.steps) _ q h in
    let (_, h2) = ensure-some _ _ q h1 in
    let (_, h3) = ensure-some _ _ q h2 in
    let (_, h4) = ensure-some _ _ q h3 in
    let (chain, h5) = ensure-some (eqb item.chain_id req.source_chain_id) _ q h4 in
    let (output, _, h6) = and_then-some (set_string resp.currency_out.minimum_amount) _ q h5 in
    let (less, h7) = ensure-some (ltb_ℤ output req.amount_base_units) _ q h6 in
    let (raw, marshalled, h8) =
      and_then-some (p.codec.marshal_payload (payload_of resp item)) _ q h7 in
    let below = ltb_ℤ-true output req.amount_base_units less in
    let same : some (priced p n req resp output raw) ≡ some q = h8 in
    subst-quote _ q same (record {
      payload = payload_of resp item;
      marshalled = marshalled;
      chain = eqb-true item.chain_id req.source_chain_id chain;
      input = refl;
      less = below;
      fee = fee-positive req.amount_base_units output below;
    })
  where
    subst-quote : (x y : Quote) → some x ≡ some y → Accepted p req x → Accepted p req y
    subst-quote x y e a = rw (← some-injective x y e) a

quote_reply-Accepted :
    (p : Provider) (n : ℕ) (req : Request) (dest : String) (r : Reply QuoteResponseBody) (q : Quote)
    → quote_reply p n req dest r ≡ some q
    → q.available ≡ true
    → Accepted p req q
unfolding quote_reply no_quote
quote_reply-Accepted p n req dest failed q h a = absurd (ground arith)
quote_reply-Accepted p n req dest (replied resp) q h a = accept-Accepted p n req dest resp q h
quote_reply-Accepted p n req dest (api_error body) q h a =
    absurd (go (is_no_routes_found p.codec body) h)
  where
    go : (b : Bool) → (if b then some (no_quote p n req) else none) ≡ some q → ⊥
    go true e = ground (arith, ap (λ x. x.available) (some-injective _ q e), a)
    go false e = ground arith

get_quote-Accepted :
    (p : Provider) (n : ℕ) (req : Request) (q : Quote)
    → get_quote p n req ≡ some q
    → q.available ≡ true
    → Accepted p req q
unfolding get_quote
get_quote-Accepted p n req q h a =
    let (_, h1) = ensure-some _ _ q h in
    let (dest, _, h2) = and_then-some (weth_address_by_chain_id req.destination_chain_id) _ q h1 in
    let (source, _, h3) = and_then-some (weth_address_by_chain_id req.source_chain_id) _ q h2 in
    quote_reply-Accepted p n req dest _ q h3 a

-- What is known of an envelope that was built of a payload.
built-payload :
    (p : Provider) (q : Quote) (x : QuotePayload) (e : TxEnvelope)
    → p.codec.unmarshal_payload q.raw_provider_payload ≡ some x
    → build_transaction p q ≡ some e
    → (e.chain_id ≡ x.chain_id)
      × (e.to ≡ p.codec.hex_to_address x.to)
      × (p.codec.hex_to_address x.recipient ≡ p.wallet_address)
unfolding build_transaction
built-payload p q x e read h =
    let (y, seen, h1) = and_then-some (p.codec.unmarshal_payload q.raw_provider_payload) _ e h in
    let (_, h2) = ensure-some _ _ e h1 in
    let (known, h3) = ensure-some (p.codec.hex_to_address y.recipient == p.wallet_address) _ e h2 in
    let (value, _, h4) = and_then-some (set_string y.value) _ e h3 in
    let (input, _, h5) = and_then-some (decode_hex (strip_prefix y.data_hex)) _ e h4 in
    let same : y ≡ x = some-injective y x (sym seen ∙ read) in
    let envelope = sym (some-injective _ e h5) in
    (
      ap (λ z. z.chain_id) envelope ∙ ap (λ z. z.chain_id) same,
      ap (λ z. z.to) envelope ∙ ap (λ z. p.codec.hex_to_address z.to) same,
      ap (λ z. p.codec.hex_to_address z.recipient) (sym same)
          ∙ (eq_iff (p.codec.hex_to_address y.recipient) p.wallet_address).0 known,
    )

-- If JSON reads back the payloads it wrote, the quote is available, and a transaction is built of
-- it: the transaction is for the source chain of the request, the input of the quote is the
-- requested amount, its output is below it, and its fee is above zero.
pub build_transaction-get_quote :
    (p : Provider) (n : ℕ) (req : Request) (q : Quote) (e : TxEnvelope)
    → ((x : QuotePayload) (s : String)
        → p.codec.marshal_payload x ≡ some s
        → p.codec.unmarshal_payload s ≡ some x)
    → get_quote p n req ≡ some q
    → q.available ≡ true
    → build_transaction p q ≡ some e
    → (e.chain_id ≡ req.source_chain_id)
      × (q.input_amount_base_units ≡ some req.amount_base_units)
      × (q.output_amount_base_units <ℤ req.amount_base_units)
      × (pos 0 <ℤ q.fee_base_units)
build_transaction-get_quote p n req q e json quoted available built =
    let a = get_quote-Accepted p n req q quoted available in
    let (chain, _, _) =
      built-payload p q a.payload e (json a.payload q.raw_provider_payload a.marshalled) built in
    (chain ∙ a.chain, a.input, a.less, a.fee)
