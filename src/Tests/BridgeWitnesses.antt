-- ===== src/Tests/BridgeWitnesses.antt =====
-- The theorems on the providers, at concrete answers of their services.
use chain_route.Prelude.{
  ℕ, ◌+◌, String, Bool, true, false, ◌&&◌, none, some, List, [], ◌∷◌, ◌≡◌, refl, arith, eqb, eq_iff,
  if◌then◌else◌, ◌==◌, and_then, ensure,
}
use chain_route.Prelude.Int.{pos, negsuc, ◌<ℤ◌, ◌-ℤ◌}
use chain_route.Money.{set_string, digits_value}
use chain_route.Bridge.Quote.{Quote, Request, TxEnvelope}
use chain_route.Bridge.Http.{Transport}
use chain_route.Bridge.Relay.Sound.{build_transaction-get_quote}
use chain_route.Bridge.Relay as Relay
use chain_route.Bridge.Across.Sound.{Deposit, build_transaction-Deposit}
use chain_route.Bridge.Across as Across
use chain_route.Tests.{same_bytes}

abbrev transport : Transport
transport = record {
  exchange = λ n r. some (record { status_code = 200; body = "answer" });
  encode_values = λ vs. "query";
}

abbrev request : Request
request = record {
  source_chain_id = 11155111;
  destination_chain_id = 84532;
  asset = "WETH";
  amount_base_units = pos 100;
}

abbrev minimum : List ℕ
minimum = b'9' ∷ b'7' ∷ []

abbrev relay_response : Relay.QuoteResponseBody
relay_response = record {
  request_id = "request-1";
  steps =
      record {
        kind = "transaction";
        items =
            record {
              to = "depository";
              data_hex = b'0' ∷ b'x' ∷ b'f' ∷ b'f' ∷ [];
              value = b'1' ∷ b'0' ∷ b'0' ∷ [];
              chain_id = 11155111;
            }
            ∷ [];
      }
      ∷ [];
  currency_in = record { chain_id = 11155111; address = Relay.native_address; minimum_amount = [] };
  currency_out = record {
    chain_id = 84532;
    address = "0x4200000000000000000000000000000000000006";
    minimum_amount = minimum;
  };
  time_estimate = 12;
  recipient = "wallet";
  deadline = 900;
}

abbrev payload_with : String → List ℕ → List ℕ → ℕ → String → ℕ → String → Relay.QuotePayload
payload_with to data_hex value chain_id request_id deadline recipient = record {
  to = to;
  data_hex = data_hex;
  value = value;
  chain_id = chain_id;
  request_id = request_id;
  deadline = deadline;
  recipient = recipient;
}

abbrev relay_payload : Relay.QuotePayload
relay_payload =
    payload_with "depository" (b'0' ∷ b'x' ∷ b'f' ∷ b'f' ∷ []) (b'1' ∷ b'0' ∷ b'0' ∷ []) 11155111
      "request-1" 900 "wallet"

-- This JSON knows one payload.
abbrev is_relay_payload : Relay.QuotePayload → Bool
is_relay_payload x =
    (x.to == relay_payload.to)
    && (same_bytes x.data_hex relay_payload.data_hex
        && (same_bytes x.value relay_payload.value
            && (eqb x.chain_id relay_payload.chain_id
                && ((x.request_id == relay_payload.request_id)
                    && (eqb x.deadline relay_payload.deadline
                        && (x.recipient == relay_payload.recipient))))))

and-true : (a b : Bool) → (a && b) ≡ true → (a ≡ true) × (b ≡ true)
and-true true b h = (refl, h)
and-true false b h = absurd (ground arith)

same_bytes-true : (xs ys : List ℕ) → same_bytes xs ys ≡ true → xs ≡ ys
same_bytes-true [] [] h = refl
same_bytes-true [] (y ∷ ys) h = absurd (ground arith)
same_bytes-true (x ∷ xs) [] h = absurd (ground arith)
same_bytes-true (x ∷ xs) (y ∷ ys) h = ground (arith, h, same_bytes-true xs ys)

eqb-equal : (a b : ℕ) → eqb a b ≡ true → a ≡ b
eqb-equal a b h = ground (arith, h)

known_payload : (x : Relay.QuotePayload) → is_relay_payload x ≡ true → x ≡ relay_payload
known_payload x h =
    let (a, h1) = and-true _ _ h in
    let (b, h2) = and-true (same_bytes x.data_hex relay_payload.data_hex) _ h1 in
    let (c, h3) = and-true (same_bytes x.value relay_payload.value) _ h2 in
    let (d, h4) = and-true (eqb x.chain_id relay_payload.chain_id) _ h3 in
    let (e, h5) = and-true (x.request_id == relay_payload.request_id) _ h4 in
    let (f, g) = and-true (eqb x.deadline relay_payload.deadline) _ h5 in
    go _ _ _ _ _ _ _ ((eq_iff x.to _).0 a) (same_bytes-true x.data_hex _ b)
      (same_bytes-true x.value _ c) (eqb-equal x.chain_id _ d) ((eq_iff x.request_id _).0 e)
      (eqb-equal x.deadline _ f) ((eq_iff x.recipient _).0 g)
  where
    go :
        (a : String) (b c : List ℕ) (d : ℕ) (e : String) (f : ℕ) (g : String)
        → x.to ≡ a
        → x.data_hex ≡ b
        → x.value ≡ c
        → x.chain_id ≡ d
        → x.request_id ≡ e
        → x.deadline ≡ f
        → x.recipient ≡ g
        → x ≡ payload_with a b c d e f g
    go a b c d e f g ha hb hc hd he hf hg = rw (← ha, ← hb, ← hc, ← hd, ← he, ← hf, ← hg)

abbrev relay : Relay.Provider
relay = record {
  transport = transport;
  base_url = "https://relay";
  api_key = "";
  wallet_address = "wallet";
  quote_ttl = 30;
  clock = λ n. n + 100;
  codec = record {
    marshal_request = λ r. some "request";
    unmarshal_response = λ s. some relay_response;
    unmarshal_error_code = λ s. none;
    marshal_payload = λ x. if is_relay_payload x then some "payload" else none;
    unmarshal_payload = λ s. some relay_payload;
    unmarshal_status = λ s. none;
    hex_to_address = λ s. s;
    hex = λ s. s;
  };
}

relay_json :
    (x : Relay.QuotePayload) (s : String)
    → relay.codec.marshal_payload x ≡ some s
    → relay.codec.unmarshal_payload s ≡ some x
relay_json x s h = go (is_relay_payload x) refl h
  where
    go :
        (b : Bool)
        → is_relay_payload x ≡ b
        → (if b then some "payload" else none) ≡ some s
        → relay.codec.unmarshal_payload s ≡ some x
    go true e k = rw (known_payload x e)
    go false e k = absurd (ground arith)

abbrev quoted : Quote
quoted = record {
  provider_name = "relay";
  source_chain_id = 11155111;
  destination_chain_id = 84532;
  asset = "WETH";
  input_amount_base_units = some (pos 100);
  output_amount_base_units = pos 97;
  fee_base_units = pos 3;
  estimated_fill_time_sec = 12;
  available = true;
  quoted_at = 105;
  expires_at = 135;
  raw_provider_payload = "payload";
}

abbrev sent : TxEnvelope
sent = record { to = "depository"; value = some (pos 100); input = 255 ∷ []; chain_id = 11155111 }

build_transaction-get_quote_example :
    (sent.chain_id ≡ request.source_chain_id)
    × (quoted.input_amount_base_units ≡ some (pos 100))
    × (pos 97 <ℤ pos 100)
    × (pos 0 <ℤ pos 3)
unfolding Relay.get_quote Relay.Execute.build_transaction ensure and_then set_string digits_value
    ◌-ℤ◌
build_transaction-get_quote_example =
    build_transaction-get_quote relay 5 request quoted sent relay_json refl refl refl

abbrev fees : Across.SuggestedFeesResponse
fees = record {
  output_amount = minimum;
  fill_deadline = b'9' ∷ b'0' ∷ [];
  exclusivity_deadline = negsuc 0;
  exclusive_relayer = "nobody";
  timestamp = b'4' ∷ b'5' ∷ [];
  spoke_pool_address = "spoke-pool";
  is_amount_too_low = false;
  estimated_fill_time_sec = 12;
  input_token = record {
    address = "0xfFf9976782d46CC05630D1f6eBAb18b2324d6B14";
    chain_id = 11155111;
  };
  output_token = record {
    address = "0x4200000000000000000000000000000000000006";
    chain_id = 84532;
  };
}

abbrev across : Across.Provider
across = record {
  transport = transport;
  base_url = "https://across";
  api_key = "key";
  integrator_id = "";
  quote_ttl = 30;
  clock = λ n. n + 100;
  wallet_address = "wallet";
  spoke_pool_address = "spoke-pool";
  weth_origin = "weth";
  weth_destination = "weth-base";
  origin_chain_id = 11155111;
  codec = record {
    unmarshal_fees = λ s. some fees;
    unmarshal_status = λ s. none;
    marshal_payload = λ x. some "payload";
    unmarshal_payload = λ s. some (record {
      exclusive_relayer = "nobody";
      quote_timestamp = b'4' ∷ b'5' ∷ [];
      fill_deadline = b'9' ∷ b'0' ∷ [];
      exclusivity_deadline = negsuc 0;
      spoke_pool_address = "spoke-pool";
    });
    contains = λ s t. false;
    hex_to_address = λ s. s;
    pack_deposit = λ a. some (a.quote_timestamp ∷ a.fill_deadline ∷ a.exclusivity_deadline ∷ []);
  };
}

abbrev deposit : TxEnvelope
deposit = record {
  to = "spoke-pool";
  value = some (pos 100);
  input = 45 ∷ 90 ∷ 4294967295 ∷ [];
  chain_id = 11155111;
}

abbrev across_quoted : Quote
across_quoted = record quoted { provider_name = "across" }

build_transaction-Deposit_example :
    (deposit.to ≡ "spoke-pool")
    × (deposit.chain_id ≡ 11155111)
    × (deposit.value ≡ some (pos 100))
    × Deposit across request across_quoted deposit
unfolding Across.get_quote Across.Execute.build_transaction ensure and_then set_string digits_value
    ◌-ℤ◌
build_transaction-Deposit_example =
    build_transaction-Deposit across 5 request across_quoted deposit refl refl refl
