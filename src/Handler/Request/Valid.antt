-- ===== src/Handler/Request/Valid.antt =====
-- handler/payments.go: PostPayments up to ParseFloat, on every branch.
use chain_route.Prelude.{
  ℕ, ◌≤◌, ◌<◌, ◌^◌, String, Bool, true, false, not, Option, none, some, List, ◌≡◌, ◌≢◌, refl, ◌⊎◌,
  inl, inr, ◌==◌, arith, eq_iff, if◌then◌else◌, ap, ltb→le,
}
use chain_route.Prelude.Int.{pos}
use chain_route.Money.{decimal_to_base_units}
use chain_route.World.{World, Env, ok, pure}
use chain_route.Handler.Routing.{
  Asset, Chain, Runtime, Handler, chain_by_name, asset_by_name, chain_eq,
}
use chain_route.Handler.Response.{Response}
use chain_route.Handler.Request.{
  CreatePaymentRequest, PostRequest, ValidRequest, Validation, refused, accepted, validate,
  validate_names, validate_amount, refuse_if, require, match_amount, is_zero_amount, mode_by_name,
  trim_space,
}
use chain_route.Handler.Request.Amount.{match_amount-decimal_to_base_units}
use chain_route.Handler.Create.{post_payments, post_validated, post_valid}

-- The amount as base units of a token with 18 decimals.
pub record PositiveAmount (amount : List ℕ) : Type 0 where
  pub units : ℕ
  pub converted : decimal_to_base_units amount 18 ≡ some (pos units)
  pub positive : 0 < units
  pub bounded : units < 10 ^ 38

-- What an accepted request has of the request that was sent.
pub record Accepts (rt : Runtime) (key : String) (req : CreatePaymentRequest) (v : ValidRequest)
    : Type 0 where
  pub same_key : v.idempotency_key ≡ key
  pub source : chain_by_name (rt.to_lower req.source_chain) ≡ some v.source_chain
  pub dest : chain_by_name (rt.to_lower req.destination_chain) ≡ some v.dest_chain
  pub asset : asset_by_name (rt.to_lower req.asset) ≡ some v.asset
  pub mode : mode_by_name req.execution_mode ≡ some v.mode
  pub same_amount : v.amount ≡ req.amount
  pub differ : chain_eq v.source_chain v.dest_chain ≡ false
  pub amount : PositiveAmount v.amount
  pub parsed : rt.parse_float req.amount ≡ (v.amount_for_routing, true)

abbrev Refuses : Validation → Type 0
Refuses x = (resp : Response) × (x ≡ refused resp) × (resp.status ≡ 400)

-- Refused with 400, or accepted with `P`.
abbrev Decides : (ValidRequest → Type 0) → Validation → Type 0
Decides P x = Refuses x ⊎ ((v : ValidRequest) × (x ≡ accepted v) × P v)

module _ {P : ValidRequest → Type 0} where
  refuse_if-Decides :
      (b : Bool) (message : String) (rest : Validation)
      → (b ≡ false → Decides P rest)
      → Decides P (refuse_if b message rest)
  unfolding refuse_if
  refuse_if-Decides true message rest h = inl (_, refl, refl)
  refuse_if-Decides false message rest h = h refl

  require-Decides :
      {A : Type 0} (o : Option A) (message : String) (rest : A → Validation)
      → ((a : A) → o ≡ some a → Decides P (rest a))
      → Decides P (require o message rest)
  unfolding require
  require-Decides none message rest h = inl (_, refl, refl)
  require-Decides (some a) message rest h = h a refl

both : (m z : Bool) → (if m then z else true) ≡ false → (m ≡ true) × (z ≡ false)
both m z h = ground arith

not-false : (b : Bool) → not b ≡ false → b ≡ true
not-false b h = ground arith

validate_amount-Decides :
    (rt : Runtime) (key : String) (req : CreatePaymentRequest) (a b : Chain) (c : Asset)
    → chain_by_name (rt.to_lower req.source_chain) ≡ some a
    → chain_by_name (rt.to_lower req.destination_chain) ≡ some b
    → asset_by_name (rt.to_lower req.asset) ≡ some c
    → Decides (Accepts rt key req) (validate_amount rt key req a b c)
unfolding validate_amount
validate_amount-Decides rt key req a b c source dest asset = refuse_if-Decides _ _ _ (λ good_amount.
    require-Decides _ _ _ (λ mode good_mode. refuse_if-Decides _ _ _ (λ differ.
      refuse_if-Decides _ _ _ (λ parsed.
        let (matched, nonzero) =
          both (match_amount req.amount) (is_zero_amount req.amount) good_amount in
        let (n, converted, positive, bounded) =
          match_amount-decimal_to_base_units req.amount matched nonzero in
        inr (
          _,
          refl,
          record {
            same_key = refl;
            source = source;
            dest = dest;
            asset = asset;
            mode = good_mode;
            same_amount = refl;
            differ = differ;
            amount = record {
              units = n;
              converted = converted;
              positive = positive;
              bounded = bounded;
            };
            parsed =
                ap (λ (x : Bool). ((rt.parse_float req.amount).0, x))
                  (not-false (rt.parse_float req.amount).1 parsed);
          },
        )))))

validate_names-Decides :
    (rt : Runtime) (key : String) (req : CreatePaymentRequest)
    → Decides (Accepts rt key req) (validate_names rt key req)
unfolding validate_names
validate_names-Decides rt key req = require-Decides _ _ _ (λ a source.
    require-Decides _ _ _ (λ b dest.
      require-Decides _ _ _
        (λ c asset. validate_amount-Decides rt key req a b c source dest asset)))

-- What an accepted request has of the HTTP request.
pub record AcceptsRequest (rt : Runtime) (r : PostRequest) (v : ValidRequest) : Type 0 where
  pub req : CreatePaymentRequest
  pub decoded : r.body ≡ some req
  pub key_present : trim_space r.idempotency_key ≢ ""
  pub key_short : Prim.Native.String.len (trim_space r.idempotency_key) ≤ 255
  pub fields : Accepts rt (trim_space r.idempotency_key) req v

not_empty : (k : String) → (k == "") ≡ false → k ≢ ""
not_empty k h = ground (arith, eq_iff k "")

validate-Decides : (rt : Runtime) (r : PostRequest) → Decides (AcceptsRequest rt r) (validate rt r)
unfolding validate
validate-Decides rt r = refuse_if-Decides _ _ _ (λ present. refuse_if-Decides _ _ _ (λ short.
    require-Decides _ _ _ (λ req decoded.
      elim (validate_names-Decides rt (trim_space r.idempotency_key) req) [
        | inl bad ↦ inl bad
        | inr (v, good, fields) ↦ inr (
          v,
          good,
          record {
            req = req;
            decoded = decoded;
            key_present = not_empty (trim_space r.idempotency_key) present;
            key_short = ltb→le 255 (Prim.Native.String.len (trim_space r.idempotency_key)) short;
            fields = fields;
          },
        )
      ])))

-- A request to create a payment is either answered 400, with nothing asked, stored or recorded; or it
-- goes on with an idempotency key of 1 to 255 bytes, two different known chains, a known asset and
-- mode, and the amount as it was sent, which as base units of 18 decimals is above zero and below 10^38.
pub post_payments-validated :
    (h : Handler) (r : PostRequest) (env : Env) (w : World)
    → ((resp : Response) × (resp.status ≡ 400) × (post_payments h r env w ≡ (ok resp, w)))
      ⊎ ((v : ValidRequest) × AcceptsRequest h.runtime r v
          × (post_payments h r env w ≡ post_valid h v env w))
unfolding post_payments post_validated pure
post_payments-validated h r env w = elim (validate-Decides h.runtime r) [
  | inl (resp, x, bad) ↦ inl (resp, bad, ap (λ y. post_validated h y env w) x)
  | inr (v, x, fields) ↦ inr (v, fields, ap (λ y. post_validated h y env w) x)
]
