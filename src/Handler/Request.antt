-- ===== src/Handler/Request.antt =====
-- handler/payments.go: the part of PostPayments that needs neither the store nor a provider, from
-- the Idempotency-Key header to ParseFloat. A header's value and a JSON string are valid UTF-8 here;
-- the amount is its bytes.
pub mod Amount
pub mod Valid
use chain_route.Prelude.{
  ℕ, suc, String, Bool, true, false, not, ◌&&◌, Option, none, some, List, [], ◌∷◌, ◌==◌, eqb, ltb,
  leb, if◌then◌else◌, length,
}
use Prim.Native.Char.{code}
use chain_route.Payment.{Float64, ExecutionMode, simulated, testnet}
use chain_route.Money.{is_digit}
use chain_route.Handler.Routing.{Asset, Chain, Runtime, chain_by_name, asset_by_name, chain_eq}
use chain_route.Handler.Response.{Response, write_error}
use chain_route.Handler.Routes.{concat}

abbrev pub max_idempotency_key_length : ℕ
max_idempotency_key_length = 255

pub record CreatePaymentRequest : Type 0 where
  pub source_chain : String
  pub destination_chain : String
  pub asset : String
  pub amount : List ℕ
  pub execution_mode : String

-- What the handler reads of an *http.Request; the body is `none` where it does not decode.
pub record PostRequest : Type 0 where
  pub idempotency_key : String
  pub body : Option CreatePaymentRequest

-- unicode.IsSpace: the property White_Space.
abbrev pub is_space : ℕ → Bool
is_space c =
    if leb c 32
    then (if leb 9 c then (if leb c 13 then true else eqb c 32) else false)
    else if eqb c 133
    then true
    else if eqb c 160
    then true
    else if eqb c 5760
    then true
    else if leb 8192 c && leb c 8202
    then true
    else if leb 8232 c && leb c 8233
    then true
    else if eqb c 8239
    then true
    else if eqb c 8287
    then true
    else eqb c 12288

-- strings.TrimSpace.
unfoldable pub trim_left : String → String
trim_left String.[] = String.[]
trim_left (String.◌∷◌ c s) =
    let rest = trim_left s in if is_space (code c) then rest else String.◌∷◌ c s

unfoldable pub trim_right : String → String
trim_right String.[] = String.[]
trim_right (String.◌∷◌ c s) = elim (trim_right s) [
  | String.[] ↦ if is_space (code c) then String.[] else String.◌∷◌ c String.[]
  | String.◌∷◌ d t ↦ String.◌∷◌ c (String.◌∷◌ d t)
]

unfoldable pub trim_space : String → String
unfolding trim_left trim_right
trim_space s = trim_right (trim_left s)

-- The longest run of digits in front, and the rest.
unfoldable pub span_digits : List ℕ → List ℕ × List ℕ
span_digits [] = ([], [])
span_digits (c ∷ cs) =
    let (ds, rest) = span_digits cs in if is_digit c then (c ∷ ds, rest) else ([], c ∷ cs)

-- \d{1,n}, for a run of digits.
abbrev pub up_to : ℕ → List ℕ → Bool
up_to n ds = leb 1 (length ds) && leb (length ds) n

abbrev pub at_end : List ℕ → Bool
at_end [] = true
at_end (_ ∷ _) = false

-- (\.\d{1,18})?$
unfoldable pub match_fraction : List ℕ → Bool
unfolding span_digits
match_fraction [] = true
match_fraction (c ∷ cs) =
    let (ds, rest) = span_digits cs in eqb c b'.' && (up_to 18 ds && at_end rest)

-- amountPattern. What follows the integer digits is no digit, so the match is the greedy one.
unfoldable pub match_amount : List ℕ → Bool
unfolding match_fraction
match_amount amount = let (ds, rest) = span_digits amount in up_to 20 ds && match_fraction rest

unfoldable pub is_zero_amount : List ℕ → Bool
is_zero_amount [] = true
is_zero_amount (c ∷ cs) =
    let rest = is_zero_amount cs in if eqb c b'0' then rest else if eqb c b'.' then rest else false

unfoldable pub mode_by_name : String → Option ExecutionMode
mode_by_name s =
    if s == ""
    then some simulated
    else if s == "simulated"
    then some simulated
    else if s == "testnet"
    then some testnet
    else none

-- What the rest of the handler uses of a request that passed.
pub record ValidRequest : Type 0 where
  pub idempotency_key : String
  pub source_chain : Chain
  pub dest_chain : Chain
  pub asset : Asset
  pub asset_name : String  -- as it was sent
  pub amount : List ℕ
  pub mode : ExecutionMode
  pub amount_for_routing : Float64

pub data Validation : Type 0 where
  refused : Response → Validation
  accepted : ValidRequest → Validation

abbrev pub bad_request : String → Validation
bad_request message = refused (write_error 400 message)

-- `if test { writeError(...); return }`.
unfoldable pub refuse_if : Bool → String → Validation → Validation
refuse_if true message rest = bad_request message
refuse_if false message rest = rest

-- `x, ok := ...; if !ok { writeError(...); return }`.
unfoldable pub require : {A : Type 0} → Option A → String → (A → Validation) → Validation
require none message rest = bad_request message
require (some a) message rest = rest a

unfoldable pub validate_amount :
    Runtime → String → CreatePaymentRequest → Chain → Chain → Asset → Validation
unfolding match_amount is_zero_amount mode_by_name refuse_if require
validate_amount rt key req source_chain dest_chain asset =
    refuse_if (if match_amount req.amount then is_zero_amount req.amount else true)
      "amount must be a positive decimal with at most 20 integer digits and 18 fractional digits"
      (require (mode_by_name req.execution_mode)
        "execution_mode must be \"simulated\" or \"testnet\""
        (λ mode. refuse_if (chain_eq source_chain dest_chain) "source and destination must differ" (
          let (amount_for_routing, parsed) = rt.parse_float req.amount in
          refuse_if (not parsed) "invalid amount" (
            accepted (record {
              idempotency_key = key;
              source_chain = source_chain;
              dest_chain = dest_chain;
              asset = asset;
              asset_name = req.asset;
              amount = req.amount;
              mode = mode;
              amount_for_routing = amount_for_routing;
            })))))

unfoldable pub validate_names : Runtime → String → CreatePaymentRequest → Validation
unfolding validate_amount
validate_names rt key req =
    require (chain_by_name (rt.to_lower req.source_chain))
      (concat "invalid chain: " req.source_chain)
      (λ source_chain.
        require (chain_by_name (rt.to_lower req.destination_chain))
          (concat "invalid chain: " req.destination_chain)
          (λ dest_chain.
            require (asset_by_name (rt.to_lower req.asset)) (concat "invalid asset: " req.asset)
              (λ asset. validate_amount rt key req source_chain dest_chain asset)))

unfoldable pub validate : Runtime → PostRequest → Validation
unfolding trim_space validate_names
validate rt r =
    let key = trim_space r.idempotency_key in
    refuse_if (key == "") "Idempotency-Key header is required" (
      refuse_if (ltb max_idempotency_key_length (Prim.Native.String.len key))
        "Idempotency-Key exceeds maximum length"
        (require r.body "invalid JSON body" (λ req. validate_names rt key req)))
