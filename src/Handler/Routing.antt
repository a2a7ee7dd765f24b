-- ===== src/Handler/Routing.antt =====
-- handler/routes.go and bridge/quote/registry.go: the handler's fields, the tables of chains and
-- assets, the registry of quote providers, and the calls of the routing service, whose messages are
-- those of proto/chainroute/v1/routing.proto.
use chain_route.Prelude.{
  ℕ, String, Bool, ◌&&◌, Option, none, some, List, [], ◌∷◌, ◌++◌, ◌==◌, eqb, if◌then◌else◌,
}
use chain_route.Prelude.Int.{ℤ}
use chain_route.Payment.{Float64, Time}
use chain_route.Bridge.Quote.{Provider, Quote}

-- A proto3 enum is open: `other_value` is 0 (unspecified) or a number that no constant has.
pub data Chain : Type 0 where
  ethereum base arbitrum optimism polygon : Chain
  other_value : ℕ → Chain

pub data Asset : Type 0 where
  usdc eth : Asset

pub record CandidateEdge : Type 0 where
  pub bridge_name : String
  pub fee : Float64
  pub latency_ms : Float64
  pub liquidity : Float64
  pub reliability : Float64

pub record FindRouteRequest : Type 0 where
  pub source_chain : Chain
  pub destination_chain : Chain
  pub asset : Asset
  pub amount : Float64
  pub candidate_edges : List CandidateEdge

pub record RouteHop : Type 0 where
  pub from_chain : Chain
  pub to_chain : Chain
  pub bridge_name : String
  pub fee : Float64
  pub latency_ms : Float64
  pub liquidity : Float64
  pub reliability : Float64

pub record FindRouteResponse : Type 0 where
  pub route_found : Bool
  pub hops : List RouteHop
  pub total_fee : Float64

-- The gRPC status codes that the handlers tell apart.
pub data StatusCode : Type 0 where
  invalid_argument unavailable deadline_exceeded other_code : StatusCode

-- What FindRoute returns: a response, or an error with its code and its message.
pub data RouteReply : Type 0 where
  replied : FindRouteResponse → RouteReply
  call_failed : StatusCode → String → RouteReply

pub record RoutingClient : Type 0 where
  pub find_route : ℕ → FindRouteRequest → RouteReply

unfoldable pub chain_by_name : String → Option Chain
chain_by_name name =
    if name == "ethereum"
    then some Chain.ethereum
    else if name == "base"
    then some Chain.base
    else if name == "arbitrum"
    then some Chain.arbitrum
    else if name == "optimism"
    then some Chain.optimism
    else if name == "polygon"
    then some Chain.polygon
    else none

-- A missing key gives the empty string.
abbrev pub chain_name_by_value : Chain → String
chain_name_by_value Chain.ethereum = "ethereum"
chain_name_by_value Chain.base = "base"
chain_name_by_value Chain.arbitrum = "arbitrum"
chain_name_by_value Chain.optimism = "optimism"
chain_name_by_value Chain.polygon = "polygon"
chain_name_by_value (Chain.other_value _) = ""

unfoldable pub asset_by_name : String → Option Asset
asset_by_name name =
    if name == "usdc" then some Asset.usdc else if name == "eth" then some Asset.eth else none

abbrev pub asset_name_by_value : Asset → String
asset_name_by_value Asset.usdc = "USDC"
asset_name_by_value Asset.eth = "ETH"

unfoldable pub testnet_chain_id_by_chain : Chain → Option ℕ
testnet_chain_id_by_chain Chain.ethereum = some 11155111
testnet_chain_id_by_chain Chain.base = some 84532
testnet_chain_id_by_chain _ = none

unfoldable pub bridged_asset_symbol : String → Option String
bridged_asset_symbol name = if name == "eth" then some "WETH" else none

-- `==` on the enum.
abbrev pub chain_eq : Chain → Chain → Bool
chain_eq a b = eqb (number a) (number b)
  where
    number : Chain → ℕ
    number (Chain.other_value n) = n
    number Chain.ethereum = 1
    number Chain.base = 2
    number Chain.arbitrum = 3
    number Chain.optimism = 4
    number Chain.polygon = 5

pub record RouteKey : Type 0 where
  pub source_chain_id : ℕ
  pub destination_chain_id : ℕ
  pub asset : String

-- The map of a Registry, one entry for each key.
pub record Entry : Type 0 where
  pub key : RouteKey
  pub providers : List Provider

abbrev pub Registry : Type 0
Registry = List Entry

abbrev pub new_registry : Registry
new_registry = []

abbrev pub route_key_eq : RouteKey → RouteKey → Bool
route_key_eq a b =
    eqb a.source_chain_id b.source_chain_id
    && (eqb a.destination_chain_id b.destination_chain_id && (a.asset == b.asset))

unfoldable pub register : RouteKey → Provider → Registry → Registry
register key p [] = record { key = key; providers = p ∷ [] } ∷ []
register key p (e ∷ r) =
    if route_key_eq e.key key
    then record e { providers = e.providers ++ p ∷ [] } ∷ r
    else e ∷ register key p r

unfoldable pub providers_for : RouteKey → Registry → List Provider
providers_for key [] = []
providers_for key (e ∷ r) = if route_key_eq e.key key then e.providers else providers_for key r

-- What the handlers use of Go's standard library and of the runtime: the case tables of Unicode,
-- IEEE 754, the texts of times, and the order in which a `range` visits a map. The error of
-- ParseFloat comes beside the number that it returns with it.
pub record Runtime : Type 0 where
  pub to_lower : String → String
  pub parse_float : List ℕ → Float64 × Bool
  pub positive : Float64 → Bool
  pub seconds_to_ms : ℕ → Float64
  pub one : Float64
  pub format_time : Time → String
  pub format_bucket : Time → String
  pub map_order : ℕ → List (String × Quote) → List (String × Quote)

-- The metrics and the logger stand in the world or are left out.
pub record Handler : Type 0 where
  pub client : RoutingClient
  pub blockchain_env : String
  pub max_testnet_amount_wei : Option ℤ
  pub quote_registry : Option Registry
  pub runtime : Runtime
