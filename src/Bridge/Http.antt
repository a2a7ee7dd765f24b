-- ===== src/Bridge/Http.antt =====
-- The HTTP clients of the two providers, relay/client.go and across/client.go, over net/http. A
-- request that cannot be built, sent or read to its end has no answer.
use chain_route.Prelude.{
  ℕ, String, Option, none, some, List, [], ◌∷◌, ◌==◌, ltb, leb, if◌then◌else◌,
}
use Prim.Native.String

-- A body of `none` is that of a GET request.
pub record HttpRequest : Type 0 where
  pub url : String
  pub headers : List (String × String)
  pub body : Option String

pub record HttpResponse : Type 0 where
  pub status_code : ℕ
  pub body : String

-- What a call of `get` or `post` returns: the decoded body, an *APIError, or another error.
pub data Reply (A : Type 0) : Type 0 where
  replied : A → Reply A
  api_error : String → Reply A
  failed : Reply A

-- net/http and net/url: one exchange at a tick, and url.Values.Encode, which sorts by key.
pub record Transport : Type 0 where
  pub exchange : ℕ → HttpRequest → Option HttpResponse
  pub encode_values : List (String × List ℕ) → String

abbrev concat : String → String → String
concat s t = Prim.Native.String.◌++◌ s t

abbrev decoded : {A : Type 0} → Option A → Reply A
decoded none = failed
decoded (some a) = replied a

-- What both clients do with a response, given how its body is decoded.
unfoldable pub read_response : {A : Type 0} → (String → Option A) → Option HttpResponse → Reply A
read_response decode none = failed
read_response decode (some r) =
    if ltb r.status_code 200
    then api_error r.body
    else if leb 300 r.status_code
    then api_error r.body
    else decoded (decode r.body)

abbrev pub authorization : String → List (String × String)
authorization key = if key == "" then [] else ("Authorization", concat "Bearer " key) ∷ []

-- `path?query`, where there is a query.
abbrev with_query : Transport → String → List (String × List ℕ) → String
with_query t path [] = path
with_query t path (v ∷ vs) = concat path (concat "?" (t.encode_values (v ∷ vs)))

unfoldable pub get_url : Transport → String → String → List (String × List ℕ) → String
get_url t base path query = concat base (with_query t path query)

-- (*relay.Client).get and, with the query that has the integrator's id, (*across.Client).get.
unfoldable pub get :
    {A : Type 0}
    → Transport
    → String
    → String
    → (String → Option A)
    → ℕ
    → String
    → List (String × List ℕ)
    → Reply A
unfolding read_response get_url
get t base key decode n path query = read_response decode (
    t.exchange n
      (record { url = get_url t base path query; headers = authorization key; body = none }))

-- (*relay.Client).post; the body is what json.Marshal made of it.
unfoldable pub post :
    {A : Type 0}
    → Transport
    → String
    → String
    → (String → Option A)
    → ℕ
    → String
    → Option String
    → Reply A
unfolding read_response
post t base key decode n path none = failed
post t base key decode n path (some body) = read_response decode (
    t.exchange n (record {
      url = concat base path;
      headers = ("Content-Type", "application/json") ∷ authorization key;
      body = some body;
    }))
