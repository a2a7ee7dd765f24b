-- ===== src/Handler/Cors.antt =====
-- handler/cors.go: the headers that the middleware sets, and whether it goes on to the handler.
use chain_route.Prelude.{
  ℕ, String, Bool, true, false, Option, none, some, List, [], ◌∷◌, ◌==◌, if◌then◌else◌,
}
use chain_route.Handler.Request.{trim_space}

pub record CorsReply : Type 0 where
  pub vary : String
  pub allow_origin : Option String
  pub allow_methods : Option String
  pub allow_headers : Option String
  pub forwarded : Bool
  pub status : Option ℕ  -- of a reply that is not forwarded

-- The map `allowed`.
unfoldable pub is_allowed : List String → String → Bool
unfolding trim_space
is_allowed [] origin = false
is_allowed (o ∷ os) origin = if trim_space o == origin then true else is_allowed os origin

abbrev matches_origin : List String → String → Bool
matches_origin allowed_origins origin =
    if origin == "" then false else is_allowed allowed_origins origin

abbrev when : Bool → String → Option String
when true s = some s
when false s = none

unfoldable pub cors : List String → String → String → CorsReply
unfolding is_allowed
cors allowed_origins origin method = record {
  vary = "Origin";
  allow_origin = when (matches_origin allowed_origins origin) origin;
  allow_methods = when (matches_origin allowed_origins origin) "GET, POST, OPTIONS";
  allow_headers = when (matches_origin allowed_origins origin) "Content-Type, Idempotency-Key";
  forwarded = if method == "OPTIONS" then false else true;
  status = if method == "OPTIONS" then some 204 else none;
}
