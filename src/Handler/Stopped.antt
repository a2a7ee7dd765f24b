-- ===== src/Handler/Stopped.antt =====
-- handler/payments.go: the responses with which the testnet block of PostPayments returns early.
use chain_route.Prelude.{
  Bool, true, false, Option, none, some, List, [], ◌∷◌, ◌≡◌, ◌≢◌, sym, ap, subst, ◌∙◌, arith,
  if◌then◌else◌,
}
use chain_route.Prelude.Int.{ℤ}
use chain_route.Payment.{ExecutionMode, simulated, testnet}
use chain_route.Bridge.Quote.{Provider}
use chain_route.World.{World, Env, ok, M, pure, ◌>>=◌}
use chain_route.World.Answers.{bind-ok}
use chain_route.Handler.Routing.{Handler, RouteKey}
use chain_route.Handler.Request.{ValidRequest}
use chain_route.Handler.Quotes.{
  Gathered, stop, candidates, Tally, weigh, gather_from, gather_units, gather_amount, gather_key,
  gather_quotes, registered,
}
use chain_route.Handler.Response.{write_error}
use chain_route.Handler.Create.{gather}

-- A handler that returns early does not answer 201.
abbrev pub NotCreated : Gathered → Type 0
NotCreated (stop resp) = resp.status ≢ 201
NotCreated (candidates edges quotes) = Unit

-- What an action returns has a property.
pub record Gives {A : Type 0} (P : A → Type 0) (m : M A) : Type 0 where
  pub gives : (env : Env) (w : World) (a : A) → (m env w).0 ≡ ok a → P a

module _ {A : Type 0} {P : A → Type 0} where
  Gives-pure : (a : A) → P a → Gives P (pure a)
  unfolding pure
  Gives-pure a p = record { gives = λ env w b e. subst P (ground arith) p }

  Gives-bind : {B : Type 0} (m : M B) (f : B → M A) → ((b : B) → Gives P (f b)) → Gives P (m >>= f)
  Gives-bind m f h = record {
    gives = λ env w a e.
        let (b, _, rest) = bind-ok m f env w a e in
        (h b).gives env (m env w).1 a (ap (λ x. x.0) (sym rest) ∙ e);
  }

  Gives-if : (b : Bool) (m n : M A) → Gives P m → Gives P n → Gives P (if b then m else n)
  Gives-if true m n p q = p
  Gives-if false m n p q = q

weigh-NotCreated : (t : Tally) → NotCreated (weigh t)
unfolding weigh
weigh-NotCreated t = go t.any_succeeded t.any_available
  where
    go :
        (b c : Bool)
        → NotCreated (
            if b
            then (if c
                then candidates t.edges t.quotes
                else stop (write_error 422 "no route available for the requested payment"))
            else stop (write_error 503 "bridge quote providers unavailable"))
    go true true = tt
    go true false = λ e. ground arith
    go false c = λ e. ground arith

gather_units-NotCreated :
    (h : Handler) (v : ValidRequest) (k : RouteKey) (ps : List Provider) (o : Option ℤ)
    → Gives NotCreated (gather_units h v k ps o)
unfolding gather_units gather_from
gather_units-NotCreated h v k ps none = Gives-pure _ (λ e. ground arith)
gather_units-NotCreated h v k ps (some a) =
    Gives-if _ _ _ (Gives-pure _ (λ e. ground arith))
      (Gives-bind _ _ (λ rs. Gives-pure _ (weigh-NotCreated _)))

gather_key-NotCreated :
    (h : Handler) (v : ValidRequest) (k : Option RouteKey) → Gives NotCreated (gather_key h v k)
unfolding gather_key gather_amount
gather_key-NotCreated h v none = Gives-pure _ (λ e. ground arith)
gather_key-NotCreated h v (some k) = go (registered h k)
  where
    go : (ps : List Provider) → Gives NotCreated (gather_amount h v k ps)
    go [] = Gives-pure _ (λ e. ground arith)
    go (p ∷ ps) = gather_units-NotCreated h v k (p ∷ ps) _

pub gather-NotCreated :
    (h : Handler) (v : ValidRequest) (m : ExecutionMode) → Gives NotCreated (gather h v m)
unfolding gather gather_quotes
gather-NotCreated h v simulated = Gives-pure _ tt
gather-NotCreated h v testnet =
    Gives-if _ _ _ (gather_key-NotCreated h v _) (Gives-pure _ (λ e. ground arith))
