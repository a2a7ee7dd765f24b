-- ===== src/Handler/Stored.antt =====
-- handler/payments.go: what is in the database when PostPayments answers 201.
use chain_route.Prelude.{
  ℕ, if◌then◌else◌, String, Bool, true, false, Option, none, some, List, [], ◌∷◌, ◌++◌, ◌≡◌, ◌≢◌,
  refl, sym, ap, ◌∙◌, subst, inl, inr, arith,
}
use chain_route.Payment.{
  Payment, CreateResult, created, replayed, conflict, ExecutionMode, simulated, testnet, Quote,
}
use chain_route.Bridge.Quote.{Quote as LiveQuote}
use chain_route.Db.{Db, PaymentRow}
use chain_route.World.{
  World, Env, Fault, Result, ok, err, M, answer, key_vanished, fail, pure, attempt, ◌>>=◌, ◌>>◌,
  emit, statement, routing_failures,
}
use chain_route.Store.Create.{
  new_row, new_outbox_row, insert_payment_stmt, insert_payment, replay, settle,
  create_or_get_payment,
}
use chain_route.Store.Create.Outcomes.{insert_payment-cases}
use chain_route.Handler.Routing.{
  Handler, FindRouteResponse, RouteReply, RouteHop, StatusCode, replied, call_failed,
}
use chain_route.Handler.Response.{
  Response, internal_error, write_outcome, write_existing, write_error,
}
use chain_route.Handler.Routes.{routing_error}
use chain_route.Handler.Request.{ValidRequest}
use chain_route.Handler.Quotes.{Quotes, Gathered, stop, candidates}
use chain_route.World.Answers.{bind-ok}
use chain_route.Handler.Stopped.{NotCreated, gather-NotCreated}
use chain_route.Handler.Create.{
  candidate, count_created, save_payment, save_winner, save_hops, settle_route, route_payment,
  gather, post_new, post_looked_up, post_valid,
}

-- The rows of a payment that the transaction has just put in place.
pub record Stored (p : Payment) (env : Env) (d : Db) : Type 0 where
  pub tick : ℕ
  pub before : Db
  pub amount : List ℕ
  pub amount_stored : env.numeric_text p.amount ≡ some amount
  pub row : d.payments ≡ before.payments ++ new_row p (env.new_id tick) amount (env.clock tick) ∷ []
  pub event :
      d.outbox ≡ before.outbox ++ new_outbox_row env tick (env.new_id tick) (env.clock tick) ∷ []

abbrev on_hit : M CreateResult → Option (PaymentRow × Bool) → M CreateResult
on_hit m none = m
on_hit m (some (row, matches)) = replay row matches

replay-created :
    (row : PaymentRow) (b : Bool) (env : Env) (w : World) (q : Payment)
    → (replay row b env w).0 ≢ ok (created q)
unfolding replay pure
replay-created row false env w q h = ground arith
replay-created row true env w q h =
    let (hs, _, rest) = bind-ok _ _ env w _ h in ground (arith, rest)

attempt-ok :
    {A : Type 0} (m : M A) (env : Env) (w : World) (r : Result A)
    → (attempt m env w).0 ≡ ok r
    → (m env w).0 ≡ r
unfolding attempt
attempt-ok m env w r h = ground arith

answered-created :
    (f : Fault) (p : Payment) (env : Env) (n : ℕ) (d : Db) (q : Payment)
    → (answer f (insert_payment_stmt p env n d) d).0 ≡ ok (some q)
    → Stored p env (answer f (insert_payment_stmt p env n d) d).1
answered-created Fault.rejected p env n d q h = ground arith
answered-created Fault.answer_lost p env n d q h = ground arith
answered-created Fault.fine p env n d q h = elim (insert_payment-cases p env n d) [
  | inl (e, failed) ↦ ground arith
  | inr (inl (lost, _)) ↦ ground arith
  | inr (inr x) ↦ record {
    tick = n;
    before = d;
    amount = x.amount;
    amount_stored = x.amount_valid;
    row = ground (arith, x.result);
    event = ground (arith, x.result);
  }
]

insert_payment-created :
    (p : Payment) (env : Env) (w : World) (q : Payment)
    → (insert_payment p env w).0 ≡ ok (some q)
    → Stored p env (insert_payment p env w).1.db
unfolding insert_payment statement
insert_payment-created p env w q h =
    answered-created (env.fault w.tick) p env w.tick (env.others w.tick w.db) q h

settle-created :
    (p : Payment) (o : Option Payment) (env : Env) (w : World) (q : Payment)
    → (settle p o env w).0 ≡ ok (created q)
    → (o ≡ some q) × ((settle p o env w).1 ≡ w)
unfolding settle pure fail
settle-created p (some x) env w q h = ground arith
settle-created p none env w q h =
    let (hit, _, rest) = bind-ok _ _ env w _ h in reread hit _ (ap (λ x. x.0) (sym rest) ∙ h)
  where
    reread :
        (hit : Option (PaymentRow × Bool)) (w' : World)
        → (on_hit (fail key_vanished) hit env w').0 ≡ ok (created q)
        → (none ≡ some q) × ((settle p none env w).1 ≡ w)
    reread none w' g = ground arith
    reread (some (row, b)) w' g = absurd (replay-created row b env w' q g)

create_or_get_payment-created :
    (p : Payment) (env : Env) (w : World) (q : Payment)
    → (create_or_get_payment p env w).0 ≡ ok (created q)
    → Stored p env (create_or_get_payment p env w).1.db
unfolding create_or_get_payment
create_or_get_payment-created p env w q h =
    let (hit, _, rest) = bind-ok _ _ env w _ h in
    subst (λ x. Stored p env x.1.db) (sym rest) (go hit _ (ap (λ x. x.0) (sym rest) ∙ h))
  where
    go :
        (hit : Option (PaymentRow × Bool)) (w' : World)
        → (on_hit (insert_payment p >>= settle p) hit env w').0 ≡ ok (created q)
        → Stored p env (on_hit (insert_payment p >>= settle p) hit env w').1.db
    go (some (row, b)) w' g = absurd (replay-created row b env w' q g)
    go none w' g =
        let (o, inserted, r) = bind-ok (insert_payment p) (settle p) env w' _ g in
        let (is, same) = settle-created p o env _ q (ap (λ x. x.0) (sym r) ∙ g) in
        subst (λ x. Stored p env x.1.db) (sym r)
          (subst (λ x. Stored p env x.db) (sym same)
            (insert_payment-created p env w' q (inserted ∙ ap ok is)))

-- The payment is the one that the request asks for.
pub record Saves (v : ValidRequest) (env : Env) (d : Db) : Type 0 where
  pub resp : FindRouteResponse
  pub provider : Option String
  pub quotes : List Quote
  pub stored : Stored (candidate v resp provider quotes) env d

routing_error-other :
    (code : StatusCode) (message : String) → (routing_error code message).status ≢ 201
unfolding routing_error
routing_error-other code message = λ e. ground arith

-- What an action that answers 201 has done.
record Answers (v : ValidRequest) (m : M Response) : Type 0 where
  at :
      (env : Env) (w : World) (resp : Response)
      → (m env w).0 ≡ ok resp
      → resp.status ≡ 201
      → Saves v env (m env w).1.db

module _ (v : ValidRequest) where
  Answers-bind :
      {A : Type 0} (m : M A) (f : A → M Response)
      → ((a : A) → Answers v (f a))
      → Answers v (m >>= f)
  Answers-bind m f h = record {
    at = λ env w resp e is.
        let (a, _, rest) = bind-ok m f env w resp e in
        subst (λ x. Saves v env x.1.db) (sym rest)
          ((h a).at env (m env w).1 resp (ap (λ x. x.0) (sym rest) ∙ e) is);
  }

  Answers-pure : (r : Response) → r.status ≢ 201 → Answers v (pure r)
  unfolding pure
  Answers-pure r h = record { at = λ env w resp e is. ground (arith, h, e, is) }

  write_existing-other :
      (h : Handler) (x : CreateResult) → (write_existing h.runtime x).status ≢ 201
  unfolding write_existing
  write_existing-other h (created p) = λ e. ground arith
  write_existing-other h (replayed p) = λ e. ground arith
  write_existing-other h conflict = λ e. ground arith

  Answers-seq : {A : Type 0} (m : M A) (k : M Response) → Answers v k → Answers v (m >> k)
  unfolding ◌>>◌
  Answers-seq m k h = Answers-bind m (λ _. k) (λ _. h)

  -- What save_payment does with what CreateOrGetPayment returned.
  after : Handler → Result CreateResult → M Response
  after h (err _) = pure internal_error
  after h (ok result) = count_created v.mode result >> pure (write_outcome h.runtime result)

  after-Saves :
      (h : Handler) (env : Env) (w : World) (outcome : Result CreateResult)
      → ((q : Payment) → outcome ≡ ok (created q) → Saves v env w.db)
      → (resp : Response) → (after h outcome env w).0 ≡ ok resp
      → resp.status ≡ 201
      → Saves v env (after h outcome env w).1.db
  unfolding after emit ◌>>◌ ◌>>=◌ pure count_created write_outcome
  after-Saves h env w (err x) s resp e is =
      (Answers-pure internal_error (λ x. ground arith)).at env w resp e is
  after-Saves h env w (ok (created q)) s resp e is = s q refl
  after-Saves h env w (ok (replayed q)) s resp e is = s q (ground (arith, e, is))
  after-Saves h env w (ok conflict) s resp e is = absurd (ground (arith, e, is))

  save_payment-Answers :
      (h : Handler) (r : FindRouteResponse) (provider : Option String) (quotes : List Quote)
      → Answers v (save_payment h v (candidate v r provider quotes))
  unfolding save_payment after attempt
  save_payment-Answers h r provider quotes = record {
    at = λ env w resp e is.
        let create = create_or_get_payment (candidate v r provider quotes) in
        let (outcome, got, rest) = bind-ok (attempt create) (after h) env w resp e in
        subst (λ x. Saves v env x.1.db) (sym rest)
          (after-Saves h env (attempt create env w).1 outcome
            (λ q is_created. record {
              resp = r;
              provider = provider;
              quotes = quotes;
              stored = kept env w q (got ∙ ap ok is_created);
            })
            resp (ap (λ x. x.0) (sym rest) ∙ e) is);
  }
    where
      kept :
          (env : Env) (w : World) (q : Payment)
          → (attempt (create_or_get_payment (candidate v r provider quotes)) env w).0
            ≡ ok (ok (created q))
          → Stored
              (candidate v r provider quotes)
              env
              (attempt (create_or_get_payment (candidate v r provider quotes)) env w).1.db
      kept env w q got =
          create_or_get_payment-created (candidate v r provider quotes) env w q
            (attempt-ok (create_or_get_payment (candidate v r provider quotes)) env w _ got)

  save_winner-Answers :
      (h : Handler) (qs : Quotes) (r : FindRouteResponse) (winner : String) (o : Option LiveQuote)
      → Answers v (save_winner h v qs r winner o)
  unfolding save_winner
  save_winner-Answers h qs r winner none = Answers-pure internal_error (λ x. ground arith)
  save_winner-Answers h qs r winner (some q) = Answers-seq _ _ (
      Answers-seq _ _
        (Answers-seq _ _ (Answers-bind _ _ (λ visited. save_payment-Answers h r _ _))))

  save_hops-Answers :
      (h : Handler) (qs : Quotes) (r : FindRouteResponse) (m : ExecutionMode) (hops : List RouteHop)
      → Answers v (save_hops h v qs r m hops)
  unfolding save_hops
  save_hops-Answers h qs r simulated hops = save_payment-Answers h r _ _
  save_hops-Answers h qs r testnet [] = save_payment-Answers h r _ _
  save_hops-Answers h qs r testnet (hop ∷ rest) = save_winner-Answers h qs r _ _

  settle_route-Answers :
      (h : Handler) (qs : Quotes) (r : RouteReply) → Answers v (settle_route h v qs r)
  unfolding settle_route
  settle_route-Answers h qs (call_failed code message) =
      Answers-seq _ _ (Answers-pure _ (routing_error-other code message))
  settle_route-Answers h qs (replied resp) = found resp.route_found
    where
      found :
          (b : Bool)
          → Answers v (
              if b
              then save_hops h v qs resp v.mode resp.hops
              else emit (routing_failures "no_route")
                >> pure (write_error 422 "no route available for the requested payment"))
      found true = save_hops-Answers h qs resp _ _
      found false = Answers-seq _ _ (Answers-pure _ (λ e. ground arith))

  route_payment-Answers :
      (h : Handler) (g : Gathered) → NotCreated g → Answers v (route_payment h v g)
  unfolding route_payment
  route_payment-Answers h (stop resp) n = Answers-pure resp n
  route_payment-Answers h (candidates edges qs) n =
      Answers-seq _ _
        (Answers-bind _ _ (λ reply. Answers-seq _ _ (settle_route-Answers h qs reply)))

  post_looked_up-Answers :
      (h : Handler) (r : Result (Option CreateResult)) → Answers v (post_looked_up h v r)
  unfolding post_looked_up post_new
  post_looked_up-Answers h (err e) = Answers-pure internal_error (λ x. ground arith)
  post_looked_up-Answers h (ok (some x)) = Answers-pure _ (write_existing-other h x)
  post_looked_up-Answers h (ok none) = record {
    at = λ env w resp e is.
        let (g, got, rest) = bind-ok (gather h v v.mode) (route_payment h v) env w resp e in
        subst (λ x. Saves v env x.1.db) (sym rest)
          ((route_payment-Answers h g ((gather-NotCreated h v v.mode).gives env w g got)).at env _
            resp (ap (λ x. x.0) (sym rest) ∙ e) is);
  }

-- Whenever a request that passed the checks is answered 201, in every environment and with every fault
-- and every answer from outside, the last thing that happened to the database is that the payment of
-- this request (its key, chains, asset, mode and amount) and its outbox event were put in together.
pub post_valid-201 :
    (h : Handler) (v : ValidRequest) (env : Env) (w : World) (resp : Response)
    → (post_valid h v env w).0 ≡ ok resp
    → resp.status ≡ 201
    → Saves v env (post_valid h v env w).1.db
unfolding post_valid
post_valid-201 h v env w resp e is =
    (Answers-bind v _ _ (post_looked_up-Answers v h)).at env w resp e is
