-- ===== src/World/Rules.antt =====
-- A relation between the world before and after an action, one rule for each way to build an action.
-- `search rules` proves the relation of a `do` block from those of its parts.
use chain_route.Prelude.{
  ℕ, suc, Bool, true, false, Option, none, some, List, [], ◌∷◌, if◌then◌else◌,
}
use chain_route.World.{
  Error, Result, ok, err, Metric, World, Env, M, pure, fail, attempt, on_error, or_fail, ◌>>=◌,
  ◌>>◌, emit, now, external, for_each,
}

-- What a relation needs, so that reading the clock, asking outside and recording keep it.
pub record Relation (R : World → World → Type 0) : Type 0 where
  pub same : (w : World) → R w w
  pub follows : (u v w : World) → R u v → R v w → R u w
  pub recorded : (w : World) (ms : List Metric) → R w (record w { metrics = ms })
  pub ticked : (w : World) (n : ℕ) → R w (record w { tick = n })

-- Whatever `m` returns, in an environment that satisfies `G`.
pub record Keeps (G : Env → Type 0) (R : World → World → Type 0) {A : Type 0} (m : M A)
    : Type 0 where
  pub at : (env : Env) → G env → (w : World) → R w (m env w).1

module _ {G : Env → Type 0} {R : World → World → Type 0} {A : Type 0} where
  pub Keeps-pure : Relation R → (a : A) → Keeps G R (pure a)
  unfolding pure
  Keeps-pure o a = record { at = λ env g w. o.same w }

  pub Keeps-fail : Relation R → (e : Error) → Keeps G R (fail {A = A} e)
  unfolding fail
  Keeps-fail o e = record { at = λ env g w. o.same w }

  pub Keeps-or_fail : Relation R → (a : Option A) (e : Error) → Keeps G R (or_fail a e)
  unfolding or_fail
  Keeps-or_fail o none e = record { at = λ env g w. o.same w }
  Keeps-or_fail o (some a) e = record { at = λ env g w. o.same w }

  pub Keeps-external : Relation R → (f : ℕ → A) → Keeps G R (external f)
  unfolding external
  Keeps-external o f = record { at = λ env g w. o.ticked w (suc w.tick) }

  pub Keeps-attempt : (m : M A) → Keeps G R m → Keeps G R (attempt m)
  unfolding attempt
  Keeps-attempt m k = record { at = λ env g w. k.at env g w }

  pub Keeps-if : (b : Bool) (m n : M A) → Keeps G R m → Keeps G R n → Keeps G R (if b then m else n)
  Keeps-if true m n km kn = km
  Keeps-if false m n km kn = kn

  after_error :
      Relation R
      → (h : M (Unit {0})) (r : Result A) (env : Env) (u w : World) → G env
      → Keeps G R h
      → R u w
      → R u (
          let x : Result A × World = elim r [ ok a ↦ (ok a, w) | err e ↦ (err e, (h env w).1) ] in
          x.1)
  after_error o h (ok a) env u w g kh r = r
  after_error o h (err e) env u w g kh r = o.follows u w _ r (kh.at env g w)

  pub Keeps-on_error :
      Relation R
      → (m : M A) (h : M (Unit {0})) → Keeps G R m
      → Keeps G R h
      → Keeps G R (on_error m h)
  unfolding on_error
  Keeps-on_error o m h km kh = record {
    at = λ env g w. after_error o h (m env w).0 env w (m env w).1 g kh (km.at env g w);
  }

module _ {G : Env → Type 0} {R : World → World → Type 0} where
  pub Keeps-emit : Relation R → (m : Metric) → Keeps G R (emit m)
  unfolding emit
  Keeps-emit o m = record { at = λ env g w. o.recorded w (m ∷ w.metrics) }

  pub Keeps-now : Relation R → Keeps G R now
  unfolding now
  Keeps-now o = record { at = λ env g w. o.ticked w (suc w.tick) }

module _ {G : Env → Type 0} {R : World → World → Type 0} {A B : Type 0} where
  after :
      Relation R
      → (f : A → M B) (r : Result A) (env : Env) (u w : World) → G env
      → ((a : A) → Keeps G R (f a))
      → R u w
      → R u (let x : Result B × World = elim r [ ok a ↦ f a env w | err e ↦ (err e, w) ] in x.1)
  after o f (ok a) env u w g kf r = o.follows u w _ r ((kf a).at env g w)
  after o f (err e) env u w g kf r = r

  pub Keeps-bind :
      Relation R
      → (m : M A) (f : A → M B) → Keeps G R m
      → ((a : A) → Keeps G R (f a))
      → Keeps G R (m >>= f)
  unfolding ◌>>=◌
  Keeps-bind o m f km kf = record {
    at = λ env g w. after o f (m env w).0 env w (m env w).1 g kf (km.at env g w);
  }

  pub Keeps-seq : Relation R → (m : M A) (k : M B) → Keeps G R m → Keeps G R k → Keeps G R (m >> k)
  unfolding ◌>>◌
  Keeps-seq o m k km kk = Keeps-bind o m (λ _. k) km (λ _. kk)

module _ {G : Env → Type 0} {R : World → World → Type 0} {A : Type 0} where
  pub Keeps-for_each :
      Relation R
      → (body : A → M (Unit {0})) (xs : List A) → ((x : A) → Keeps G R (body x))
      → Keeps G R (for_each body xs)
  unfolding for_each
  Keeps-for_each o body [] k = Keeps-pure o tt
  Keeps-for_each o body (x ∷ xs) k =
      Keeps-seq o _ _ (Keeps-attempt (body x) (k x)) (Keeps-for_each o body xs k)

-- A `do` block that goes on by an answer.
module _ {G : Env → Type 0} {R : World → World → Type 0} {A B : Type 0} where
  pub Keeps-option :
      (o : Option A) (n : M B) (f : A → M B)
      → Keeps G R n
      → ((a : A) → Keeps G R (f a))
      → Keeps G R (elim o [ none ↦ n | some a ↦ f a ])
  Keeps-option none n f kn kf = kn
  Keeps-option (some a) n f kn kf = kf a

  pub Keeps-result :
      (r : Result A) (f : A → M B) (h : Error → M B)
      → ((a : A) → Keeps G R (f a))
      → ((e : Error) → Keeps G R (h e))
      → Keeps G R (elim r [ ok a ↦ f a | err e ↦ h e ])
  Keeps-result (ok a) f h kf kh = kf a
  Keeps-result (err e) f h kf kh = kh e

pub ruleset rules = (
  Keeps-pure, Keeps-fail, Keeps-or_fail, Keeps-external, Keeps-attempt, Keeps-if, Keeps-on_error,
  Keeps-emit, Keeps-now, Keeps-bind, Keeps-seq, Keeps-for_each,
)
