-- ===== src/Db/Table.antt =====
-- SELECT, UPDATE and ORDER BY over a table whose rows have a text key, with the laws that relate
-- them. With these laws the statements of `Store` need not be looked into.
pub mod Sorted
use chain_route.Prelude.{
  String, Bool, true, false, Option, none, some, List, [], ◌∷◌, ◌++◌, ◌≡◌, refl, ◌==◌, eq_iff,
  arith, if◌then◌else◌, is_some, ap,
}
use mathlib.Core.Option

module _ {ℓ} {A : Type ℓ} where
  -- UPDATE ... SET ... WHERE the test holds.
  abbrev pub update_where : (A → Bool) → (A → A) → List A → List A
  update_where p f [] = []
  update_where p f (r ∷ rs) = (if p r then f r else r) ∷ update_where p f rs

  -- EXISTS (SELECT ... WHERE the test holds).
  abbrev pub exists : (A → Bool) → List A → Bool
  exists p [] = false
  exists p (r ∷ rs) = if p r then true else exists p rs

  -- The first row, in the order of the table, where the test holds.
  abbrev pub first : (A → Bool) → List A → Option A
  first p [] = none
  first p (r ∷ rs) = if p r then some r else first p rs

  -- ORDER BY: `before a b` puts `a` in front of `b`; rows that tie keep their order.
  abbrev pub insert_by : (A → A → Bool) → A → List A → List A
  insert_by before x [] = x ∷ []
  insert_by before x (y ∷ ys) = if before y x then y ∷ insert_by before x ys else x ∷ y ∷ ys

  abbrev pub order_by : (A → A → Bool) → List A → List A
  order_by before [] = []
  order_by before (x ∷ xs) = insert_by before x (order_by before xs)

module _ {ℓ} {A : Type ℓ} (key : A → String) where
  -- SELECT ... WHERE key = k, for a unique key.
  unfoldable pub find : String → List A → Option A
  find k [] = none
  find k (r ∷ rs) = if key r == k then some r else find k rs

  -- UPDATE ... WHERE key = k.
  unfoldable pub modify : String → (A → A) → List A → List A
  modify k f [] = []
  modify k f (r ∷ rs) = (if key r == k then f r else r) ∷ modify k f rs

  -- UPDATE ... WHERE key = k AND the guard holds RETURNING the new row.
  unfoldable pub update_if : String → (A → Bool) → (A → A) → List A → Option A × List A
  update_if k guard f rs = elim (find k rs) [
    | none ↦ (none, rs)
    | some r ↦ if guard r then (some (f r), modify k f rs) else (none, rs)
  ]

  pub find-modify :
      (j k : String) (f : A → A) (rs : List A)
      → ((r : A) → key (f r) ≡ key r)
      → find j (modify k f rs) ≡ (if k == j then Option.map f (find j rs) else find j rs)
  unfolding find modify
  find-modify j k f [] keep = ground arith
  find-modify j k f (r ∷ rs) keep =
      ground
        (arith, eq_iff k j, eq_iff (key r) k, eq_iff (key r) j, keep r, find-modify j k f rs keep)

  pub key-find : (k : String) (rs : List A) {r : A} → find k rs ≡ some r → key r ≡ k
  unfolding find
  key-find k [] h = ground arith
  key-find k (x ∷ rs) {r} h = ground (arith, eq_iff (key x) k, key-find k rs {r = r})

  pub find-append_new :
      (j : String) (rs : List A) (r : A)
      → find j (rs ++ r ∷ [])
        ≡ (if is_some (find j rs) then find j rs else (if key r == j then some r else none))
  unfolding find
  find-append_new j [] r = refl
  find-append_new j (x ∷ rs) r = ground (arith, find-append_new j rs r)

  -- A guarded UPDATE seen through a SELECT: the row under the key changes if the guard holds.
  pub find-update_if :
      (j k : String) (guard : A → Bool) (f : A → A) (rs : List A)
      → ((r : A) → key (f r) ≡ key r)
      → find j (update_if k guard f rs).1
        ≡ (if k == j then Option.map (λ r. if guard r then f r else r) (find j rs) else find j rs)
  unfolding update_if
  find-update_if j k guard f rs keep =
      ground (
        arith,
        eq_iff k j,
        find-modify j k f rs keep,
        ap (λ (x : String). find x rs) {x = k} {y = j},
      )

module _ {ℓ} {A : Type ℓ} (key other : A → String) where
  -- An UPDATE by one key seen through a SELECT by another, which the UPDATE keeps.
  pub find-modify_other :
      (j k : String) (f : A → A) (rs : List A)
      → ((r : A) → other (f r) ≡ other r)
      → find other j (modify key k f rs)
        ≡ Option.map (λ r. if key r == k then f r else r) (find other j rs)
  unfolding find modify
  find-modify_other j k f [] keep = refl
  find-modify_other j k f (r ∷ rs) keep = ground (arith, keep r, find-modify_other j k f rs keep)
