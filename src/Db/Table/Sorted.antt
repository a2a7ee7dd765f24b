-- ===== src/Db/Table/Sorted.antt =====
-- ORDER BY a strict total order, and the rows that a test selects.
use chain_route.Prelude.{
  Bool, true, false, ◌&&◌, List, [], ◌∷◌, ◌++◌, ◌≡◌, refl, ◌⊎◌, inl, inr, arith, if◌then◌else◌,
  select, All, Bool-cases,
}
use chain_route.Db.Table.{insert_by, order_by}

module _ {A : Type 0} (p q : A → Bool) where
  pub select-select : (xs : List A) → select (λ x. p x && q x) xs ≡ select p (select q xs)
  select-select [] = refl
  select-select (x ∷ xs) = ground (arith, select-select xs)

-- A strict order, total on the elements that are compared.
module _ {A : Type 0} (before : A → A → Bool) where
  abbrev pub Comparable : A → A → Type 0
  Comparable x y = (before x y ≡ true) ⊎ (before y x ≡ true)

  abbrev pub AllComparable : List A → Type 0
  AllComparable [] = Unit
  AllComparable (x ∷ xs) = All (Comparable x) xs × AllComparable xs

  -- Each element is before all that follow.
  abbrev pub Sorted : List A → Type 0
  Sorted [] = Unit
  Sorted (x ∷ xs) = All (λ y. before x y ≡ true) xs × Sorted xs

  pub record StrictOrder : Type 0 where
    pub irreflexive : (x : A) → before x x ≡ false
    pub transitive : (x y z : A) → before x y ≡ true → before y z ≡ true → before x z ≡ true

module _ {A : Type 0} (P : A → Type 0) where
  pub All-select : (p : A → Bool) (ys : List A) → All P ys → All P (select p ys)
  All-select p [] h = tt
  All-select p (y ∷ ys) h = go (p y) (All-select p ys h.1)
    where
      go : (b : Bool) → All P (select p ys) → All P (if b then y ∷ select p ys else select p ys)
      go true more = (h.0, more)
      go false more = more

module _ {A : Type 0} (before : A → A → Bool) (P : A → Type 0) where
  All-insert_by : (x : A) (ys : List A) → P x → All P ys → All P (insert_by before x ys)
  All-insert_by x [] p h = (p, tt)
  All-insert_by x (y ∷ ys) p h = go (before y x) (All-insert_by x ys p h.1)
    where
      go :
          (b : Bool)
          → All P (insert_by before x ys)
          → All P (if b then y ∷ insert_by before x ys else x ∷ y ∷ ys)
      go true more = (h.0, more)
      go false more = (p, h)

  pub All-order_by : (xs : List A) → All P xs → All P (order_by before xs)
  All-order_by [] h = tt
  All-order_by (x ∷ xs) h = All-insert_by x (order_by before xs) h.0 (All-order_by xs h.1)

module _ {A : Type 0} {before : A → A → Bool} (order : StrictOrder before) where
  All-before :
      (x y : A) (zs : List A)
      → before x y ≡ true
      → All (λ z. before y z ≡ true) zs
      → All (λ z. before x z ≡ true) zs
  All-before x y [] h k = tt
  All-before x y (z ∷ zs) h k = (order.transitive x y z h k.0, All-before x y zs h k.1)

  insert_by-Sorted :
      (x : A) (ys : List A)
      → All (Comparable before x) ys
      → Sorted before ys
      → Sorted before (insert_by before x ys)
  insert_by-Sorted x [] c s = (tt, tt)
  insert_by-Sorted x (y ∷ ys) c s = go (before y x) refl (insert_by-Sorted x ys c.1 s.1)
    where
      go :
          (b : Bool)
          → before y x ≡ b
          → Sorted before (insert_by before x ys)
          → Sorted before (if b then y ∷ insert_by before x ys else x ∷ y ∷ ys)
      go true e more = (All-insert_by before (λ z. before y z ≡ true) x ys e s.0, more)
      go false e more =
          let first : before x y ≡ true = ground (arith, e, c.0) in
          ((first, All-before x y ys first s.0), s)

  pub order_by-Sorted : (xs : List A) → AllComparable before xs → Sorted before (order_by before xs)
  order_by-Sorted [] c = tt
  order_by-Sorted (x ∷ xs) c =
      insert_by-Sorted x (order_by before xs) (All-order_by before (Comparable before x) xs c.0)
        (order_by-Sorted xs c.1)

  -- An element in front of all others.
  insert_by-front :
      (x : A) (ys : List A) → All (λ y. before x y ≡ true) ys → insert_by before x ys ≡ x ∷ ys
  insert_by-front x [] h = refl
  insert_by-front x (y ∷ ys) h = ground (arith, order.transitive x y x h.0, order.irreflexive x)

  select-insert_by :
      (p : A → Bool) (x : A) (ys : List A)
      → All (Comparable before x) ys
      → Sorted before ys
      → select p (insert_by before x ys)
        ≡ (if p x then insert_by before x (select p ys) else select p ys)
  select-insert_by p x [] c s = refl
  select-insert_by p x (y ∷ ys) c s = elim (Bool-cases (before y x)) [
    | inl later ↦ ground (arith, later, select-insert_by p x ys c.1 s.1)
    | inr sooner ↦
        let first : before x y ≡ true = ground (arith, c.0) in
        ground (
          arith,
          sooner,
          insert_by-front x (select p ys)
              (All-select (λ z. before x z ≡ true) p ys (All-before x y ys first s.0)),
        )
  ]

  -- The rows are sorted, and then selected, or the other way round.
  pub order_by-select :
      (p : A → Bool) (xs : List A)
      → AllComparable before xs
      → order_by before (select p xs) ≡ select p (order_by before xs)
  order_by-select p [] c = refl
  order_by-select p (x ∷ xs) c = ground (
    arith,
    order_by-select p xs c.1,
    select-insert_by p x (order_by before xs) (All-order_by before (Comparable before x) xs c.0)
        (order_by-Sorted xs c.1),
  )

  select-front : (x : A) (ys : List A) → All (λ y. before x y ≡ true) ys → select (before x) ys ≡ ys
  select-front x [] h = refl
  select-front x (y ∷ ys) h = ground (arith, select-front x ys h.1)

  middle-before :
      (x : A) (done : List A) (r : A) (rest : List A)
      → All (λ y. before x y ≡ true) (done ++ r ∷ rest)
      → before x r ≡ true
  middle-before x [] r rest h = h.0
  middle-before x (d ∷ done) r rest h = middle-before x done r rest h.1

  -- The elements behind one of a sorted list are those that it is before.
  pub select-behind :
      (done : List A) (r : A) (rest : List A)
      → Sorted before (done ++ r ∷ rest)
      → select (before r) (done ++ r ∷ rest) ≡ rest
  select-behind [] r rest s = ground (arith, order.irreflexive r, select-front r rest s.0)
  select-behind (d ∷ done) r rest s =
      let first : before d r ≡ true = middle-before d done r rest s.0 in
      ground
        (arith, first, order.transitive r d r, order.irreflexive r, select-behind done r rest s.1)
