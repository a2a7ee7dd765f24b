-- ===== src/Store/Listing/Cut.antt =====
-- store.go, ListPayments: the query asks for one row more than a page holds, and the page is cut.
use chain_route.Prelude.{
  ℕ, zero, suc, true, false, some, List, [], ◌∷◌, ◌++◌, map, ◌≡◌, refl, ap, ◌⊎◌, inl, inr, arith,
  ltb, length, take,
}
use chain_route.Store.Listing.{get_elem?}

module _ {A B : Type 0} (g : A → B) where
  -- What is left behind a full page, and the page's last row.
  pub record Split (n : ℕ) (rows : List A) : Type 0 where
    pub front : List A
    pub row : A
    pub rest : List A
    pub whole : rows ≡ front ++ row ∷ rest
    pub page : take (suc n) (map g (take (suc (suc n)) rows)) ≡ map g (front ++ row ∷ [])
    pub elem : get_elem? (map g (take (suc (suc n)) rows)) n ≡ some (g row)
    pub long : ltb (suc n) (length (map g (take (suc (suc n)) rows))) ≡ true

  pub record Fits (n : ℕ) (rows : List A) : Type 0 where
    pub all : take (suc (suc n)) rows ≡ rows
    pub short : ltb (suc n) (length (map g rows)) ≡ false

  Split-cons : (n : ℕ) (x : A) (rows : List A) → Split n rows → Split (suc n) (x ∷ rows)
  Split-cons n x rows s = record {
    front = x ∷ s.front;
    row = s.row;
    rest = s.rest;
    whole = ap (λ z. x ∷ z) s.whole;
    page = ap (λ z. g x ∷ z) s.page;
    elem = s.elem;
    long = ground (arith, s.long);
  }

  Fits-cons : (n : ℕ) (x : A) (rows : List A) → Fits n rows → Fits (suc n) (x ∷ rows)
  Fits-cons n x rows s = record { all = ap (λ z. x ∷ z) s.all; short = ground (arith, s.short) }

  pub Split-or-Fits : (n : ℕ) (rows : List A) → Fits n rows ⊎ Split n rows
  Split-or-Fits n [] = inl (record { all = refl; short = ground arith })
  Split-or-Fits zero (x ∷ []) = inl (record { all = refl; short = refl })
  Split-or-Fits zero (x ∷ y ∷ rows) = inr (record {
    front = [];
    row = x;
    rest = y ∷ rows;
    whole = refl;
    page = refl;
    elem = refl;
    long = ground arith;
  })
  Split-or-Fits (suc n) (x ∷ rows) = elim (Split-or-Fits n rows) [
    | inl s ↦ inl (Fits-cons n x rows s)
    | inr s ↦ inr (Split-cons n x rows s)
  ]

  pub map-append : (xs ys : List A) → map g (xs ++ ys) ≡ map g xs ++ map g ys
  map-append [] ys = refl
  map-append (x ∷ xs) ys = ap (λ z. g x ∷ z) (map-append xs ys)
