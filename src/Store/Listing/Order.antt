-- ===== src/Store/Listing/Order.antt =====
-- store.go, ListPayments: ORDER BY created_at DESC, id DESC.
use chain_route.Prelude.{String, true, false, List, [], ◌∷◌, ◌≡◌, ◌⊎◌, arith, All, ◌≢◌}
use Prim.Native.Nat.{Ordering}
use Prim.Native.String.{compare}
use Prim.Native.String.compare.{cons-cons, nil-nil, nil-cons, cons-nil}
use text.Mathlib.TextEquality.{path_by_compare}
use text.Mathlib.TextPositions.{compare_refl}
use chain_route.Db.{PaymentRow}
use chain_route.Db.Table.Sorted.{Comparable, AllComparable, StrictOrder}
use chain_route.Store.Listing.{text_lt, is_before, newer}

compare_trans :
    (a b c : String)
    → compare a b ≡ Ordering.lt
    → compare b c ≡ Ordering.lt
    → compare a c ≡ Ordering.lt
compare_trans String.[] String.[] c h k = absurd (ground (arith, nil-nil))
compare_trans String.[] (String.◌∷◌ y t) String.[] h k = absurd (ground (arith, cons-nil y t))
compare_trans String.[] (String.◌∷◌ y t) (String.◌∷◌ z u) h k = nil-cons z u
compare_trans (String.◌∷◌ x s) String.[] c h k = absurd (ground (arith, cons-nil x s))
compare_trans (String.◌∷◌ x s) (String.◌∷◌ y t) String.[] h k =
    absurd (ground (arith, cons-nil y t))
compare_trans (String.◌∷◌ x s) (String.◌∷◌ y t) (String.◌∷◌ z u) h k =
    ground (arith, cons-cons x y s t, cons-cons y z t u, cons-cons x z s u, compare_trans s t u)

compare-flip : (a b : String) → compare a b ≡ Ordering.gt → compare b a ≡ Ordering.lt
compare-flip String.[] String.[] h = absurd (ground (arith, nil-nil))
compare-flip String.[] (String.◌∷◌ y t) h = absurd (ground (arith, nil-cons y t))
compare-flip (String.◌∷◌ x s) String.[] h = nil-cons x s
compare-flip (String.◌∷◌ x s) (String.◌∷◌ y t) h =
    ground (arith, cons-cons x y s t, cons-cons y x t s, compare-flip s t)

text_lt_trans : (a b c : String) → text_lt a b ≡ true → text_lt b c ≡ true → text_lt a c ≡ true
text_lt_trans a b c h k = ground (arith, compare_trans a b c)

text_lt-total : (a b : String) → (a ≡ b) ⊎ (text_lt a b ≡ true) ⊎ (text_lt b a ≡ true)
text_lt-total a b = ground (arith, path_by_compare a b, compare-flip a b)

is_before-irreflexive : (r : PaymentRow) → newer r r ≡ false
unfolding newer is_before
is_before-irreflexive r = ground (arith, compare_refl r.id)

is_before-transitive : (x y z : PaymentRow) → newer x y ≡ true → newer y z ≡ true → newer x z ≡ true
unfolding newer is_before
is_before-transitive x y z h k = ground (arith, text_lt_trans z.id y.id x.id)

-- The order of the query is a strict order.
pub newer-StrictOrder : StrictOrder newer
newer-StrictOrder = record {
  irreflexive = is_before-irreflexive;
  transitive = is_before-transitive;
}

-- The primary key: no two rows have the same id.
abbrev pub DistinctIds : List PaymentRow → Type 0
DistinctIds [] = Unit
DistinctIds (r ∷ rs) = All (λ s. r.id ≢ s.id) rs × DistinctIds rs

newer-Comparable : (a b : PaymentRow) → a.id ≢ b.id → Comparable newer a b
unfolding newer is_before
newer-Comparable a b h = ground (arith, text_lt-total a.id b.id)

pub newer-AllComparable : (rs : List PaymentRow) → DistinctIds rs → AllComparable newer rs
newer-AllComparable [] h = tt
newer-AllComparable (r ∷ rs) h = (go rs h.0, newer-AllComparable rs h.1)
  where
    go : (ss : List PaymentRow) → All (λ s. r.id ≢ s.id) ss → All (Comparable newer r) ss
    go [] k = tt
    go (s ∷ ss) k = (newer-Comparable r s k.0, go ss k.1)
