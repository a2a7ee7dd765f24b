-- ===== src/Handler/Request/Amount.antt =====
-- handler/payments.go: amountPattern and isZeroAmount, against money/convert.go.
use chain_route.Prelude.{
  ℕ, zero, suc, ◌+◌, ◌-◌, ◌*◌, ◌^◌, ◌≤◌, ◌<◌, true, false, some, List, [], ◌∷◌, ◌++◌, ◌≡◌, refl,
  sym, ap, ◌∙◌, subst, ◌⊎◌, inl, inr, eqb, Bool-cases, arith, length, replicate, length-append,
  length-replicate,
}
use Prim.Native.Nat.pow
use chain_route.Prelude.Int.{pos}
use chain_route.Money.{digits_value, split_dot, join_fraction, decimal_to_base_units}
use chain_route.Money.Digits.{all_digits}
use chain_route.Money.RoundTrip.{split_dot-join, set_string-digits}
use chain_route.Handler.Request.{span_digits, match_fraction, match_amount, is_zero_amount, at_end}

-- The digits in front are digits, and with the rest they are the text.
span_digits-all : (s : List ℕ) → all_digits (span_digits s).0 ≡ true
unfolding span_digits
span_digits-all [] = refl
span_digits-all (c ∷ cs) = ground (arith, span_digits-all cs)

span_digits-append : (s : List ℕ) → (span_digits s).0 ++ (span_digits s).1 ≡ s
unfolding span_digits
span_digits-append [] = refl
span_digits-append (c ∷ cs) = ground (arith, span_digits-append cs)

append_nil : (xs : List ℕ) → xs ++ [] ≡ xs
append_nil [] = refl
append_nil (x ∷ xs) = ap (λ ys. x ∷ ys) (append_nil xs)

-- What the pattern matches: the digits on both sides of the point.
record Matched (a : List ℕ) : Type 0 where
  whole : List ℕ
  fraction : List ℕ
  whole_digits : all_digits whole ≡ true
  fraction_digits : all_digits fraction ≡ true
  whole_long : 0 < length whole
  whole_short : length whole ≤ 20
  fraction_short : length fraction ≤ 18
  joined : join_fraction whole fraction ≡ a

at_end-nil : (s : List ℕ) → at_end s ≡ true → s ≡ []
at_end-nil [] h = refl
at_end-nil (c ∷ cs) h = ground arith

join_fraction-long : (xs ys : List ℕ) → 0 < length ys → join_fraction xs ys ≡ xs ++ b'.' ∷ ys
join_fraction-long xs [] h = ground arith
join_fraction-long xs (y ∷ ys) h = refl

fraction_of :
    (whole rest : List ℕ)
    → match_fraction rest ≡ true
    → (fs : List ℕ) × (all_digits fs ≡ true)
      × (length fs ≤ 18)
      × (join_fraction whole fs ≡ whole ++ rest)
unfolding match_fraction
fraction_of whole [] h = ([], refl, omega arith, ground (arith, append_nil whole))
fraction_of whole (c ∷ cs) h =
    let fs = (span_digits cs).0 in
    let short : (0 < length fs) × (length fs ≤ 18) = ground arith in
    let ends = at_end-nil (span_digits cs).1 (ground arith) in
    let same : fs ≡ cs =
      sym (append_nil fs) ∙ ap (λ r. fs ++ r) (sym ends) ∙ span_digits-append cs in
    let dot : c ≡ b'.' = ground arith in
    (fs, span_digits-all cs, short.1, join_fraction-long whole fs short.0 ∙ ground arith)

pattern_parts : (a : List ℕ) → match_amount a ≡ true → Matched a
unfolding match_amount
pattern_parts a h =
    let (fs, all, short, joins) = fraction_of (span_digits a).0 (span_digits a).1 (ground arith) in
    record {
      whole = (span_digits a).0;
      fraction = fs;
      whole_digits = span_digits-all a;
      fraction_digits = all;
      whole_long = ground arith;
      whole_short = ground arith;
      fraction_short = short;
      joined = joins ∙ span_digits-append a;
    }

pow_suc : (n : ℕ) → 10 ^ suc n ≡ 10 ^ n * 10
pow_suc n = pow.suc 10 n

pow_pos : (n : ℕ) → 0 < 10 ^ n
pow_pos zero = ground arith
pow_pos (suc n) = omega (arith, pow_suc n, pow_pos n)

digits_value-bound :
    (a k n : ℕ) (xs : List ℕ)
    → all_digits xs ≡ true
    → a < 10 ^ k
    → k + length xs ≡ n
    → (v : ℕ) × (digits_value a xs ≡ some v) × (v < 10 ^ n)
unfolding digits_value
digits_value-bound a k n [] h small e = (a, refl, subst (λ (m : ℕ). a < 10 ^ m) (omega arith) small)
digits_value-bound a k n (c ∷ xs) h small e =
    let (v, value, below) =
      digits_value-bound (a * 10 + (c - b'0')) (suc k) n xs (ground arith)
        (ground (arith, pow_suc k)) (omega arith) in
    (v, ground (arith, value), below)

-- Digits behind a number above zero, and digits that are not all zero.
digits_value-positive :
    (a v : ℕ) (xs : List ℕ)
    → digits_value a xs ≡ some v
    → (0 < a) ⊎ (is_zero_amount xs ≡ false)
    → 0 < v
unfolding digits_value is_zero_amount
digits_value-positive a v [] h (inl p) = ground arith
digits_value-positive a v [] h (inr p) = ground arith
digits_value-positive a v (c ∷ xs) h p =
    digits_value-positive (a * 10 + (c - b'0')) v xs (ground arith) (elim p [
      | inl q ↦ inl (omega arith)
      | inr q ↦ elim (Bool-cases (eqb c b'0')) [
        | inl zero_digit ↦ ground arith
        | inr other ↦ inl (ground arith)
      ]
    ])

all-append :
    (xs ys : List ℕ) → all_digits xs ≡ true → all_digits ys ≡ true → all_digits (xs ++ ys) ≡ true
all-append [] ys h k = k
all-append (x ∷ xs) ys h k = ground (arith, all-append xs ys)

all-replicate : (n : ℕ) → all_digits (replicate n b'0') ≡ true
all-replicate zero = refl
all-replicate (suc n) = all-replicate n

is_zero-append :
    (xs ys zs : List ℕ)
    → is_zero_amount (xs ++ ys) ≡ false
    → is_zero_amount (xs ++ (ys ++ zs)) ≡ false
unfolding is_zero_amount
is_zero-append [] [] zs h = ground arith
is_zero-append [] (y ∷ ys) zs h = ground (arith, is_zero-append [] ys zs)
is_zero-append (x ∷ xs) ys zs h = ground (arith, is_zero-append xs ys zs)

-- The point does not count.
is_zero-join :
    (xs ys : List ℕ)
    → is_zero_amount (join_fraction xs ys) ≡ false
    → is_zero_amount (xs ++ ys) ≡ false
unfolding is_zero_amount
is_zero-join [] [] h = h
is_zero-join [] (y ∷ ys) h = ground arith
is_zero-join (x ∷ xs) [] h = ground (arith, is_zero-join xs [])
is_zero-join (x ∷ xs) (y ∷ ys) h = ground (arith, is_zero-join xs (y ∷ ys))

-- A decimal that passes amountPattern and isZeroAmount is converted to 18 decimals without an error,
-- to an amount above zero and below 10^38, which a NUMERIC(38, 18) holds.
pub match_amount-decimal_to_base_units :
    (amount : List ℕ)
    → match_amount amount ≡ true
    → is_zero_amount amount ≡ false
    → (n : ℕ) × (decimal_to_base_units amount 18 ≡ some (pos n)) × (0 < n) × (n < 10 ^ 38)
unfolding decimal_to_base_units
match_amount-decimal_to_base_units amount h nonzero =
    let m = pattern_parts amount h in
    let zeros = replicate (18 - length m.fraction) b'0' in
    let padded = m.whole ++ (m.fraction ++ zeros) in
    let split : split_dot amount ≡ (m.whole, m.fraction) =
      subst (λ s. split_dot s ≡ (m.whole, m.fraction)) m.joined
        (split_dot-join m.whole m.fraction m.whole_digits) in
    let size : length padded ≤ 38 = omega (
      arith,
      length-append m.whole (m.fraction ++ zeros),
      length-append m.fraction zeros,
      length-replicate {A = ℕ} (18 - length m.fraction) b'0',
      m.whole_short,
      m.fraction_short,
    ) in
    let long : 0 < length padded =
      omega (arith, length-append m.whole (m.fraction ++ zeros), m.whole_long) in
    let (v, value, below) =
      digits_value-bound 0 (38 - length padded) 38 padded
        (all-append m.whole (m.fraction ++ zeros) m.whole_digits
          (all-append m.fraction zeros m.fraction_digits (all-replicate (18 - length m.fraction))))
        (pow_pos (38 - length padded)) (omega arith) in
    let not_zero = is_zero-append m.whole m.fraction zeros (
      is_zero-join m.whole m.fraction
        (subst (λ s. is_zero_amount s ≡ false) (sym m.joined) nonzero)) in
    (
      v,
      ground (arith, split, m.fraction_short, set_string-digits padded v long value),
      digits_value-positive 0 v padded value (inr not_zero),
      below,
    )
