-- ===== src/Money/RoundTrip.antt =====
-- money/convert.go: the two conversions, one behind the other.
use chain_route.Prelude.{
  ℕ, suc, ◌-◌, ◌≤◌, ◌<◌, true, some, List, [], ◌∷◌, ◌++◌, ◌≡◌, refl, ◌∙◌, arith, length, replicate,
  take, ap, subst,
}
use chain_route.Prelude.Int.{ℤ, pos, negsuc}
use chain_route.Money.{
  digits_value, digits, pad_left, trim_zeros, drop, split_dot, set_digits, set_string, negate,
  place_point, join_fraction, decimal_to_base_units, base_units_to_decimal,
}
use chain_route.Money.Digits.{
  all_digits, digits_value-all_digits, digits_value-all, digits_value-pad_left, length-pad_left,
  take-drop, length-drop, all-take, length-trim_zeros, trim_zeros-zeros,
}

pub split_dot-join : (i t : List ℕ) → all_digits i ≡ true → split_dot (join_fraction i t) ≡ (i, t)
unfolding split_dot
split_dot-join [] [] h = refl
split_dot-join (c ∷ i) [] h = ground (arith, split_dot-join i [])
split_dot-join [] (x ∷ t) h = refl
split_dot-join (c ∷ i) (x ∷ t) h = ground (arith, split_dot-join i (x ∷ t))

append_assoc : (xs ys zs : List ℕ) → (xs ++ ys) ++ zs ≡ xs ++ (ys ++ zs)
append_assoc [] ys zs = refl
append_assoc (x ∷ xs) ys zs = ap (λ s. x ∷ s) (append_assoc xs ys zs)

-- What the padded digits give back: the parts around the point, which together are the digits.
record Placed (d : ℕ) (s : List ℕ) (padded : List ℕ) : Type 0 where
  whole : List ℕ
  fraction : List ℕ
  printed : place_point d s ≡ join_fraction whole fraction
  parts : split_dot (join_fraction whole fraction) ≡ (whole, fraction)
  fits : length fraction ≤ d
  together : whole ++ (fraction ++ replicate (d - length fraction) b'0') ≡ padded

placed : (d v : ℕ) (s : List ℕ) → digits_value 0 s ≡ some v → Placed d s (pad_left (suc d) d s)
unfolding place_point
placed d v s h =
    let p = pad_left (suc d) d s in
    let k = length p - d in
    let r = drop k p in
    let long = length-pad_left (suc d) d s (omega arith) in
    let all = digits_value-all 0 v p (ground (arith, digits_value-pad_left (suc d) d s)) in
    let size : length r ≡ d = omega (arith, length-drop k p, long) in
    record {
      whole = take k p;
      fraction = trim_zeros r;
      printed = refl;
      parts = split_dot-join (take k p) (trim_zeros r) (all-take k p all);
      fits = omega (arith, length-trim_zeros r, size);
      together =
          subst
            (λ (m : ℕ).
              take k p ++ (trim_zeros r ++ replicate (m - length (trim_zeros r)) b'0') ≡ p)
            size (ap (λ x. take k p ++ x) (trim_zeros-zeros r) ∙ take-drop k p);
    }

pub set_string-digits :
    (p : List ℕ) (v : ℕ) → 0 < length p → digits_value 0 p ≡ some v → set_string p ≡ some (pos v)
unfolding set_string set_digits digits_value
set_string-digits [] v h e = ground arith
set_string-digits (c ∷ p) v h e = ground arith

set_string-negative :
    (p : List ℕ) (v : ℕ)
    → 0 < length p
    → digits_value 0 p ≡ some v
    → set_string (b'-' ∷ p) ≡ some (negate v)
unfolding set_string set_digits
set_string-negative [] v h e = ground arith
set_string-negative (c ∷ p) v h e = ground arith

-- Between the two signs only the first byte differs.
module _ (d v : ℕ) (s : List ℕ) (value : digits_value 0 s ≡ some v) where
  padded_long : 0 < length (pad_left (suc d) d s)
  padded_long = omega (arith, length-pad_left (suc d) d s (omega arith))

  padded_value : digits_value 0 (pad_left (suc d) d s) ≡ some v
  padded_value = digits_value-pad_left (suc d) d s ∙ value

  placed-positive : decimal_to_base_units (place_point d s) d ≡ some (pos v)
  unfolding decimal_to_base_units
  placed-positive =
      let x = placed d v s value in
      ground (
        arith,
        x.printed,
        x.parts,
        x.fits,
        x.together,
        set_string-digits (pad_left (suc d) d s) v padded_long padded_value,
      )

  placed-negative : decimal_to_base_units (b'-' ∷ place_point d s) d ≡ some (negate v)
  unfolding decimal_to_base_units split_dot
  placed-negative =
      let x = placed d v s value in
      ground (
        arith,
        x.printed,
        x.parts,
        x.fits,
        x.together,
        set_string-negative (pad_left (suc d) d s) v padded_long padded_value,
      )

-- For every amount, of either sign, and every number of decimals: the decimal that
-- BaseUnitsToDecimal writes is read back by DecimalToBaseUnits as the same amount.
pub decimal_to_base_units-base_units_to_decimal :
    (amount : ℤ) (decimals : ℕ)
    → decimal_to_base_units (base_units_to_decimal amount decimals) decimals ≡ some amount
unfolding base_units_to_decimal
decimal_to_base_units-base_units_to_decimal (pos n) d =
    placed-positive d n (digits (suc n) n []) (digits_value-all_digits n)
decimal_to_base_units-base_units_to_decimal (negsuc n) d =
    placed-negative d (suc n) (digits (suc (suc n)) (suc n) []) (digits_value-all_digits (suc n))
