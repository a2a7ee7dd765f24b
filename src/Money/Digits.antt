-- ===== src/Money/Digits.antt =====
-- money/convert.go: digits and their values, padding and trimming.
use chain_route.Prelude.{
  ℕ, zero, suc, ◌+◌, ◌-◌, ◌*◌, ◌/◌, ◌%◌, ◌≤◌, ◌<◌, Bool, true, ◌&&◌, some, List, [], ◌∷◌, ◌++◌, ◌≡◌,
  refl, arith, length, replicate, take, ap,
}
use chain_route.Money.{is_digit, digits_value, digits, pad_left, trim_zeros, drop}

abbrev pub all_digits : List ℕ → Bool
all_digits [] = true
all_digits (c ∷ cs) = is_digit c && all_digits cs

pub digits_value-digits :
    (fuel n : ℕ) (acc : List ℕ) → n < fuel → digits_value 0 (digits fuel n acc) ≡ digits_value n acc
unfolding digits_value digits
digits_value-digits zero n acc h = ground arith
digits_value-digits (suc fuel) n acc h = ground (
  arith,
  digits_value-digits fuel (n / 10) ((n % 10 + b'0') ∷ acc),
  ap (λ (k : ℕ). digits_value k acc) {x = n / 10 * 10 + n % 10} {y = n},
)

pub digits_value-all : (a v : ℕ) (xs : List ℕ) → digits_value a xs ≡ some v → all_digits xs ≡ true
unfolding digits_value
digits_value-all a v [] h = refl
digits_value-all a v (c ∷ xs) h = ground (arith, digits_value-all (a * 10 + (c - b'0')) v xs)

pub digits_value-pad_left :
    (fuel d : ℕ) (s : List ℕ) → digits_value 0 (pad_left fuel d s) ≡ digits_value 0 s
unfolding digits_value pad_left
digits_value-pad_left zero d s = refl
digits_value-pad_left (suc fuel) d s = ground (arith, digits_value-pad_left fuel d (b'0' ∷ s))

pub length-pad_left :
    (fuel d : ℕ) (s : List ℕ) → d < length s + fuel → d < length (pad_left fuel d s)
unfolding pad_left
length-pad_left zero d s h = omega arith
length-pad_left (suc fuel) d s h = ground (arith, length-pad_left fuel d (b'0' ∷ s))

pub take-drop : (k : ℕ) (xs : List ℕ) → take k xs ++ drop k xs ≡ xs
take-drop zero xs = refl
take-drop (suc k) [] = refl
take-drop (suc k) (x ∷ xs) = ap (λ ys. x ∷ ys) (take-drop k xs)

pub length-drop : (k : ℕ) (xs : List ℕ) → length (drop k xs) ≡ length xs - k
length-drop zero xs = omega arith
length-drop (suc k) [] = omega arith
length-drop (suc k) (x ∷ xs) = omega (arith, length-drop k xs)

pub all-take : (k : ℕ) (xs : List ℕ) → all_digits xs ≡ true → all_digits (take k xs) ≡ true
all-take zero xs h = refl
all-take (suc k) [] h = refl
all-take (suc k) (x ∷ xs) h = ground (arith, all-take k xs)

pub length-trim_zeros : (r : List ℕ) → length (trim_zeros r) ≤ length r
unfolding trim_zeros
length-trim_zeros [] = omega arith
length-trim_zeros (c ∷ cs) = ground (arith, length-trim_zeros cs)

pub trim_zeros-zeros :
    (r : List ℕ) → trim_zeros r ++ replicate (length r - length (trim_zeros r)) b'0' ≡ r
unfolding trim_zeros
trim_zeros-zeros [] = refl
trim_zeros-zeros (c ∷ cs) = ground (arith, trim_zeros-zeros cs, length-trim_zeros cs)

-- The digits of a number have its value.
pub digits_value-all_digits : (n : ℕ) → digits_value 0 (digits (suc n) n []) ≡ some n
unfolding digits_value
digits_value-all_digits n = ground (arith, digits_value-digits (suc n) n [])
