-- ===== src/Money.antt =====
-- go-api/internal/money/convert.go: decimal amount strings and base units, over bytes. The parts
-- of math/big and strings that it calls are written out: SetString in base 10, String, TrimRight.
pub mod Digits
pub mod RoundTrip
use chain_route.Prelude.{
  ℕ, zero, suc, ◌+◌, ◌-◌, ◌*◌, ◌/◌, ◌%◌, String, Bool, true, false, ◌&&◌, Option, none, some, List,
  [], ◌∷◌, ◌++◌, eqb, ltb, leb, if◌then◌else◌, length, replicate, take,
}
use mathlib.Core.Option
use chain_route.Prelude.Int.{ℤ, pos, negsuc}

abbrev pub is_digit : ℕ → Bool
is_digit c = leb b'0' c && leb c b'9'

-- The value of a run of digits behind `acc`; `none` at any other byte.
unfoldable pub digits_value : ℕ → List ℕ → Option ℕ
digits_value acc [] = some acc
digits_value acc (c ∷ cs) = if is_digit c then digits_value (acc * 10 + (c - b'0')) cs else none

unfoldable pub set_digits : List ℕ → Option ℕ
set_digits [] = none
set_digits (c ∷ cs) = digits_value 0 (c ∷ cs)

abbrev pub negate : ℕ → ℤ
negate zero = pos 0
negate (suc n) = negsuc n

-- new(big.Int).SetString(s, 10).
unfoldable pub set_string : List ℕ → Option ℤ
unfolding set_digits
set_string [] = none
set_string (c ∷ cs) =
    if eqb c b'-'
    then Option.map negate (set_digits cs)
    else if eqb c b'+'
    then Option.map pos (set_digits cs)
    else Option.map pos (set_digits (c ∷ cs))

-- (*big.Int).String of a natural number, with fuel above the number.
unfoldable pub digits : ℕ → ℕ → List ℕ → List ℕ
digits zero n acc = acc
digits (suc fuel) n acc =
    let rest = digits fuel (n / 10) ((n % 10 + b'0') ∷ acc) in
    if ltb n 10 then (n + b'0') ∷ acc else rest

-- (*big.Int).String.
unfoldable pub to_string : ℤ → List ℕ
unfolding digits
to_string (pos n) = digits (suc n) n []
to_string (negsuc n) = b'-' ∷ digits (suc (suc n)) (suc n) []

-- The parts before and behind the first '.', as strings.IndexByte finds it.
unfoldable pub split_dot : List ℕ → List ℕ × List ℕ
split_dot [] = ([], [])
split_dot (c ∷ cs) = let (i, f) = split_dot cs in if eqb c b'.' then ([], cs) else (c ∷ i, f)

-- `none` is the returned error: too many fractional digits, or no integer.
unfoldable pub decimal_to_base_units : List ℕ → ℕ → Option ℤ
unfolding split_dot set_string
decimal_to_base_units amount decimals =
    let (int_part, frac_part) = split_dot amount in
    if ltb decimals (length frac_part)
    then none
    else set_string (int_part ++ (frac_part ++ replicate (decimals - length frac_part) b'0'))

-- `for len(s) <= int(decimals) { s = "0" + s }`, at most decimals + 1 rounds.
unfoldable pub pad_left : ℕ → ℕ → List ℕ → List ℕ
pad_left zero decimals s = s
pad_left (suc fuel) decimals s =
    let rest = pad_left fuel decimals (b'0' ∷ s) in if leb (length s) decimals then rest else s

-- strings.TrimRight(s, "0").
unfoldable pub trim_zeros : List ℕ → List ℕ
trim_zeros [] = []
trim_zeros (c ∷ cs) = elim (trim_zeros cs) [
  | [] ↦ if eqb c b'0' then [] else c ∷ []
  | (d ∷ ds) ↦ c ∷ d ∷ ds
]

abbrev pub drop : ℕ → List ℕ → List ℕ
drop zero xs = xs
drop (suc n) [] = []
drop (suc n) (x ∷ xs) = drop n xs

abbrev pub join_fraction : List ℕ → List ℕ → List ℕ
join_fraction int_part [] = int_part
join_fraction int_part (c ∷ cs) = int_part ++ (b'.' ∷ c ∷ cs)

-- The digits of an absolute value, with the point put in.
unfoldable pub place_point : ℕ → List ℕ → List ℕ
unfolding pad_left trim_zeros
place_point decimals s =
    let padded = pad_left (suc decimals) decimals s in
    let split_at = length padded - decimals in
    join_fraction (take split_at padded) (trim_zeros (drop split_at padded))

-- A value below zero never prints as "0", so the code's second test for the sign always holds.
unfoldable pub base_units_to_decimal : ℤ → ℕ → List ℕ
unfolding place_point digits
base_units_to_decimal (pos n) decimals = place_point decimals (digits (suc n) n [])
base_units_to_decimal (negsuc n) decimals =
    b'-' ∷ place_point decimals (digits (suc (suc n)) (suc n) [])
