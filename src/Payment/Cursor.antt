-- ===== src/Payment/Cursor.antt =====
-- go-api/internal/payment/cursor.go, with the URL encoding of encoding/base64 that it calls, over
-- bytes.
pub mod RoundTrip
use chain_route.Prelude.{
  ℕ, zero, suc, ◌+◌, ◌-◌, ◌*◌, ◌/◌, ◌%◌, Bool, true, false, ◌&&◌, Option, none, some, List, [], ◌∷◌,
  ◌++◌, eqb, ltb, leb, if◌then◌else◌,
}
use mathlib.Core.Option

-- The alphabet A-Z a-z 0-9 - _.
unfoldable pub sextet_char : ℕ → ℕ
sextet_char n =
    if ltb n 26
    then n + b'A'
    else if ltb n 52
    then n - 26 + b'a'
    else if ltb n 62
    then n - 52 + b'0'
    else if eqb n 62
    then b'-'
    else b'_'

unfoldable pub char_sextet : ℕ → Option ℕ
char_sextet c =
    if leb b'A' c && leb c b'Z'
    then some (c - b'A')
    else if leb b'a' c && leb c b'z'
    then some (c - b'a' + 26)
    else if leb b'0' c && leb c b'9'
    then some (c - b'0' + 52)
    else if eqb c b'-'
    then some 62
    else if eqb c b'_'
    then some 63
    else none

-- base64.URLEncoding.EncodeToString.
unfoldable pub encode_to_string : List ℕ → List ℕ
unfolding sextet_char
encode_to_string [] = []
encode_to_string (a ∷ []) = sextet_char (a / 4) ∷ sextet_char (a % 4 * 16) ∷ b'=' ∷ b'=' ∷ []
encode_to_string (a ∷ b ∷ []) =
    sextet_char (a / 4) ∷ sextet_char (a % 4 * 16 + b / 16) ∷ sextet_char (b % 16 * 4) ∷ b'=' ∷ []
encode_to_string (a ∷ b ∷ c ∷ rest) =
    sextet_char (a / 4)
    ∷ sextet_char (a % 4 * 16 + b / 16)
    ∷ sextet_char (b % 16 * 4 + c / 64)
    ∷ sextet_char (c % 64)
    ∷ encode_to_string rest

abbrev pub at_end : List ℕ → Bool
at_end [] = true
at_end (_ ∷ _) = false

-- One group of four: its sextets; and whether the padding ends the text.
unfoldable pub decode_last : ℕ → ℕ → ℕ → ℕ → Bool → Option (List ℕ)
decode_last p q r s ends = elim (char_sextet p) [
  | none ↦ none
  | some x ↦ elim (char_sextet q) [
    | none ↦ none
    | some y ↦
        if eqb r b'='
        then (if eqb s b'=' && ends then some ((x * 4 + y / 16) ∷ []) else none)
        else elim (char_sextet r) [
          | none ↦ none
          | some z ↦
              if eqb s b'=' && ends
              then some ((x * 4 + y / 16) ∷ (y % 16 * 16 + z / 4) ∷ [])
              else none
        ]
  ]
]

unfoldable pub decode_full : ℕ → ℕ → ℕ → ℕ → Option (List ℕ)
decode_full p q r s = elim (char_sextet p) [
  | none ↦ none
  | some x ↦ elim (char_sextet q) [
    | none ↦ none
    | some y ↦ elim (char_sextet r) [
      | none ↦ none
      | some z ↦ elim (char_sextet s) [
        | none ↦ none
        | some u ↦ some ((x * 4 + y / 16) ∷ (y % 16 * 16 + z / 4) ∷ (z % 4 * 64 + u) ∷ [])
      ]
    ]
  ]
]

abbrev join : Option (List ℕ) → Option (List ℕ) → Option (List ℕ)
join none _ = none
join (some xs) none = none
join (some xs) (some ys) = some (xs ++ ys)

-- Bits behind the last byte are not looked at.
unfoldable pub decode_groups : List ℕ → Option (List ℕ)
unfolding decode_last decode_full char_sextet
decode_groups [] = some []
decode_groups (p ∷ q ∷ r ∷ s ∷ rest) =
    let more = decode_groups rest in
    if eqb s b'=' then decode_last p q r s (at_end rest) else join (decode_full p q r s) more
decode_groups _ = none

-- The decoder skips carriage returns and line feeds.
unfoldable pub strip_newlines : List ℕ → List ℕ
strip_newlines [] = []
strip_newlines (c ∷ cs) =
    let rest = strip_newlines cs in if eqb c 10 then rest else if eqb c 13 then rest else c ∷ rest

-- base64.URLEncoding.DecodeString.
unfoldable pub decode_string : List ℕ → Option (List ℕ)
unfolding decode_groups strip_newlines
decode_string s = decode_groups (strip_newlines s)

unfoldable pub encode_cursor : List ℕ → List ℕ → List ℕ
unfolding encode_to_string
encode_cursor created_at id = encode_to_string (created_at ++ b',' ∷ id)

abbrev with_first : ℕ → Option (List ℕ × List ℕ) → Option (List ℕ × List ℕ)
with_first c none = none
with_first c (some (before, behind)) = some (c ∷ before, behind)

-- strings.SplitN(s, ",", 2), where it has two parts.
unfoldable pub split_comma : List ℕ → Option (List ℕ × List ℕ)
split_comma [] = none
split_comma (c ∷ cs) =
    let rest = split_comma cs in if eqb c b',' then some ([], cs) else with_first c rest

abbrev split_decoded : Option (List ℕ) → Option (List ℕ × List ℕ)
split_decoded none = none
split_decoded (some raw) = split_comma raw

-- `none` is ErrInvalidCursor.
unfoldable pub decode_cursor : List ℕ → Option (List ℕ × List ℕ)
unfolding decode_string split_comma
decode_cursor cursor = split_decoded (decode_string cursor)
