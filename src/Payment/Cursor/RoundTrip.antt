-- ===== src/Payment/Cursor/RoundTrip.antt =====
-- payment/cursor.go: encoding and decoding, one behind the other.
use chain_route.Prelude.{
  ℕ, ◌+◌, ◌*◌, ◌/◌, ◌%◌, ◌<◌, false, some, List, [], ◌∷◌, ◌++◌, ◌≡◌, refl, arith, eqb, All,
}
use chain_route.Payment.Cursor.{
  sextet_char, char_sextet, encode_to_string, decode_last, decode_full, decode_groups,
  strip_newlines, decode_string, encode_cursor, split_comma, decode_cursor,
}

abbrev pub IsByte : ℕ → Type 0
IsByte c = c < 256

abbrev pub IsNoComma : ℕ → Type 0
IsNoComma c = eqb c b',' ≡ false

char_sextet-sextet_char : (n : ℕ) → n < 64 → char_sextet (sextet_char n) ≡ some n
unfolding char_sextet sextet_char
char_sextet-sextet_char n h = ground arith

sextet_char-padding : (n : ℕ) → n < 64 → eqb (sextet_char n) b'=' ≡ false
unfolding sextet_char
sextet_char-padding n h = ground arith

-- No character of an encoding is a carriage return or a line feed.
abbrev IsVisible : ℕ → Type 0
IsVisible c = 13 < c

sextet_char-IsVisible : (n : ℕ) → IsVisible (sextet_char n)
unfolding sextet_char
sextet_char-IsVisible n = ground arith

encode-IsVisible : (xs : List ℕ) → All IsVisible (encode_to_string xs)
unfolding encode_to_string
encode-IsVisible [] = tt
encode-IsVisible (a ∷ []) = (
  sextet_char-IsVisible (a / 4),
  (sextet_char-IsVisible (a % 4 * 16), (omega arith, (omega arith, tt))),
)
encode-IsVisible (a ∷ b ∷ []) = (
  sextet_char-IsVisible (a / 4),
  (
    sextet_char-IsVisible (a % 4 * 16 + b / 16),
    (sextet_char-IsVisible (b % 16 * 4), (omega arith, tt)),
  ),
)
encode-IsVisible (a ∷ b ∷ c ∷ rest) = (
  sextet_char-IsVisible (a / 4),
  (
    sextet_char-IsVisible (a % 4 * 16 + b / 16),
    (
      sextet_char-IsVisible (b % 16 * 4 + c / 64),
      (sextet_char-IsVisible (c % 64), encode-IsVisible rest),
    ),
  ),
)

strip_newlines-IsVisible : (cs : List ℕ) → All IsVisible cs → strip_newlines cs ≡ cs
unfolding strip_newlines
strip_newlines-IsVisible [] h = refl
strip_newlines-IsVisible (c ∷ cs) h = ground (arith, h.0, strip_newlines-IsVisible cs h.1)

module _ (a b c : ℕ) (ha : a < 256) (hb : b < 256) (hc : c < 256) where
  decode_full-bytes :
      decode_full
        (sextet_char (a / 4))
        (sextet_char (a % 4 * 16 + b / 16))
        (sextet_char (b % 16 * 4 + c / 64))
        (sextet_char (c % 64))
      ≡ some (a ∷ b ∷ c ∷ [])
  unfolding decode_full
  decode_full-bytes = ground (
    arith,
    char_sextet-sextet_char (a / 4) (omega (arith, ha)),
    char_sextet-sextet_char (a % 4 * 16 + b / 16) (omega (arith, hb)),
    char_sextet-sextet_char (b % 16 * 4 + c / 64) (omega (arith, hc)),
    char_sextet-sextet_char (c % 64) (omega arith),
  )

decode_groups-encode : (xs : List ℕ) → All IsByte xs → decode_groups (encode_to_string xs) ≡ some xs
unfolding decode_groups decode_last encode_to_string
decode_groups-encode [] h = refl
decode_groups-encode (a ∷ []) h = ground (
  arith,
  h.0,
  char_sextet-sextet_char (a / 4) (omega (arith, h.0)),
  char_sextet-sextet_char (a % 4 * 16) (omega arith),
)
decode_groups-encode (a ∷ b ∷ []) h = ground (
  arith,
  h.0,
  h.1.0,
  char_sextet-sextet_char (a / 4) (omega (arith, h.0)),
  char_sextet-sextet_char (a % 4 * 16 + b / 16) (omega (arith, h.1.0)),
  char_sextet-sextet_char (b % 16 * 4) (omega arith),
  sextet_char-padding (b % 16 * 4) (omega arith),
)
decode_groups-encode (a ∷ b ∷ c ∷ rest) h = ground (
  arith,
  decode_full-bytes a b c h.0 h.1.0 h.1.1.0,
  sextet_char-padding (c % 64) (omega arith),
  decode_groups-encode rest h.1.1.1,
)

split_comma-append :
    (xs ys : List ℕ) → All IsNoComma xs → split_comma (xs ++ b',' ∷ ys) ≡ some (xs, ys)
unfolding split_comma
split_comma-append [] ys h = refl
split_comma-append (x ∷ xs) ys h = ground (arith, h.0, split_comma-append xs ys h.1)

All-append : (P : ℕ → Type 0) (xs ys : List ℕ) → All P xs → All P ys → All P (xs ++ ys)
All-append P [] ys h k = k
All-append P (x ∷ xs) ys h k = (h.0, All-append P xs ys h.1 k)

-- For every text of a time that has no comma, and every id, both of bytes, the cursor that
-- EncodeCursor makes is decoded by DecodeCursor to the same two.
pub decode_cursor-encode_cursor :
    (created_at id : List ℕ)
    → All IsByte created_at
    → All IsByte id
    → All IsNoComma created_at
    → decode_cursor (encode_cursor created_at id) ≡ some (created_at, id)
unfolding decode_cursor encode_cursor decode_string
decode_cursor-encode_cursor created_at id ht hi hc =
    let bytes = All-append IsByte created_at (b',' ∷ id) ht (omega arith, hi) in
    ground (
      arith,
      strip_newlines-IsVisible (encode_to_string (created_at ++ b',' ∷ id))
          (encode-IsVisible (created_at ++ b',' ∷ id)),
      decode_groups-encode (created_at ++ b',' ∷ id) bytes,
      split_comma-append created_at id hc,
    )
