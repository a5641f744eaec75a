-- ===== src/Crypto/Canonical/Stringify.antt =====
-- `JSON.stringify` without indentation, as the language defines it.
use a2a_agent_layer.Common.{
  ℕ, ◌+◌, ◌/◌, ◌%◌, Bool, true, false, ◌&&◌, ◌||◌, [], ◌∷◌, ◌++◌, ltb, leb, ◌==◌, if◌then◌else◌,
  Text, codes,
}
use a2a_agent_layer.Common.Json.{
  Json, null, bool, num, str, arr, obj, Items, nil, cons, Fields, end, field,
}

hex_digit : ℕ → ℕ
hex_digit n = if ltb n 10 then n + b'0' else n + 87

-- The escape by four hexadecimal digits.
unicode_escape : ℕ → Text
unicode_escape c =
    92
    ∷ b'u'
    ∷ hex_digit (c / 4096 % 16)
    ∷ hex_digit (c / 256 % 16)
    ∷ hex_digit (c / 16 % 16)
    ∷ hex_digit (c % 16)
    ∷ []

is_high_surrogate : ℕ → Bool
is_high_surrogate c = leb 0xD800 c && leb c 0xDBFF

is_low_surrogate : ℕ → Bool
is_low_surrogate c = leb 0xDC00 c && leb c 0xDFFF

escape_unit : ℕ → Text
escape_unit c =
    if c == b'"'
    then 92 ∷ b'"' ∷ []
    else if c == 92
    then 92 ∷ 92 ∷ []
    else if c == 8
    then 92 ∷ b'b' ∷ []
    else if c == 9
    then 92 ∷ b't' ∷ []
    else if c == 10
    then 92 ∷ b'n' ∷ []
    else if c == 12
    then 92 ∷ b'f' ∷ []
    else if c == 13
    then 92 ∷ b'r' ∷ []
    else if ltb c 32 || is_high_surrogate c || is_low_surrogate c
    then unicode_escape c
    else c ∷ []

-- A pair of surrogates stays as it is, a lone one is escaped.
escape : Text → Text
escape [] = []
escape (c ∷ []) = escape_unit c
escape (c ∷ d ∷ s) =
    let pair = escape s in
    let single = escape (d ∷ s) in
    if is_high_surrogate c && is_low_surrogate d then c ∷ d ∷ pair else escape_unit c ++ single

quote : Text → Text
quote s = b'"' ∷ escape s ++ b'"' ∷ []

mutual
  stringify_value : Json → Text
  stringify_value null = codes "null"
  stringify_value (bool true) = codes "true"
  stringify_value (bool false) = codes "false"
  stringify_value (num n) = n
  stringify_value (str s) = quote s
  stringify_value (arr xs) = b'[' ∷ stringify_items xs
  stringify_value (obj fs) = b'{' ∷ stringify_fields fs

  -- The items and the closing bracket.
  stringify_items : Items → Text
  stringify_items nil = b']' ∷ []
  stringify_items (cons x nil) = stringify_value x ++ b']' ∷ []
  stringify_items (cons x (cons y xs)) = stringify_value x ++ b',' ∷ stringify_items (cons y xs)

  stringify_fields : Fields → Text
  stringify_fields end = b'}' ∷ []
  stringify_fields (field k v end) = quote k ++ b':' ∷ stringify_value v ++ b'}' ∷ []
  stringify_fields (field k v (field j w fs)) =
      quote k ++ b':' ∷ stringify_value v ++ b',' ∷ stringify_fields (field j w fs)

unfoldable pub stringify : Json → Text
unfolding stringify_value stringify_items stringify_fields quote escape escape_unit
    is_high_surrogate is_low_surrogate unicode_escape hex_digit
stringify v = stringify_value v
