-- ===== src/Egress.antt =====
-- The gate that a request passes before a secret is read: src/core/injector.ts, with the rules on
-- paths, methods and hosts of src/core/providers.ts. A URL is parsed already; a text that is walked
-- is the list of its code points.
pub mod Decode
pub mod Method
pub mod Gate
pub mod Admission
pub mod Tests
pub mod Response
use vouchr.Base.{
  ℕ, zero, suc, ◌+◌, ◌-◌, ◌*◌, String, Bool, true, false, ◌&&◌, ◌||◌, List, [], ◌∷◌, Option, none,
  some, leb, ltb, nat_beq, not, if◌then◌else◌,
}
use vouchr.Base.Lists.{any}

-- /%2f|%5c/i, at the head of the text
abbrev pub is_separator_digits : ℕ → ℕ → Bool
is_separator_digits h l =
    (nat_beq h 50 && (nat_beq l 102 || nat_beq l 70))
    || (nat_beq h 53 && (nat_beq l 99 || nat_beq l 67))

starts_separator : List ℕ → Bool
starts_separator (p ∷ h ∷ l ∷ s) = nat_beq p 37 && is_separator_digits h l
starts_separator _ = false

-- ENCODED_PATH_SEPARATOR.test
unfoldable pub has_encoded_separator : List ℕ → Bool
unfolding starts_separator
has_encoded_separator [] = false
has_encoded_separator (c ∷ s) = starts_separator (c ∷ s) || has_encoded_separator s

-- The value of a hexadecimal digit.
unfoldable pub hex_value : ℕ → Option ℕ
hex_value c =
    if leb 48 c && leb c 57
    then some (c - 48)
    else if leb 97 c && leb c 102
    then some (c - 87)
    else if leb 65 c && leb c 70
    then some (c - 55)
    else none

-- The next byte of a UTF-8 sequence: its bounds, the bits so far, and how many bytes come after it.
pub record Expected : Type 0 where
  pub low : ℕ
  pub high : ℕ
  pub bits : ℕ
  pub more : ℕ

-- Where the decoder stands: outside an escape, at the '%' of a byte that must follow, after a '%',
-- and after its first digit.
pub data Mode : Type 0 where
  plain : Mode
  at_escape : Expected → Mode
  first_digit : Option Expected → Mode
  second_digit : Option Expected → ℕ → Mode

-- What a byte leads to: the end of a code point, one more byte, or an error.
pub data ByteResult : Type 0 where
  whole : ℕ → ByteResult
  partial : Expected → ByteResult
  malformed : ByteResult

-- The first byte of a sequence, with the bounds that exclude overlong forms, surrogates and values
-- past 0x10ffff.
pub first_byte : ℕ → ByteResult
first_byte b =
    if ltb b 128
    then whole b
    else if leb 194 b && leb b 223
    then partial (record { low = 128; high = 191; bits = b - 192; more = 0 })
    else if leb 224 b && leb b 239
    then partial (record {
      low = if nat_beq b 224 then 160 else 128;
      high = if nat_beq b 237 then 159 else 191;
      bits = b - 224;
      more = 1;
    })
    else if leb 240 b && leb b 244
    then partial (record {
      low = if nat_beq b 240 then 144 else 128;
      high = if nat_beq b 244 then 143 else 191;
      bits = b - 240;
      more = 2;
    })
    else malformed

pub next_byte : Expected → ℕ → ByteResult
next_byte e b =
    if leb e.low b && leb b e.high
    then (let bits = e.bits * 64 + (b - 128) in
        if nat_beq e.more 0
        then whole bits
        else partial (record { low = 128; high = 191; bits = bits; more = e.more - 1 }))
    else malformed

pub byte_of : Option Expected → ℕ → ByteResult
unfolding first_byte next_byte
byte_of none b = first_byte b
byte_of (some e) b = next_byte e b

pub prepend : ℕ → Option (List ℕ) → Option (List ℕ)
prepend c none = none
prepend c (some d) = some (c ∷ d)

-- decodeURIComponent: none where it throws
pub decode_from : Mode → List ℕ → Option (List ℕ)
unfolding byte_of hex_value prepend
decode_from plain [] = some []
decode_from (at_escape e) [] = none
decode_from (first_digit e) [] = none
decode_from (second_digit e h) [] = none
decode_from plain (c ∷ s) =
    let kept = prepend c (decode_from plain s) in
    let escaped = decode_from (first_digit none) s in if nat_beq c 37 then escaped else kept
decode_from (at_escape e) (c ∷ s) =
    let rest = decode_from (first_digit (some e)) s in if nat_beq c 37 then rest else none
decode_from (first_digit e) (c ∷ s) = elim (hex_value c) [
  | none ↦ none
  | some h ↦ decode_from (second_digit e h) s
]
decode_from (second_digit e h) (c ∷ s) = elim (hex_value c) [
  | none ↦ none
  | some l ↦ elim (byte_of e (h * 16 + l)) [
    | whole b ↦ prepend b (decode_from plain s)
    | partial f ↦ decode_from (at_escape f) s
    | malformed ↦ none
  ]
]

unfoldable pub decode_uri_component : List ℕ → Option (List ℕ)
unfolding decode_from
decode_uri_component s = decode_from plain s

-- The segments of a path, in the order of the text; the last argument holds the current one reversed.
pub is_dot_segment : List ℕ → Bool
is_dot_segment (a ∷ []) = nat_beq a 46
is_dot_segment (a ∷ b ∷ []) = nat_beq a 46 && nat_beq b 46
is_dot_segment _ = false

dot_from : List ℕ → List ℕ → Bool
unfolding is_dot_segment
dot_from cur [] = is_dot_segment cur
dot_from cur (c ∷ s) =
    let next = dot_from [] s in
    let longer = dot_from (c ∷ cur) s in if nat_beq c 47 then is_dot_segment cur || next else longer

-- decoded.split('/').some((segment) => segment === '.' || segment === '..')
unfoldable pub has_dot_segment : List ℕ → Bool
unfolding dot_from
has_dot_segment s = dot_from [] s

-- decoded.includes('\\') or a dot segment
unfoldable pub changes_routing : List ℕ → Bool
changes_routing d = any (λ c. nat_beq c 92) d || has_dot_segment d

abbrev pub same_codes : List ℕ → List ℕ → Bool
same_codes [] [] = true
same_codes (a ∷ s) (b ∷ t) = nat_beq a b && same_codes s t
same_codes _ _ = false

abbrev pub max_path_decode_passes : ℕ
max_path_decode_passes = 8

-- The loop, with the passes that are left. After the last one, ENCODED_OCTET needs a '%' too.
pub ambiguous_from : ℕ → List ℕ → Bool
ambiguous_from zero c = any (λ x. nat_beq x 37) c
ambiguous_from (suc n) c =
    let next = λ (d : List ℕ). ambiguous_from n d in
    if has_encoded_separator c then true else elim (decode_uri_component c) [
      | none ↦ true
      | some d ↦ if same_codes d c then false else if changes_routing d then true else next d
    ]

unfoldable pub has_ambiguous_path_encoding : List ℕ → Bool
unfolding ambiguous_from
has_ambiguous_path_encoding path = ambiguous_from max_path_decode_passes path
