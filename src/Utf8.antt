-- ===== src/Utf8.antt =====
-- UTF-8: `str::as_bytes` and `String::from_utf8`.
use vaultwarden_eso_provider.Prelude.{
  ℕ, ◌+◌, ◌-◌, ◌*◌, ◌/◌, ◌%◌, ◌≡◌, refl, ◌≤◌, ◌<◌, ◌⊎◌, Bool, true, false, ◌&&◌, Option, none, some,
  List, [], ◌∷◌, ◌++◌, ltb, leb, ◌==◌, if◌then◌else◌, option_map, length, length-append, All, arith,
}
use vaultwarden_eso_provider.Text.{Text, byte_len}

abbrev pub Bytes : Type 0
Bytes = List ℕ

unfoldable pub encode_char : ℕ → Bytes
encode_char c =
    if ltb c 0x80
    then c ∷ []
    else if ltb c 0x800
    then (0xc0 + c / 64) ∷ (0x80 + c % 64) ∷ []
    else if ltb c 0x10000
    then (0xe0 + c / 4096) ∷ (0x80 + c / 64 % 64) ∷ (0x80 + c % 64) ∷ []
    else (0xf0 + c / 262144) ∷ (0x80 + c / 4096 % 64) ∷ (0x80 + c / 64 % 64) ∷ (0x80 + c % 64) ∷ []

unfoldable pub as_bytes : Text → Bytes
unfolding encode_char
as_bytes [] = []
as_bytes (c ∷ s) = encode_char c ++ as_bytes s

-- What the decoder waits for: how many continuation bytes, the bits so far, and the range of the
-- next byte, which excludes overlong forms, surrogates and what lies above the last scalar value.
record Pending : Type 0 where
  need : ℕ
  bits : ℕ
  low : ℕ
  high : ℕ

abbrev between : ℕ → ℕ → ℕ → Bool
between lo hi b = leb lo b && leb b hi

lead : ℕ → Option Pending
lead b =
    if between 0xc2 0xdf b
    then some (record { need = 1; bits = b - 0xc0; low = 0x80; high = 0xbf })
    else if b == 0xe0
    then some (record { need = 2; bits = 0; low = 0xa0; high = 0xbf })
    else if b == 0xed
    then some (record { need = 2; bits = 0xd; low = 0x80; high = 0x9f })
    else if between 0xe1 0xef b
    then some (record { need = 2; bits = b - 0xe0; low = 0x80; high = 0xbf })
    else if b == 0xf0
    then some (record { need = 3; bits = 0; low = 0x90; high = 0xbf })
    else if between 0xf1 0xf3 b
    then some (record { need = 3; bits = b - 0xf0; low = 0x80; high = 0xbf })
    else if b == 0xf4
    then some (record { need = 3; bits = 4; low = 0x80; high = 0x8f })
    else none

mutual
  unfolding lead

  -- Between two characters.
  decode : Bytes → Option Text
  decode [] = some []
  decode (b ∷ bs) = elim (ltb b 0x80) [
    | true ↦ option_map (λ s. b ∷ s) (decode bs)
    | false ↦ elim (lead b) [ none ↦ none | some p ↦ decode_rest p.need p.bits p.low p.high bs ]
  ]

  -- Inside a character that wants `need` more bytes.
  decode_rest : ℕ → ℕ → ℕ → ℕ → Bytes → Option Text
  decode_rest need bits low high [] = none
  decode_rest need bits low high (b ∷ bs) = elim (between low high b) [
    | false ↦ none
    | true ↦ elim (need == 1) [
      | true ↦ option_map (λ s. (bits * 64 + (b - 0x80)) ∷ s) (decode bs)
      | false ↦ decode_rest (need - 1) (bits * 64 + (b - 0x80)) 0x80 0xbf bs
    ]
  ]

unfoldable pub from_utf8 : Bytes → Option Text
unfolding decode decode_rest
from_utf8 bytes = decode bytes

-- A Unicode scalar value.
abbrev pub IsScalar : ℕ → Type 0
IsScalar c = (c < 0xd800) ⊎ ((0xdfff < c) × (c < 0x110000))

module _ (c : ℕ) (bs : Bytes) where
  decode-one : c < 0x80 → decode (c ∷ bs) ≡ option_map (λ s. c ∷ s) (decode bs)
  unfolding decode
  decode-one h = ground arith

  decode-two :
      0x80 ≤ c
      → c < 0x800
      → decode ((0xc0 + c / 64) ∷ (0x80 + c % 64) ∷ bs) ≡ option_map (λ s. c ∷ s) (decode bs)
  unfolding decode
  decode-two lo hi = ground arith

  decode-three :
      0x800 ≤ c
      → c < 0x10000
      → IsScalar c
      → decode ((0xe0 + c / 4096) ∷ (0x80 + c / 64 % 64) ∷ (0x80 + c % 64) ∷ bs)
        ≡ option_map (λ s. c ∷ s) (decode bs)
  unfolding decode
  decode-three lo hi h = ground arith

  decode-four :
      0x10000 ≤ c
      → IsScalar c
      → decode (
          (0xf0 + c / 262144)
          ∷ (0x80 + c / 4096 % 64)
          ∷ (0x80 + c / 64 % 64)
          ∷ (0x80 + c % 64)
          ∷ bs)
        ≡ option_map (λ s. c ∷ s) (decode bs)
  unfolding decode
  decode-four lo h = ground arith

  decode-encode_char :
      IsScalar c → decode (encode_char c ++ bs) ≡ option_map (λ s. c ∷ s) (decode bs)
  unfolding encode_char
  decode-encode_char h = ground (arith, decode-one, decode-two, decode-three, decode-four)

-- Decoding the bytes of a text gives the text back.
pub from_utf8-as_bytes : (s : Text) → All IsScalar s → from_utf8 (as_bytes s) ≡ some s
unfolding from_utf8 as_bytes
from_utf8-as_bytes [] h = unfold decode in refl
from_utf8-as_bytes (c ∷ s) (hc, hs) =
    unfold decode in rw (decode-encode_char c (as_bytes s) hc, from_utf8-as_bytes s hs)

-- `str::len` counts these bytes.
pub length-as_bytes : (s : Text) → length (as_bytes s) ≡ byte_len s
unfolding as_bytes byte_len
length-as_bytes [] = refl
length-as_bytes (c ∷ s) =
    ground (arith, length-append (encode_char c) (as_bytes s), length-as_bytes s)
