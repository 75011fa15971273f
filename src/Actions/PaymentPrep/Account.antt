-- ===== src/Actions/PaymentPrep/Account.antt =====
-- src/actions/payment-prep-action.ts, lines 12-16 and 109-178: the test of a Stellar account
-- identifier. The buffer of the decoder stays below 2^12 and the checksum below 2^17, so that no
-- shift leaves the 32 bits of JavaScript's integers.
pub mod Digit
pub mod Decoding
use Prim.Native.Nat.{bit_and, bit_or, bit_xor}
use agentlily_runtime.Common.{
  ℕ, zero, suc, ◌+◌, ◌-◌, ◌*◌, ◌/◌, ◌%◌, ◌^◌, Bool, true, false, ◌&&◌, ◌||◌, not, List, [], ◌∷◌,
  ◌++◌, Option, none, some, Text, lit, all, length, ltb, leb, ◌==◌, if◌then◌else◌,
}

abbrev pub ed25519_public_key_version_byte : ℕ
ed25519_public_key_version_byte = 6 * 2 ^ 3

abbrev pub stellar_account_id_decoded_bytes : ℕ
stellar_account_id_decoded_bytes = 35

abbrev pub stellar_account_id_payload_bytes : ℕ
stellar_account_id_payload_bytes = 33

abbrev pub base32_alphabet : Text
base32_alphabet = lit "ABCDEFGHIJKLMNOPQRSTUVWXYZ234567"

-- `alphabet.indexOf(character)`; `none` is -1.
unfoldable pub index_of : Text → ℕ → Option ℕ
index_of [] c = none
index_of (d ∷ s) c =
    if d == c then some 0 else (elim (index_of s c) [ none ↦ none | some i ↦ some (suc i) ])

abbrev pub is_capital : ℕ → Bool
is_capital c = leb b'A' c && leb c b'Z'

-- `STELLAR_ACCOUNT_ID_RE.test(value)`: `^G[A-Z2-7]{55}$`
unfoldable pub stellar_account_id_re : Text → Bool
stellar_account_id_re [] = false
stellar_account_id_re (g ∷ s) =
    g == b'G' && length s == 55 && all (λ c. is_capital c || (leb b'2' c && leb c b'7')) s

-- The local variables of `decodeBase32`.
pub record Decoder : Type 0 where
  pub bit_count : ℕ
  pub bit_buffer : ℕ
  pub output : List ℕ

unfoldable pub take_byte : Decoder → Decoder
take_byte d =
    let bit_count = d.bit_count - 8 in
    record {
      bit_count = bit_count;
      bit_buffer = if bit_count == 0 then 0 else d.bit_buffer % 2 ^ bit_count;
      output = d.output ++ (d.bit_buffer / 2 ^ bit_count % 256) ∷ [];
    }

-- `while (bitCount >= 8)`; each round takes 8 from the count, which is the fuel.
unfoldable pub take_bytes : ℕ → Decoder → Decoder
unfolding take_byte
take_bytes zero d = d
take_bytes (suc fuel) d =
    let rest = take_bytes fuel (take_byte d) in if leb 8 d.bit_count then rest else d

unfoldable pub put_digit : ℕ → Decoder → Decoder
put_digit digit d = record d {
  bit_buffer = bit_or (d.bit_buffer * 2 ^ 5) digit;
  bit_count = d.bit_count + 5;
}

unfoldable pub read_digit : ℕ → Decoder → Decoder
unfolding put_digit take_bytes
read_digit digit d = let d' = put_digit digit d in take_bytes d'.bit_count d'

-- `for (const character of value)`
unfoldable pub read_all : Text → Decoder → Option Decoder
unfolding index_of read_digit
read_all [] d = some d
read_all (c ∷ s) d = elim (index_of base32_alphabet c) [
  | none ↦ none
  | some digit ↦ read_all s (read_digit digit d)
]

unfoldable pub finish : Decoder → Option (List ℕ)
finish d = if not (d.bit_count == 0) && not (d.bit_buffer == 0) then none else some d.output

unfoldable pub decode_base32 : Text → Option (List ℕ)
unfolding read_all finish
decode_base32 value =
    elim (read_all value (record { bit_count = 0; bit_buffer = 0; output = [] })) [
      | none ↦ none
      | some d ↦ finish d
    ]

unfoldable pub crc_bit : ℕ → ℕ
crc_bit checksum =
    if not (bit_and checksum 0x8000 == 0)
    then bit_xor (checksum * 2) 0x1021 % 2 ^ 16
    else checksum * 2 % 2 ^ 16

-- `for (let bit = 0; bit < 8; bit += 1)`, by the rounds left.
unfoldable pub crc_bits : ℕ → ℕ → ℕ
unfolding crc_bit
crc_bits zero checksum = checksum
crc_bits (suc left) checksum = crc_bits left (crc_bit checksum)

unfoldable pub crc_from : ℕ → List ℕ → ℕ
unfolding crc_bits
crc_from checksum [] = checksum
crc_from checksum (byte ∷ bytes) = crc_from (crc_bits 8 (bit_xor checksum (byte * 2 ^ 8))) bytes

unfoldable pub crc16_xmodem : List ℕ → ℕ
unfolding crc_from
crc16_xmodem bytes = crc_from 0 bytes

abbrev pub get_elem? : List ℕ → ℕ → Option ℕ
get_elem? [] i = none
get_elem? (x ∷ xs) zero = some x
get_elem? (x ∷ xs) (suc i) = get_elem? xs i

-- `bytes.subarray(0, n)`
abbrev pub take : ℕ → List ℕ → List ℕ
take zero xs = []
take (suc n) [] = []
take (suc n) (x ∷ xs) = x ∷ take n xs

abbrev pub equals : Option ℕ → ℕ → Bool
equals none n = false
equals (some m) n = m == n

-- The low and the high byte of the checksum against the bytes before them.
unfoldable pub checksum_fits : List ℕ → Option ℕ → Option ℕ → Bool
unfolding crc16_xmodem
checksum_fits decoded (some low) (some high) =
    crc16_xmodem (take stellar_account_id_payload_bytes decoded) == bit_or low (high * 2 ^ 8)
checksum_fits decoded _ _ = false

unfoldable pub is_account : Option (List ℕ) → Bool
unfolding checksum_fits
is_account none = false
is_account (some decoded) =
    if not (length decoded == stellar_account_id_decoded_bytes)
      || not (equals (get_elem? decoded 0) ed25519_public_key_version_byte)
    then false
    else checksum_fits decoded (get_elem? decoded stellar_account_id_payload_bytes)
        (get_elem? decoded (stellar_account_id_payload_bytes + 1))

unfoldable pub is_valid_stellar_account_id : Text → Bool
unfolding stellar_account_id_re decode_base32 is_account
is_valid_stellar_account_id value =
    if not (stellar_account_id_re value) then false else is_account (decode_base32 value)
