-- ===== src/Actions/PaymentPrep/Account/Decoding.antt =====
-- The base-32 decoder computes the change of base from 32 to 256.
use agentlily_runtime.Common.{
  ℕ, suc, ◌+◌, ◌*◌, ◌^◌, ◌<◌, ◌≡◌, refl, ap, subst, true, List, [], ◌∷◌, Option, none, some, Text,
  all, length, ltb, ◌==◌, ==_iff, arith, Bool-cases, Option-cases, inl, inr,
}
use agentlily_runtime.Actions.PaymentPrep.Account.{
  base32_alphabet, index_of, Decoder, read_digit, read_all, finish, decode_base32,
}
use agentlily_runtime.Actions.PaymentPrep.Account.Digit.{
  bytes_value, decoder, Moves, take_bytes-Moves, read_digit-eq, five_bits, five_more,
}

-- The same for digits of base 32, each given by its place in the alphabet; `none` if some
-- character is not in it.
unfoldable pub text_value : ℕ → Text → Option ℕ
text_value acc [] = some acc
text_value acc (c ∷ s) = elim (index_of base32_alphabet c) [
  | none ↦ none
  | some digit ↦ text_value (acc * 32 + digit) s
]

-- What a decoder holds after `n` characters of value `v`.
record Holds (n v : ℕ) (d : Decoder) : Type 0 where
  low : d.bit_count < 8
  fit : d.bit_buffer < 2 ^ d.bit_count
  counted : 5 * n ≡ 8 * length d.output + d.bit_count
  same_value : v ≡ bytes_value 0 d.output * 2 ^ d.bit_count + d.bit_buffer
  are_bytes : all (λ b. ltb b 256) d.output ≡ true

read_digit-Holds :
    (digit n v : ℕ) (d : Decoder)
    → digit < 32
    → Holds n v d
    → Holds (suc n) (v * 32 + digit) (read_digit digit d)
read_digit-Holds digit n v d hd h = rw (read_digit-eq digit d hd h.low h.fit) (
    moved (
      take_bytes-Moves (d.bit_count + 5) (d.bit_buffer * 32 + digit) d.output (omega (arith, h.low))
        (five_more d.bit_count d.bit_buffer digit h.fit hd)))
  where
    moved :
        {d' : Decoder}
        → Moves (d.bit_count + 5) (d.bit_buffer * 32 + digit) d.output d'
        → Holds (suc n) (v * 32 + digit) d'
    moved m = record {
      low = m.low;
      fit = m.fit;
      counted = omega (arith, h.counted, m.bits);
      same_value =
          omega (arith, h.same_value, five_bits (bytes_value 0 d.output) d.bit_count, m.number);
      are_bytes = m.bytes h.are_bytes;
    }

index_of-lt : (s : Text) (c i : ℕ) → index_of s c ≡ some i → i < length s
unfolding index_of
index_of-lt [] c i h = cc
index_of-lt (d ∷ s) c i h = grind (arith, index_of-lt s c)

digit-lt : (c digit : ℕ) → index_of base32_alphabet c ≡ some digit → digit < 32
digit-lt c digit h = index_of-lt base32_alphabet c digit h

some-injective : {A : Type 0} {a b : A} → some a ≡ some b → a ≡ b
some-injective e = cc

none-ne-some : {A : Type 0} {a : A} → none ≡ some a → ⊥
none-ne-some e = cc

add_nil : (n : ℕ) → n ≡ n + 0
add_nil n = omega arith

add_suc : (n m : ℕ) → suc n + m ≡ n + suc m
add_suc n m = omega arith

read_all-Holds :
    (s : Text) (n v : ℕ) (d d' : Decoder)
    → Holds n v d
    → read_all s d ≡ some d'
    → (v' : ℕ) × (text_value v s ≡ some v') × Holds (n + length s) v' d'
unfolding read_all text_value
read_all-Holds [] n v d d' h e =
    (v, refl, subst (λ m. Holds m v d') (add_nil n) (subst (Holds n v) (some-injective e) h))
read_all-Holds (c ∷ s) n v d d' h e = elim (Option-cases (index_of base32_alphabet c)) [
  | inl missing ↦ absurd (none-ne-some (rw (missing, read_all) at e))
  | inr (digit, found) ↦
      let lt = digit-lt c digit found in
      let (v', value, held) =
        read_all-Holds s (suc n) (v * 32 + digit) (read_digit digit d) d'
          (read_digit-Holds digit n v d lt h) (rw (found, read_all) at e) in
      (v', rw (found, text_value) value, subst (λ m. Holds m v' d') (add_suc n (length s)) held)
]

finish-some :
    (d : Decoder) (bytes : List ℕ)
    → d.bit_buffer < 2 ^ d.bit_count
    → finish d ≡ some bytes
    → (d.bit_buffer ≡ 0) × (d.output ≡ bytes)
unfolding finish
finish-some d bytes fit e = elim (Bool-cases (d.bit_count == 0)) [
  | inl none_left ↦
      let one : 2 ^ d.bit_count ≡ 1 = ap (λ k. 2 ^ k) ((==_iff d.bit_count 0).0 none_left) in
      (omega arith, ground arith)
  | inr some_left ↦ ground arith
]

-- Decoding changes the base: every character is a digit of the alphabet, the text is worth what
-- the bytes and the bits left over are, fewer than eight and all zero, and the bytes are below 256.
pub decode_base32_lem :
    (s : Text) (bytes : List ℕ)
    → decode_base32 s ≡ some bytes
    → (k : ℕ) × (k < 8)
      × (5 * length s ≡ 8 * length bytes + k)
      × (text_value 0 s ≡ some (bytes_value 0 bytes * 2 ^ k))
      × (all (λ b. ltb b 256) bytes ≡ true)
unfolding decode_base32
decode_base32_lem s bytes e = elim (Option-cases (read_all s (decoder 0 0 []))) [
  | inl missing ↦ absurd (none-ne-some (rw (missing, decode_base32) at e))
  | inr (d, found) ↦
      let (v, value, h) = read_all-Holds s 0 0 (decoder 0 0 []) d start found in
      let (zeros, all_out) = finish-some d bytes h.fit (rw (found, decode_base32) at e) in
      rw (← all_out) (
        d.bit_count,
        h.low,
        omega (arith, h.counted),
        rw value (ap some (omega (arith, h.same_value))),
        h.are_bytes,
      )
]
  where
    start : Holds 0 0 (decoder 0 0 [])
    start = record {
      low = omega arith;
      fit = omega arith;
      counted = refl;
      same_value = refl;
      are_bytes = refl;
    }
