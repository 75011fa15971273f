-- ===== src/Actions/PaymentPrep/Account/Digit.antt =====
-- A digit more in the base-32 decoder: what goes out and what stays.
use Prim.Native.Nat.{bit_or}
use native.Mathlib.Nat.{one-le-pow, pow-le-pow_right}
use native.Mathlib.Numerals.{towards_suc}
use agentlily_runtime.Common.{
  ℕ, zero, suc, ◌+◌, ◌-◌, ◌*◌, ◌/◌, ◌%◌, ◌^◌, ◌≤◌, ◌<◌, ◌≡◌, refl, sym, ap, subst, Bool, true, ◌&&◌,
  List, [], ◌∷◌, ◌++◌, all, length, length-append, ltb, ◌==◌, ==_iff, arith, Bool-cases, inl, inr,
  if◌then◌else◌,
}
use agentlily_runtime.Actions.PaymentPrep.Account.{
  Decoder, take_byte, take_bytes, put_digit, read_digit,
}

-- The number that bytes stand for, the first one the most significant.
abbrev pub bytes_value : ℕ → List ℕ → ℕ
bytes_value acc [] = acc
bytes_value acc (b ∷ bytes) = bytes_value (acc * 256 + b) bytes

-- A test of every number under a bound, by evaluation.
each_below : (ℕ → Bool) → ℕ → Bool
each_below test zero = true
each_below test (suc bound) = let rest = each_below test bound in rest && test bound

each_below-test :
    (test : ℕ → Bool) (bound k : ℕ) → each_below test bound ≡ true → k < bound → test k ≡ true
unfolding each_below
each_below-test test zero k e h = absurd (omega arith)
each_below-test test (suc bound) k e h = ground (arith, each_below-test test bound k)

is_added : ℕ → Bool
is_added x = bit_or (x / 32 * 2 ^ 5) (x % 32) == x

shifted_table : each_below is_added 4096 ≡ true
unfolding each_below is_added
shifted_table = refl

-- Below the shifted buffer the new digit has free bits, so that `|` adds it.
bit_or-shifted : (b d : ℕ) → b < 128 → d < 32 → bit_or (b * 2 ^ 5) d ≡ b * 32 + d
bit_or-shifted b d hb hd =
    let quotient : (b * 32 + d) / 32 ≡ b = omega arith in
    let remainder : (b * 32 + d) % 32 ≡ d = omega arith in
    let found =
      (==_iff (bit_or ((b * 32 + d) / 32 * 2 ^ 5) ((b * 32 + d) % 32)) (b * 32 + d)).0 (
        unfold is_added in
        each_below-test is_added 4096 (b * 32 + d) shifted_table (omega arith)) in
    rw (quotient, remainder) at found

take_bytes-low : (fuel : ℕ) (d : Decoder) → d.bit_count < 8 → take_bytes fuel d ≡ d
unfolding take_bytes
take_bytes-low zero d h = refl
take_bytes-low (suc fuel) d h = ground arith

-- One byte leaves the decoder.
pub record Moves (count buffer : ℕ) (output : List ℕ) (d : Decoder) : Type 0 where
  pub low : d.bit_count < 8
  pub fit : d.bit_buffer < 2 ^ d.bit_count
  pub number :
      bytes_value 0 output * 2 ^ count + buffer
      ≡ bytes_value 0 d.output * 2 ^ d.bit_count + d.bit_buffer
  pub bits : 8 * length output + count ≡ 8 * length d.output + d.bit_count
  pub bytes : all (λ b. ltb b 256) output ≡ true → all (λ b. ltb b 256) d.output ≡ true

bytes_value-append :
    (acc : ℕ) (s t : List ℕ) → bytes_value acc (s ++ t) ≡ bytes_value (bytes_value acc s) t
bytes_value-append acc [] t = refl
bytes_value-append acc (b ∷ s) t = bytes_value-append (acc * 256 + b) s t

all-snoc :
    (p : ℕ → Bool) (s : List ℕ) (b : ℕ) → all p s ≡ true → p b ≡ true → all p (s ++ b ∷ []) ≡ true
all-snoc p [] b h k = ground arith
all-snoc p (c ∷ s) b h k = ground (arith, all-snoc p s b)

abbrev pub decoder : ℕ → ℕ → List ℕ → Decoder
decoder count buffer output = record { bit_count = count; bit_buffer = buffer; output = output }

byte_number :
    (o b q : ℕ) → 0 < q → b < 256 * q → (o * 256 + b / q % 256) * q + b % q ≡ o * (256 * q) + b
byte_number o b q h lt = grind arith

pow-eight : (k : ℕ) → 2 ^ (k + 8) ≡ 256 * 2 ^ k
pow-eight k = simp towards_suc (omega arith)

pow_pos : (k : ℕ) → 0 < 2 ^ k
pow_pos k = one-le-pow k 2 (omega arith)

take_byte-eq :
    (k buffer : ℕ) (output : List ℕ)
    → take_byte (decoder (k + 8) buffer output)
      ≡ decoder k (buffer % 2 ^ k) (output ++ (buffer / 2 ^ k % 256) ∷ [])
unfolding take_byte
take_byte-eq k buffer output =
    let count : k + 8 - 8 ≡ k = omega arith in
    rw count (ap (λ b. decoder k b (output ++ (buffer / 2 ^ k % 256) ∷ [])) (left k))
  where
    left : (k : ℕ) → (if k == 0 then 0 else buffer % 2 ^ k) ≡ buffer % 2 ^ k
    left zero = omega arith
    left (suc k) = ground arith

-- With k + 8 bits, k < 8, one byte goes out and k bits stay.
take_byte-Moves :
    (k buffer : ℕ) (output : List ℕ)
    → k < 8
    → buffer < 2 ^ (k + 8)
    → Moves (k + 8) buffer output (take_byte (decoder (k + 8) buffer output))
take_byte-Moves k buffer output h lt = rw (take_byte-eq k buffer output) (record {
  low = h;
  fit = omega (arith, pow_pos k);
  number =
      rw (bytes_value-append 0 output (buffer / 2 ^ k % 256 ∷ []), pow-eight k)
        (sym (
          byte_number (bytes_value 0 output) buffer (2 ^ k) (pow_pos k)
            (omega (arith, pow-eight k))));
  bits = omega (arith, length-append output ((buffer / 2 ^ k % 256) ∷ []));
  bytes = λ all. all-snoc _ output _ all (ground arith);
})

pub five_more : (c b digit : ℕ) → b < 2 ^ c → digit < 32 → b * 32 + digit < 2 ^ (c + 5)
five_more c b digit h hd = simp towards_suc (omega arith)

below_seven_bits : (c b : ℕ) → c < 8 → b < 2 ^ c → b < 128
below_seven_bits c b hc h =
    omega (arith, pow-le-pow_right {n = 2} (omega arith) {i = c} {j = 7} (omega arith))

pub read_digit-eq :
    (digit : ℕ) (d : Decoder)
    → digit < 32
    → d.bit_count < 8
    → d.bit_buffer < 2 ^ d.bit_count
    → read_digit digit d
      ≡ take_bytes
          (d.bit_count + 5)
          (decoder (d.bit_count + 5) (d.bit_buffer * 32 + digit) d.output)
unfolding read_digit put_digit
read_digit-eq digit d hd low fit =
    rw (bit_or-shifted d.bit_buffer digit (below_seven_bits d.bit_count d.bit_buffer low fit) hd)
      refl

take_bytes-high :
    (fuel : ℕ) (d : Decoder)
    → 8 ≤ d.bit_count
    → take_bytes (fuel + 8) d ≡ take_bytes (fuel + 7) (take_byte d)
unfolding take_bytes
take_bytes-high fuel d h =
    let more : fuel + 8 ≡ suc (fuel + 7) = omega arith in rw more (ground arith)

pub five_bits : (o c : ℕ) → o * 2 ^ (c + 5) ≡ 32 * (o * 2 ^ c)
five_bits o c =
    let double : 2 ^ (c + 5) ≡ 2 ^ c * 32 = simp towards_suc (omega arith) in
    rw double (grind arith)

pub take_bytes-Moves :
    (c b : ℕ) (output : List ℕ)
    → c < 13
    → b < 2 ^ c
    → Moves c b output (take_bytes c (decoder c b output))
take_bytes-Moves c b output hc h = elim (Bool-cases (ltb c 8)) [
  | inl few ↦
      rw (take_bytes-low c (decoder c b output) (ground arith))
        (record { low = ground arith; fit = h; number = refl; bits = refl; bytes = λ all. all })
  | inr many ↦
      let count : c - 8 + 8 ≡ c = ground arith in
      subst (λ c. Moves c b output (take_bytes c (decoder c b output))) count
        (enough (c - 8) (omega arith) (subst (λ c. b < 2 ^ c) (sym count) h))
]
  where
    enough :
        (k : ℕ)
        → k < 8
        → b < 2 ^ (k + 8)
        → Moves (k + 8) b output (take_bytes (k + 8) (decoder (k + 8) b output))
    enough k hk h =
        rw
          (
            take_bytes-high k (decoder (k + 8) b output) (ground arith),
            take_bytes-low (k + 7) (take_byte (decoder (k + 8) b output))
                (take_byte-Moves k b output hk h).low,
          )
          (take_byte-Moves k b output hk h)
