-- ===== src/Blockchain/Compact/Precision.antt =====
-- How much of a target the compact encoding of blockchain/difficulty.go keeps.
use native.Mathlib.Nat.{pow-le-pow_right, mod-lt, div-add-mod', div-lt_iff_lt-mul, mul-le-mul_right}
use native.Mathlib.Numerals.{towards_suc}
use elastos_ela_side_chain.Common.{
  ℕ, zero, suc, ◌+◌, ◌-◌, ◌*◌, ◌/◌, ◌%◌, ◌^◌, dec_lt, ◌≤◌, ◌<◌, ◌≡◌, refl, ap, ◌∙◌, arith, leb,
  ◌==◌, if◌then◌else◌,
}
use elastos_ela_side_chain.Common.Int.{pos}
use elastos_ela_side_chain.Common.Bits.{bit_or-disjoint}
use elastos_ela_side_chain.Blockchain.Compact.{
  bytes_fuel, byte_length, raw_mantissa, pack_compact, big_to_compact, compact_to_big,
}

byte_power-suc : (r : ℕ) → 2 ^ (8 * (1 + r)) ≡ 256 * 2 ^ (8 * r)
byte_power-suc r =
    let e : 8 * (1 + r) ≡ 8 * r + 8 = omega arith in rw e (simp towards_suc (omega arith))

bytes_fuel-suc : (f n : ℕ) → 0 < n → bytes_fuel (suc f) n ≡ 1 + bytes_fuel f (n / 256)
unfolding bytes_fuel
bytes_fuel-suc f n p = ground arith

bytes_fuel-zero : (f : ℕ) → bytes_fuel f 0 ≡ 0
unfolding bytes_fuel
bytes_fuel-zero zero = refl
bytes_fuel-zero (suc f) = refl

-- The byte count brackets the number between two powers of 256.
bytes_fuel_bounds :
    (f n : ℕ)
    → n ≤ f
    → 0 < n
    → (n < 2 ^ (8 * bytes_fuel f n)) × (2 ^ (8 * bytes_fuel f n) ≤ 256 * n) × (0 < bytes_fuel f n)
bytes_fuel_bounds zero n h p = absurd (omega arith)
bytes_fuel_bounds (suc f) n h p =
    rw (bytes_fuel-suc f n p, byte_power-suc)
      (elim (dec_lt n 256) [
        | yes small ↦ let e : n / 256 ≡ 0 = omega arith in rw (e, bytes_fuel-zero f) (omega arith)
        | no big ↦ omega (arith, bytes_fuel_bounds f (n / 256) (omega arith) (omega arith))
      ])

pub byte_length_bounds :
    (n : ℕ)
    → 0 < n
    → (n < 2 ^ (8 * byte_length n)) × (2 ^ (8 * byte_length n) ≤ 256 * n) × (0 < byte_length n)
unfolding byte_length
byte_length_bounds n = bytes_fuel_bounds n n (omega arith)

byte_length-le : (n k : ℕ) → 0 < n → n < 2 ^ (8 * k) → byte_length n ≤ k
byte_length-le n k p h = elim (dec_lt k (byte_length n)) [
  | yes more ↦
      let power : 2 ^ (8 * (1 + k)) ≤ 2 ^ (8 * byte_length n) =
        pow-le-pow_right (omega arith) (omega arith) in
      absurd (omega (arith, byte_length_bounds n p, byte_power-suc k))
  | no fits ↦ omega arith
]

-- What `CompactToBig` reads back from an exponent and a mantissa that leaves the sign bit free.
abbrev decoded : ℕ → ℕ → ℕ
decoded e m = if leb e 3 then m / 2 ^ (8 * (3 - e)) else m * 2 ^ (8 * (e - 3))

pack_compact-pos : (n e m : ℕ) → e < 256 → m < 2 ^ 23 → pack_compact (pos n) e m ≡ e * 2 ^ 24 + m
unfolding pack_compact
pack_compact-pos n e m he hm =
    let wrap : e * 2 ^ 24 % 2 ^ 32 ≡ e * 2 ^ 24 = omega arith in
    rw (wrap, bit_or-disjoint 24 e m (omega arith)) (ground arith)

compact_to_big-pack :
    (e m : ℕ) → e < 256 → m < 2 ^ 23 → compact_to_big (e * 2 ^ 24 + m) ≡ pos (decoded e m)
unfolding compact_to_big
compact_to_big-pack e m he hm =
    let mantissa : (e * 2 ^ 24 + m) % 2 ^ 23 ≡ m = omega arith in
    let sign_bit : (e * 2 ^ 24 + m) / 2 ^ 23 % 2 ≡ 0 = omega arith in
    let exponent : (e * 2 ^ 24 + m) / 2 ^ 24 ≡ e = omega arith in
    rw (mantissa, sign_bit, exponent) (ground arith)

-- The bytes below the mantissa are lost: `m` is within one part in 2 ^ 15 of `n`, from below.
abbrev pub Rounds : ℕ → ℕ → Type 0
Rounds n m = (m ≤ n) × ((n - m) * 2 ^ 15 < n)

-- A number of more than three bytes, in units of `p`: the top three are the mantissa.
shift-Rounds :
    (n p : ℕ)
    → 2 ^ 16 * p ≤ n
    → n < 2 ^ 24 * p
    → (n / p < 2 ^ 24)
      × Rounds n (n / p * p)
      × (2 ^ 23 ≤ n / p → Rounds n (n / p / 2 ^ 8 * (256 * p)))
shift-Rounds n p lo hi =
    let q : ℕ = n / p in
    let split : q * p + n % p ≡ n = div-add-mod' n p in
    let rest : n % p < p = mod-lt n (omega arith) in
    let whole : q ≡ 256 * (q / 256) + q % 256 = omega arith in
    let low : q * p ≡ 256 * (q / 256 * p) + q % 256 * p =
      omega (arith, ap (λ (t : ℕ). t * p) whole) in
    let low_le : q % 256 * p ≤ 255 * p = mul-le-mul_right p (omega arith) in
    let high : 2 ^ 23 ≤ q → 2 ^ 23 * p ≤ q * p = λ h. mul-le-mul_right p h in
    let scale : q / 256 * (256 * p) ≡ 256 * (q / 256 * p) = omega arith in
    (
      (div-lt_iff_lt-mul (omega arith)).1 (omega arith),
      (omega arith, omega arith),
      λ h. let far : 2 ^ 23 * p ≤ q * p = high h in rw scale (omega arith, omega arith),
    )

-- The exponent and mantissa that the encoder settles on, and their decoding.
abbrev encode : ℕ → ℕ → ℕ → ℕ
encode n e m =
    if m / 2 ^ 23 % 2 == 1
    then pack_compact (pos n) (e + 1) (m / 2 ^ 8)
    else pack_compact (pos n) e m

decode_small :
    (n e m : ℕ) → e < 256 → m < 2 ^ 23 → compact_to_big (encode n e m) ≡ pos (decoded e m)
decode_small n e m he hm =
    let clear : m / 2 ^ 23 % 2 ≡ 0 = omega arith in
    rw (clear, pack_compact-pos n e m he hm) (compact_to_big-pack e m he hm)

decode_large :
    (n e m : ℕ)
    → e < 255
    → 2 ^ 23 ≤ m
    → m < 2 ^ 24
    → compact_to_big (encode n e m) ≡ pos (decoded (e + 1) (m / 2 ^ 8))
decode_large n e m he lo hm =
    let set : m / 2 ^ 23 % 2 ≡ 1 = omega arith in
    rw (set, pack_compact-pos n (e + 1) (m / 2 ^ 8) (omega arith) (omega arith))
      (compact_to_big-pack (e + 1) (m / 2 ^ 8) (omega arith) (omega arith))

big_to_compact-pos :
    (n : ℕ)
    → 0 < n
    → big_to_compact (pos n) ≡ encode n (byte_length n) (raw_mantissa (pos n) (byte_length n))
unfolding big_to_compact
big_to_compact-pos n h = ground arith

-- There is a decoding of the code of `n` that is close to `n`.
abbrev Keeps : ℕ → ℕ → Type 0
Keeps n compact = (m : ℕ) × (compact_to_big compact ≡ pos m) × Rounds n m

decoded-long : (k m : ℕ) → decoded (4 + k) m ≡ m * 2 ^ (8 * (1 + k))
decoded-long k m = let e : 4 + k - 3 ≡ 1 + k = omega arith in rw e (ground arith)

decoded-longer : (k m : ℕ) → decoded (4 + k + 1) m ≡ m * (256 * 2 ^ (8 * (1 + k)))
decoded-longer k m =
    let e : 4 + k + 1 ≡ 4 + (1 + k) = omega arith in
    rw e (decoded-long (1 + k) m ∙ ap (λ (t : ℕ). m * t) (byte_power-suc (1 + k)))

-- A number of four bytes or more.
long_Keeps :
    (n k : ℕ)
    → k < 251
    → 2 ^ 16 * 2 ^ (8 * (1 + k)) ≤ n
    → n < 2 ^ 24 * 2 ^ (8 * (1 + k))
    → Keeps n (encode n (4 + k) (n / 2 ^ (8 * (1 + k))))
long_Keeps n k hk lo hi =
    let (fits, plain, shifted) = shift-Rounds n (2 ^ (8 * (1 + k))) lo hi in
    elim (dec_lt (n / 2 ^ (8 * (1 + k))) (2 ^ 23)) [
      | yes small ↦ (
        n / 2 ^ (8 * (1 + k)) * 2 ^ (8 * (1 + k)),
        decode_small n (4 + k) _ (omega arith) small ∙ ap pos (decoded-long k _),
        plain,
      )
      | no large ↦ (
        n / 2 ^ (8 * (1 + k)) / 2 ^ 8 * (256 * 2 ^ (8 * (1 + k))),
        decode_large n (4 + k) _ (omega arith) (omega arith) fits ∙ ap pos (decoded-longer k _),
        shifted (omega arith),
      )
    ]

-- A number of at most three bytes, from the value that its code decodes to.
short_Keeps :
    (n e m : ℕ)
    → e < 255
    → m < 2 ^ 24
    → (m < 2 ^ 23 → Rounds n (decoded e m))
    → (2 ^ 23 ≤ m → Rounds n (decoded (e + 1) (m / 2 ^ 8)))
    → Keeps n (encode n e m)
short_Keeps n e m he hm small large = elim (dec_lt m (2 ^ 23)) [
  | yes h ↦ (decoded e m, decode_small n e m (omega arith) h, small h)
  | no h ↦
      (decoded (e + 1) (m / 2 ^ 8), decode_large n e m he (omega arith) hm, large (omega arith))
]

one_byte_Keeps : (n : ℕ) → 0 < n → n < 2 ^ 8 → Keeps n (encode n 1 (n % 2 ^ 32 * 2 ^ 16 % 2 ^ 32))
one_byte_Keeps n p h = short_Keeps n 1 _ (omega arith) (omega arith) (omega arith) (omega arith)

two_bytes_Keeps : (n : ℕ) → 0 < n → n < 2 ^ 16 → Keeps n (encode n 2 (n % 2 ^ 32 * 2 ^ 8 % 2 ^ 32))
two_bytes_Keeps n p h = short_Keeps n 2 _ (omega arith) (omega arith) (omega arith) (omega arith)

three_bytes_Keeps :
    (n : ℕ) → 0 < n → 2 ^ 16 ≤ n → n < 2 ^ 24 → Keeps n (encode n 3 (n % 2 ^ 32 * 2 ^ 0 % 2 ^ 32))
three_bytes_Keeps n p lo h =
    short_Keeps n 3 _ (omega arith) (omega arith) (omega arith) (omega arith)

byte_power_three : (k : ℕ) → 2 ^ (8 * (4 + k)) ≡ 2 ^ 24 * 2 ^ (8 * (1 + k))
byte_power_three k =
    let e : 4 + k ≡ 1 + (1 + (1 + (1 + k))) = omega arith in
    rw e (
      omega (
        arith,
        byte_power-suc (1 + (1 + (1 + k))),
        byte_power-suc (1 + (1 + k)),
        byte_power-suc (1 + k),
      ))

raw_mantissa-long :
    (n k : ℕ)
    → n / 2 ^ (8 * (1 + k)) < 2 ^ 24
    → raw_mantissa (pos n) (4 + k) ≡ n / 2 ^ (8 * (1 + k))
unfolding raw_mantissa
raw_mantissa-long n k h =
    let e : 4 + k - 3 ≡ 1 + k = omega arith in
    let fits : n / 2 ^ (8 * (1 + k)) % 2 ^ 32 ≡ n / 2 ^ (8 * (1 + k)) = omega arith in
    rw e (ground (arith, fits))

four_bytes_Keeps :
    (n k : ℕ)
    → k < 251
    → n < 2 ^ (8 * (4 + k))
    → 2 ^ (8 * (4 + k)) ≤ 256 * n
    → Keeps n (encode n (4 + k) (raw_mantissa (pos n) (4 + k)))
four_bytes_Keeps n k hk up lo =
    let low : 2 ^ 16 * 2 ^ (8 * (1 + k)) ≤ n = omega (arith, byte_power_three k) in
    let high : n < 2 ^ 24 * 2 ^ (8 * (1 + k)) = omega (arith, byte_power_three k) in
    rw (raw_mantissa-long n k (shift-Rounds n (2 ^ (8 * (1 + k))) low high).0)
      (long_Keeps n k hk low high)

-- The encoder by the number of bytes.
by_length :
    (n l : ℕ)
    → 0 < n
    → l < 255
    → n < 2 ^ (8 * l)
    → 2 ^ (8 * l) ≤ 256 * n
    → 0 < l
    → Keeps n (encode n l (raw_mantissa (pos n) l))
unfolding raw_mantissa
by_length n zero p hl up lo pl = absurd (omega arith)
by_length n (suc zero) p hl up lo pl = one_byte_Keeps n p up
by_length n (suc (suc zero)) p hl up lo pl = two_bytes_Keeps n p up
by_length n (suc (suc (suc zero))) p hl up lo pl = three_bytes_Keeps n p (omega arith) up
by_length n (suc (suc (suc (suc k)))) p hl up lo pl =
    let e : suc (suc (suc (suc k))) ≡ 4 + k = omega arith in
    rw e (four_bytes_Keeps n k (omega arith) (rw e at up) (rw e at lo))

-- Encoding a target below 256 ^ 254 and decoding it again gives a target that is no larger and
-- smaller by less than one part in 2 ^ 15.
pub compact_to_big-big_to_compact :
    (n : ℕ)
    → 0 < n
    → n < 2 ^ (8 * 254)
    → (m : ℕ) × (compact_to_big (big_to_compact (pos n)) ≡ pos m) × Rounds n m
compact_to_big-big_to_compact n p h =
    let (up, lo, pl) = byte_length_bounds n p in
    rw (big_to_compact-pos n p)
      (by_length n (byte_length n) p (omega (arith, byte_length-le n 254 p h)) up lo pl)
