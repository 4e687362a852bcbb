-- ===== src/Bloom/Murmur.antt =====
-- bloom/murmurhash3.go: MurmurHash3 over the bytes of a slice, of fewer than 2^32 bytes.
use Prim.Native.Nat.{bit_or, bit_xor}
use elastos_ela_side_chain.Common.{
  ℕ, ◌+◌, ◌-◌, ◌*◌, ◌/◌, ◌%◌, ◌^◌, ◌≡◌, refl, List, [], ◌∷◌, length,
}

abbrev murmur_c1 : ℕ
murmur_c1 = 0xcc9e2d51

abbrev murmur_c2 : ℕ
murmur_c2 = 0x1b873593

-- The product of two uint32.
abbrev mul32 : ℕ → ℕ → ℕ
mul32 a b = a * b % 2 ^ 32

-- `(k << r) | (k >> (32 - r))`
abbrev rotate_left : ℕ → ℕ → ℕ
rotate_left k r = bit_or (k * 2 ^ r % 2 ^ 32) (k / 2 ^ (32 - r))

-- The mixing of four bytes, or of the tail, before it enters the hash.
abbrev scramble : ℕ → ℕ
scramble k = mul32 (rotate_left (mul32 k murmur_c1) 15) murmur_c2

-- One round of the loop over the blocks of four bytes.
abbrev mix_block : ℕ → ℕ → ℕ
mix_block hash k = (mul32 (rotate_left (bit_xor hash (scramble k)) 13) 5 + 0xe6546b64) % 2 ^ 32

-- The blocks, and the one to three bytes that remain.
unfoldable pub mix_bytes : ℕ → List ℕ → ℕ
mix_bytes hash (b0 ∷ b1 ∷ b2 ∷ b3 ∷ bytes) =
    mix_bytes (mix_block hash (b0 + 2 ^ 8 * b1 + 2 ^ 16 * b2 + 2 ^ 24 * b3)) bytes
mix_bytes hash (b0 ∷ b1 ∷ b2 ∷ []) =
    bit_xor hash (scramble (bit_xor (bit_xor (b2 * 2 ^ 16) (b1 * 2 ^ 8)) b0))
mix_bytes hash (b0 ∷ b1 ∷ []) = bit_xor hash (scramble (bit_xor (b1 * 2 ^ 8) b0))
mix_bytes hash (b0 ∷ []) = bit_xor hash (scramble b0)
mix_bytes hash [] = hash

-- `hash ^= hash >> r`
abbrev xor_shift : ℕ → ℕ → ℕ
xor_shift hash r = bit_xor hash (hash / 2 ^ r)

abbrev finalize : ℕ → ℕ
finalize hash =
    xor_shift (mul32 (xor_shift (mul32 (xor_shift hash 16) 0x85ebca6b) 13) 0xc2b2ae35) 16

-- `MurmurHash3`
unfoldable pub murmur_hash3 : ℕ → List ℕ → ℕ
unfolding mix_bytes
murmur_hash3 seed bytes = finalize (bit_xor (mix_bytes seed bytes) (length bytes % 2 ^ 32))

-- Known values of the function.
empty_run : murmur_hash3 0xfba4c795 [] ≡ 0x6a396f08
unfolding murmur_hash3
empty_run = refl

one_byte_run : murmur_hash3 0xfba4c795 (0x00 ∷ []) ≡ 0xea3f0b17
unfolding murmur_hash3
one_byte_run = refl

nine_bytes_run :
    murmur_hash3 0 (0x00 ∷ 0x11 ∷ 0x22 ∷ 0x33 ∷ 0x44 ∷ 0x55 ∷ 0x66 ∷ 0x77 ∷ 0x88 ∷ []) ≡ 0xb4698def
unfolding murmur_hash3
nine_bytes_run = refl
