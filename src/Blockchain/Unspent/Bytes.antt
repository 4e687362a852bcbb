-- ===== src/Blockchain/Unspent/Bytes.antt =====
-- blockchain/chaindata.go: the bytes of the indexes read back as they were.
use mathlib.Core.Option.{some-injective}
use elastos_ela_side_chain.Common.{
  ℕ, ◌+◌, ◌*◌, ◌/◌, ◌%◌, ◌^◌, ◌<◌, ◌≡◌, refl, subst, Option, none, some, List, [], ◌∷◌, All, arith,
}
use elastos_ela_side_chain.Blockchain.Unspent.{get_uint16_array, to_byte_array}

joined : (x : ℕ) → x < 2 ^ 16 → (x % 256 + x / 256 % 256 * 256) % 2 ^ 16 ≡ x
joined x small = omega arith

-- `GetUint16Array` reads what `ToByteArray` wrote, for numbers below 2 ^ 16.
pub get_uint16_array-to_byte_array :
    (xs : List ℕ) → All (λ x. x < 2 ^ 16) xs → get_uint16_array (to_byte_array xs) ≡ some xs
unfolding get_uint16_array to_byte_array
get_uint16_array-to_byte_array [] small = refl
get_uint16_array-to_byte_array (x ∷ xs) small =
    rw (get_uint16_array-to_byte_array xs small.1, joined x small.0) refl

pub get_uint16_array-IsUint16 :
    (bytes : List ℕ) {xs : List ℕ} → get_uint16_array bytes ≡ some xs → All (λ x. x < 2 ^ 16) xs
unfolding get_uint16_array
get_uint16_array-IsUint16 [] e = subst (λ l. All (λ x. x < 2 ^ 16) l) (some-injective _ _ e) tt
get_uint16_array-IsUint16 (low ∷ []) e = cc
get_uint16_array-IsUint16 (low ∷ high ∷ source) {xs} e =
    go (get_uint16_array source) (λ ys h. get_uint16_array-IsUint16 source {xs = ys} h) e
  where
    go :
        (found : Option (List ℕ))
        → ((ys : List ℕ) → found ≡ some ys → All (λ x. x < 2 ^ 16) ys)
        → (elim found [ none ↦ none | some rest ↦ some ((low + high * 256) % 2 ^ 16 ∷ rest) ])
          ≡ some xs
        → All (λ x. x < 2 ^ 16) xs
    go none ih h = cc
    go (some rest) ih h =
        subst (λ l. All (λ x. x < 2 ^ 16) l) (some-injective _ _ h) (omega arith, ih rest refl)
