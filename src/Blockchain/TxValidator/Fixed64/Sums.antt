-- ===== src/Blockchain/TxValidator/Fixed64/Sums.antt =====
-- What a loop that sums `Fixed64` amounts gives: the int64 of their sum as integers.
use elastos_ela_side_chain.Common.{◌+◌, ◌%◌, ◌^◌, ◌≡◌, List, [], ◌∷◌, map, arith}
use elastos_ela_side_chain.Common.Int.{ℤ, pos, negsuc, ◌+ℤ◌, pos_part, neg_part, int_laws, +ℤ_parts}
use elastos_ela_side_chain.Core.{Output}
use elastos_ela_side_chain.Blockchain.TxValidator.Fixed64.{add64, wrap64}

-- The sum of integers, without wrap-around.
abbrev pub sum_ℤ : List ℤ → ℤ
sum_ℤ [] = pos 0
sum_ℤ (a ∷ rest) = a +ℤ sum_ℤ rest

abbrev pub values : List Output → List ℤ
values outputs = map (λ (output : Output). output.value) outputs

wrap64-parts :
    (a : ℤ)
    → (pos_part (wrap64 a) + neg_part a) % 2 ^ 64 ≡ (neg_part (wrap64 a) + pos_part a) % 2 ^ 64
wrap64-parts (pos n) = ground arith
wrap64-parts (negsuc n) = ground arith

wrap64-congruent :
    (a b : ℤ)
    → (pos_part a + neg_part b) % 2 ^ 64 ≡ (neg_part a + pos_part b) % 2 ^ 64
    → wrap64 a ≡ wrap64 b
wrap64-congruent (pos m) (pos n) h = ground arith
wrap64-congruent (pos m) (negsuc n) h = ground arith
wrap64-congruent (negsuc m) (pos n) h = ground arith
wrap64-congruent (negsuc m) (negsuc n) h = ground arith

-- A step of such a loop.
pub add64-wrap64 : (a b : ℤ) → add64 (wrap64 a) b ≡ wrap64 (a +ℤ b)
add64-wrap64 a b =
    let left = +ℤ_parts (wrap64 a) b in
    let right = +ℤ_parts a b in
    let same = wrap64-parts a in wrap64-congruent (wrap64 a +ℤ b) (a +ℤ b) (omega arith)

pub +ℤ_zero : (a : ℤ) → a +ℤ pos 0 ≡ a
+ℤ_zero a = omega int_laws

pub zero_+ℤ : (a : ℤ) → pos 0 +ℤ a ≡ a
zero_+ℤ a = omega int_laws
