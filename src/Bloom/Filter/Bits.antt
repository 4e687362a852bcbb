-- ===== src/Bloom/Filter/Bits.antt =====
-- The bits of the filter of bloom/filter.go: setting one sets it and clears none.
use Prim.Native.Nat.{bit_or, max}
use native.Mathlib.Nat.{div-div-eq-div-mul, pow-succ'}
use mathlib.Core.Option.{some-injective}
use elastos_ela_side_chain.Common.{
  ℕ, zero, suc, ◌*◌, ◌/◌, ◌%◌, ◌^◌, ◌<◌, ◌≡◌, refl, sym, ◌∙◌, ap, true, Option, none, some, List,
  length, get_elem?, set, ◌==◌, ==_iff, arith, length-set, get_elem?-set_self, get_elem?-lt,
  get_elem?-total, Bool, get_elem?-set_ne, ℕ_discrete,
}
use elastos_ela_side_chain.Common.Bits.{bit_or_step}
use elastos_ela_side_chain.Bloom.Filter.{test_bit, set_bit, ◌>>=◌}

-- Inversion of a chain that does not panic.
pub >>=-eq-some {ℓ κ} :
    {A : Type ℓ} {B : Type κ} (m : Option A) (f : A → Option B) {b : B}
    → (m >>= f) ≡ some b
    → (a : A) × (m ≡ some a) × (f a ≡ some b)
>>=-eq-some none f e = cc
>>=-eq-some (some a) f e = (a, refl, e)

-- A bit of a join is set where one of the two is.
bit_or-bit : (k a b : ℕ) → bit_or a b / 2 ^ k % 2 ≡ max (a / 2 ^ k % 2) (b / 2 ^ k % 2)
bit_or-bit zero a b = omega (arith, bit_or_step a b)
bit_or-bit (suc k) a b =
    let half : bit_or a b / 2 ≡ bit_or (a / 2) (b / 2) = omega (arith, bit_or_step a b) in
    rw
      (
        pow-succ' 2 k,
        ← div-div-eq-div-mul (bit_or a b) 2 (2 ^ k),
        ← div-div-eq-div-mul a 2 (2 ^ k),
        ← div-div-eq-div-mul b 2 (2 ^ k),
        half,
      )
      (bit_or-bit k (a / 2) (b / 2))

max_one : (n : ℕ) → max (n % 2) 1 ≡ 1
max_one n = omega arith

double_half : (n : ℕ) → 2 * n / 2 ≡ n
double_half n = omega arith

power-bit : (k : ℕ) → 2 ^ k / 2 ^ k % 2 ≡ 1
power-bit zero = refl
power-bit (suc k) =
    rw (pow-succ' 2 k, ← div-div-eq-div-mul (2 * 2 ^ k) 2 (2 ^ k), double_half (2 ^ k))
      (power-bit k)

bit_or-keeps : (k a b : ℕ) → a / 2 ^ k % 2 ≡ 1 → bit_or a b / 2 ^ k % 2 ≡ 1
bit_or-keeps k a b h = omega (arith, bit_or-bit k a b)

-- A write that sets a bit reads the byte first.
set_bit-inv :
    (filter : List ℕ) (idx : ℕ) {filter' : List ℕ}
    → set_bit filter idx ≡ some filter'
    → (byte : ℕ) × (get_elem? filter (idx / 8) ≡ some byte)
      × (filter' ≡ set filter (idx / 8) (bit_or byte (2 ^ (idx % 8))))
unfolding set_bit
set_bit-inv filter idx e =
    let (byte, read, written) = >>=-eq-some (get_elem? filter (idx / 8)) _ e in
    (byte, read, sym (some-injective _ _ written))

test_bit-inv :
    (filter : List ℕ) (idx : ℕ) {b : Bool}
    → test_bit filter idx ≡ some b
    → (byte : ℕ) × (get_elem? filter (idx / 8) ≡ some byte) × ((byte / 2 ^ (idx % 8) % 2 == 1) ≡ b)
unfolding test_bit
test_bit-inv filter idx e =
    let (byte, read, tested) = >>=-eq-some (get_elem? filter (idx / 8)) _ e in
    (byte, read, some-injective _ _ tested)

test_bit-set :
    (filter : List ℕ) (idx : ℕ) {byte : ℕ}
    → get_elem? filter (idx / 8) ≡ some byte
    → byte / 2 ^ (idx % 8) % 2 ≡ 1
    → test_bit filter idx ≡ some true
unfolding test_bit
test_bit-set filter idx read e = rw (read, e) refl

module _ (filter : List ℕ) (idx : ℕ) {filter' : List ℕ}
    (e : set_bit filter idx ≡ some filter') where
  pub set_bit-length : length filter' ≡ length filter
  set_bit-length =
      let (byte, read, written) = set_bit-inv filter idx e in
      rw written (length-set filter (idx / 8) _)

  pub set_bit-test_bit : test_bit filter' idx ≡ some true
  set_bit-test_bit =
      let (byte, read, written) = set_bit-inv filter idx e in
      rw written (
        test_bit-set _ idx
          (get_elem?-set_self filter (idx / 8) _ (get_elem?-lt filter (idx / 8) read))
          (rw (bit_or-bit (idx % 8) byte (2 ^ (idx % 8)), power-bit (idx % 8))
            (max_one (byte / 2 ^ (idx % 8)))))

  pub set_bit-keeps : (j : ℕ) → test_bit filter j ≡ some true → test_bit filter' j ≡ some true
  set_bit-keeps j h =
      let (byte, read, written) = set_bit-inv filter idx e in
      let (byte_j, read_j, tested) = test_bit-inv filter j h in
      let is_set : byte_j / 2 ^ (j % 8) % 2 ≡ 1 = (==_iff _ _).0 tested in
      rw written (elim (ℕ_discrete (idx / 8) (j / 8)) [
        | yes same ↦
            test_bit-set _ j
              (ap (get_elem? (set filter (idx / 8) (bit_or byte (2 ^ (idx % 8))))) (sym same)
                ∙ get_elem?-set_self filter (idx / 8) _ (get_elem?-lt filter (idx / 8) read))
              (let agree : byte_j ≡ byte =
                  some-injective _ _ (sym read_j ∙ ap (get_elem? filter) (sym same) ∙ read) in
                bit_or-keeps (j % 8) byte (2 ^ (idx % 8)) (rw (← agree) is_set))
        | no other ↦ test_bit-set _ j (get_elem?-set_ne filter _ other ∙ read_j) is_set
      ])

pub set_bit-total :
    (filter : List ℕ) (idx : ℕ)
    → idx / 8 < length filter
    → (filter' : List ℕ) × (set_bit filter idx ≡ some filter')
unfolding set_bit
set_bit-total filter idx h =
    let (byte, read) = get_elem?-total filter (idx / 8) h in
    (set filter (idx / 8) (bit_or byte (2 ^ (idx % 8))), rw read refl)

pub test_bit-total :
    (filter : List ℕ) (idx : ℕ)
    → idx / 8 < length filter
    → (b : Bool) × (test_bit filter idx ≡ some b)
unfolding test_bit
test_bit-total filter idx h =
    let (byte, read) = get_elem?-total filter (idx / 8) h in
    (byte / 2 ^ (idx % 8) % 2 == 1, rw read refl)
