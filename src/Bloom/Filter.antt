-- ===== src/Bloom/Filter.antt =====
-- bloom/filter.go: the filter that a light client loads. Locks are left out. The bytes of an outpoint
-- and of a hash come from a library that is not part of the repository and are parameters.
-- A result is `none` where the code panics: at the remainder by a filter of no bits, or at an index
-- out of range.
mod Bits
pub mod Sound
mod Tests
use Prim.Native.Nat.{bit_or}
use elastos_ela_side_chain.Common.{
  ℕ, zero, suc, ◌+◌, ◌-◌, ◌*◌, ◌/◌, ◌%◌, ◌^◌, Bool, true, false, Option, none, some, List, [], ◌∷◌,
  length, get_elem?, set, if◌then◌else◌, ◌==◌, ◌||◌,
}
use elastos_ela_side_chain.Core.{OutPoint, Input, Output, Transaction}
use elastos_ela_side_chain.Bloom.Murmur.{murmur_hash3}

-- `msg.FilterLoad`
pub record FilterLoad : Type 0 where
  pub filter : List ℕ
  pub hash_funcs : ℕ
  pub tweak : ℕ

-- A `Filter` is the message that is loaded, if one is.
abbrev pub Filter : Type 0
Filter = Option FilterLoad

infixl 5 ◌>>=◌
abbrev pub ◌>>=◌ {ℓ κ} : {A : Type ℓ} {B : Type κ} → Option A → (A → Option B) → Option B
none >>= f = none
some a >>= f = f a

-- The number of bits of the filter, a uint32.
abbrev pub bit_count : FilterLoad → ℕ
bit_count msg = length msg.filter * 8 % 2 ^ 32

-- `hash`
unfoldable pub bit_offset : FilterLoad → ℕ → List ℕ → Option ℕ
bit_offset msg hash_num bytes =
    if bit_count msg == 0
    then none
    else some (murmur_hash3 ((hash_num * 0xfba4c795 + msg.tweak) % 2 ^ 32) bytes % bit_count msg)

-- `Filter[idx>>3] & (1<<(idx&7)) != 0`
unfoldable pub test_bit : List ℕ → ℕ → Option Bool
test_bit filter idx = do byte ← get_elem? filter (idx / 8); some (byte / 2 ^ (idx % 8) % 2 == 1)

-- `Filter[idx>>3] |= 1 << (7 & idx)`
unfoldable pub set_bit : List ℕ → ℕ → Option (List ℕ)
set_bit filter idx = do
  byte ← get_elem? filter (idx / 8)
  some (set filter (idx / 8) (bit_or byte (2 ^ (idx % 8))))

-- The loop of `matches`, from a hash number on for the rounds that are left.
unfoldable pub matches_from : ℕ → ℕ → FilterLoad → List ℕ → Option Bool
matches_from zero i msg bytes = some true
matches_from (suc rounds) i msg bytes =
    let rest = matches_from rounds (i + 1) msg bytes in
    do
      idx ← bit_offset msg i bytes
      found ← test_bit msg.filter idx
      if found then rest else some false

-- `matches`
unfoldable pub matches : Filter → List ℕ → Option Bool
matches none bytes = some false
matches (some msg) bytes = matches_from msg.hash_funcs 0 msg bytes

-- The loop of `add`.
unfoldable pub add_from : ℕ → ℕ → FilterLoad → List ℕ → Option FilterLoad
add_from zero i msg bytes = some msg
add_from (suc rounds) i msg bytes = do
  idx ← bit_offset msg i bytes
  filter ← set_bit msg.filter idx
  add_from rounds (i + 1) (record msg { filter = filter }) bytes

-- `add`
unfoldable pub add : Filter → List ℕ → Option Filter
add none bytes = some none
add (some msg) bytes = do loaded ← add_from msg.hash_funcs 0 msg bytes; some (some loaded)

module _ (hash_bytes : ℕ → List ℕ) (outpoint_bytes : OutPoint → List ℕ) where
  -- The loop of `matchTxAndUpdate` over the outputs, from an index on: an output that matches has
  -- its outpoint added.
  unfoldable pub match_outputs : ℕ → ℕ → List Output → Bool → Filter → Option (Bool × Filter)
  match_outputs hash i [] matched bf = some (matched, bf)
  match_outputs hash i (output ∷ outputs) matched bf = do
    found ← matches bf output.program_hash
    bf' ←
        if found
        then add bf (outpoint_bytes (record { tx_id = hash; index = i % 2 ^ 16 }))
        else some bf
    match_outputs hash (i + 1) outputs (matched || found) bf'

  -- The loop over the inputs.
  unfoldable pub match_inputs : List Input → Filter → Option Bool
  match_inputs [] bf = some false
  match_inputs (input ∷ inputs) bf =
      let rest = match_inputs inputs bf in
      do found ← matches bf (outpoint_bytes input.previous); if found then some true else rest

  -- `matchTxAndUpdate`
  unfoldable pub match_tx_and_update : Transaction → Filter → Option (Bool × Filter)
  unfolding match_outputs match_inputs
  match_tx_and_update tx bf = do
    by_hash ← matches bf (hash_bytes tx.hash)
    (matched, bf') ← match_outputs tx.hash 0 tx.outputs by_hash bf
    if matched
        then some (true, bf')
        else (do spends ← match_inputs tx.inputs bf'; some (spends, bf'))
