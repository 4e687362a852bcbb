-- ===== src/Bloom/Filter/Tests.antt =====
-- Runs of the bloom filter, and the theorems at a concrete filter.
use elastos_ela_side_chain.Common.{
  ℕ, ◌%◌, ◌≡◌, ◌⊎◌, refl, true, false, Bool, some, none, List, [], ◌∷◌, length, arith,
}
use elastos_ela_side_chain.Common.Int.{pos}
use elastos_ela_side_chain.Core.{OutPoint, Output, Transaction, transfer_asset, other_payload}
use elastos_ela_side_chain.Bloom.Murmur.{murmur_hash3, mix_bytes}
use elastos_ela_side_chain.Bloom.Filter.{
  FilterLoad, bit_offset, test_bit, set_bit, matches_from, matches, add_from, add,
  match_tx_and_update,
}
use elastos_ela_side_chain.Bloom.Filter.Sound.{add-matches}
use elastos_ela_side_chain.Bloom.Filter.Sound.Transaction.{
  match_tx_and_update-outpoint, match_tx_and_update-keeps,
}

-- Two bytes, three hash functions.
abbrev blank : FilterLoad
blank = record { filter = 0 ∷ 0 ∷ []; hash_funcs = 3; tweak = 5 }

abbrev loaded : FilterLoad
loaded = record { filter = 255 ∷ 255 ∷ []; hash_funcs = 3; tweak = 5 }

-- Nothing matches the blank filter, and what was added matches.
matches-blank : matches (some blank) (1 ∷ 2 ∷ []) ≡ some false
unfolding matches matches_from bit_offset test_bit murmur_hash3 mix_bytes
matches-blank = refl

matches-loaded : matches (some loaded) (1 ∷ 2 ∷ []) ≡ some true
unfolding matches matches_from bit_offset test_bit murmur_hash3 mix_bytes
matches-loaded = refl

abbrev hash_bytes : ℕ → List ℕ
hash_bytes hash = hash % 256 ∷ []

abbrev outpoint_bytes : OutPoint → List ℕ
outpoint_bytes point = point.tx_id % 256 ∷ point.index % 256 ∷ []

abbrev output : Output
output = record { asset_id = 0; value = pos 7; output_lock = 0; program_hash = 1 ∷ 2 ∷ [] }

abbrev tx : Transaction
tx = record {
  hash = 9;
  tx_type = transfer_asset;
  payload = other_payload;
  inputs = [];
  outputs = output ∷ [];
  lock_time = 0;
  attributes = [];
  programs = [];
}

-- A filter of no bytes: the remainder by zero bits panics.
matches-no_bytes :
    matches (some (record { filter = []; hash_funcs = 1; tweak = 5 })) (1 ∷ []) ≡ none
unfolding matches matches_from bit_offset
matches-no_bytes = refl

add-matches_example :
    (msg' : FilterLoad) × (add (some blank) (1 ∷ 2 ∷ []) ≡ some (some msg'))
    × (length msg'.filter ≡ 2)
    × (matches (some msg') (1 ∷ 2 ∷ []) ≡ some true)
add-matches_example = add-matches blank (1 ∷ 2 ∷ []) (omega arith) (omega arith)

add-loaded : add (some loaded) (3 ∷ []) ≡ some (some loaded)
unfolding add add_from bit_offset set_bit murmur_hash3 mix_bytes
add-loaded = refl

match_tx_and_update-outpoint_example :
    (msg' : FilterLoad) × (match_tx_and_update hash_bytes outpoint_bytes tx (some loaded)
      ≡ some (true, some msg'))
    × (matches (some msg') (outpoint_bytes (record { tx_id = 9; index = 0 })) ≡ some true)
match_tx_and_update-outpoint_example =
    match_tx_and_update-outpoint hash_bytes outpoint_bytes tx loaded 0 output
      (omega arith, omega arith) refl matches-loaded

match_tx_and_update-keeps_example :
    (before : Bool) × (matched : Bool) × (msg' : FilterLoad) × (matches (some blank) (4 ∷ [])
      ≡ some before)
    × (match_tx_and_update hash_bytes outpoint_bytes tx (some blank) ≡ some (matched, some msg'))
    × ((before ≡ false) ⊎ (matches (some msg') (4 ∷ []) ≡ some true))
match_tx_and_update-keeps_example =
    match_tx_and_update-keeps hash_bytes outpoint_bytes tx blank (4 ∷ []) (omega arith, omega arith)
