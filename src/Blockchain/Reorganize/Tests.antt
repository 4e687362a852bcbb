-- ===== src/Blockchain/Reorganize/Tests.antt =====
-- A reorganization by one block of a chain of two.
use elastos_ela_side_chain.Common.{
  ℕ, ◌+◌, ◌-◌, ◌≡◌, refl, inl, Bool, true, false, Option, none, some, List, [], ◌∷◌, ◌==◌, ◌||◌,
  if◌then◌else◌, arith,
}
use elastos_ela_side_chain.Common.Int.{pos}
use elastos_ela_side_chain.Common.Result.{ok}
use elastos_ela_side_chain.Common.Table.{lookup, insert, erase}
use elastos_ela_side_chain.Core.{Transaction}
use elastos_ela_side_chain.Blockchain.BlockValidator.{calc_past_median_time}
use elastos_ela_side_chain.Blockchain.Reorganize.{
  ChainNode, SideBlock, ChainState, mark, find_fork, find_detached, get_reorganize_nodes,
  disconnect_block, connect_block, disconnect_blocks, connect_blocks, reorganize_chain,
}
use elastos_ela_side_chain.Blockchain.Reorganize.Chain.{
  is_in, reorganize_chain-get_reorganize_nodes,
}

abbrev node_of : ℕ → ℕ → ℕ → ChainNode
node_of hash parent height = record {
  hash = hash;
  parent_hash = parent;
  node = record { height = height; bits = 0; timestamp = 1000 + height };
}

-- The store counts the blocks that it holds, and finds every one.
abbrev find_block : ℕ → ℕ → Option SideBlock
find_block store hash = some (record { previous = 1; transactions = [] })

abbrev rolled_back : ℕ → ℕ → ℕ
rolled_back hash store = store - 1

abbrev saved : ChainNode → SideBlock → ℕ → ℕ
saved node block store = store + 1

abbrev every_one : ℕ → Transaction → Bool
every_one store tx = true

abbrev no_parent_loaded : ℕ → ChainNode → Option (List ChainNode)
no_parent_loaded store node = none

-- The blocks 1 and 2 are the best chain; the blocks 3 and 4 leave it at 1.
abbrev forked : ChainState ℕ
forked = record {
  best_chain = node_of 2 1 1 ∷ node_of 1 0 0 ∷ [];
  in_main_chain = λ h. (h == 1) || (h == 2);
  index = [];
  dep_nodes = [];
  block_cache =
      (3, record { previous = 1; transactions = [] })
      ∷ (4, record { previous = 3; transactions = [] })
      ∷ [];
  median_time_past = pos 1000;
  store = 2;
}

abbrev block_one : SideBlock
block_one = record { previous = 1; transactions = [] }

abbrev reorganized : ChainState ℕ
reorganized = record {
  best_chain = node_of 4 3 2 ∷ node_of 3 1 1 ∷ node_of 1 0 0 ∷ [];
  in_main_chain = mark 4 true (mark 3 true (mark 2 false (λ h. (h == 1) || (h == 2))));
  index = (4, node_of 4 3 2) ∷ (3, node_of 3 1 1) ∷ [];
  dep_nodes = (3, node_of 4 3 2 ∷ []) ∷ (1, node_of 3 1 1 ∷ []) ∷ [];
  block_cache = (2, block_one) ∷ [];
  median_time_past = pos 1001;
  store = 3;
}

forked_nodes :
    get_reorganize_nodes forked.in_main_chain forked.best_chain
      (node_of 4 3 2)
      (node_of 3 1 1 ∷ node_of 1 0 0 ∷ [])
    ≡ (node_of 2 1 1 ∷ [], node_of 3 1 1 ∷ node_of 4 3 2 ∷ [])
unfolding get_reorganize_nodes find_fork find_detached
forked_nodes = refl

forked_reorganizes :
    reorganize_chain find_block rolled_back saved every_one no_parent_loaded
      (node_of 1 0 0 ∷ [])
      (node_of 2 1 1 ∷ [])
      (node_of 3 1 1 ∷ node_of 4 3 2 ∷ [])
      forked
    ≡ ok reorganized
unfolding reorganize_chain disconnect_blocks connect_blocks disconnect_block connect_block
    calc_past_median_time lookup insert erase
forked_reorganizes = refl

reorganize_chain-get_reorganize_nodes_example :
    (reorganized.best_chain ≡ node_of 4 3 2 ∷ node_of 3 1 1 ∷ node_of 1 0 0 ∷ [])
    × ((h : ℕ)
        → reorganized.in_main_chain h ≡ (
            if is_in h (node_of 4 3 2 ∷ node_of 3 1 1 ∷ [])
            then true
            else if is_in h (node_of 2 1 1 ∷ [])
            then false
            else forked.in_main_chain h))
reorganize_chain-get_reorganize_nodes_example =
    reorganize_chain-get_reorganize_nodes find_block rolled_back saved every_one no_parent_loaded
      (node_of 1 0 0) (node_of 4 3 2) [] (node_of 2 1 1 ∷ []) (node_of 3 1 1 ∷ [])
      (node_of 2 1 1 ∷ []) (node_of 3 1 1 ∷ node_of 4 3 2 ∷ []) forked {after = reorganized} refl
      (inl refl) (refl, (refl, tt)) (omega arith, tt) forked_nodes forked_reorganizes
