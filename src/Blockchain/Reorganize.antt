-- ===== src/Blockchain/Reorganize.antt =====
-- blockchain/blockchain.go: `GetReorganizeNodes`, `ReorganizeChain`, `DisconnectBlock` and
-- `ConnectBlock`. The nodes that the `Parent` pointers lead to are a list, and the mark `InMainChain` of
-- a node is kept by its hash. The store, its operations and `CheckTransactionContext` on it are
-- parameters, and so is the parent of a node that is the last in memory (`GetPrevNodeFromNode`).
pub mod Nodes
pub mod Chain
mod Tests
use elastos_ela_side_chain.Common.{
  ℕ, Bool, true, false, not, Option, none, some, List, [], ◌∷◌, ◌++◌, map, ◌==◌, if◌then◌else◌,
}
use elastos_ela_side_chain.Common.Int.{ℤ}
use elastos_ela_side_chain.Common.Result.{Result, ok, err, ◌>>=◌, ◌>>◌, fail_if, or_panic}
use elastos_ela_side_chain.Common.Table.{Table, lookup, insert, erase}
use elastos_ela_side_chain.Core.{Transaction}
use elastos_ela_side_chain.Blockchain.Retarget.{BlockNode}
use elastos_ela_side_chain.Blockchain.BlockValidator.{calc_past_median_time}

-- A `BlockNode` with its hash and its parent's.
pub record ChainNode : Type 0 where
  pub hash : ℕ
  pub parent_hash : ℕ
  pub node : BlockNode

-- A block of a side chain.
pub record SideBlock : Type 0 where
  pub previous : ℕ
  pub transactions : List Transaction

-- The fields of `Blockchain` that hold the tree, with the marks of the nodes and the store. No best
-- chain is the empty list.
pub record ChainState {ℓ} (S : Type ℓ) : Type ℓ where
  pub best_chain : List ChainNode
  pub in_main_chain : ℕ → Bool
  pub index : Table ChainNode
  pub dep_nodes : Table (List ChainNode)
  pub block_cache : Table SideBlock
  pub median_time_past : ℤ
  pub store : S

pub data ChainError : Type 0 where
  missing_block not_in_store not_at_end not_extending no_parent rejected_transaction : ChainError

-- The loop to the fork point: the nodes that are passed stand in front of those before.
unfoldable pub find_fork :
    (ℕ → Bool) → List ChainNode → ChainNode → List ChainNode → ChainNode × List ChainNode
find_fork in_main_chain [] ancestor attach_nodes = (ancestor, attach_nodes)
find_fork in_main_chain (parent ∷ parents) ancestor attach_nodes =
    let rest = find_fork in_main_chain parents parent (ancestor ∷ attach_nodes) in
    if in_main_chain ancestor.hash then (ancestor, attach_nodes) else rest

-- The loop from the end of the main chain back to the fork point.
unfoldable pub find_detached : ChainNode → List ChainNode → List ChainNode
find_detached ancestor [] = []
find_detached ancestor (n ∷ []) = []
find_detached ancestor (n ∷ parent ∷ parents) =
    let rest = find_detached ancestor (parent ∷ parents) in
    if n.hash == ancestor.hash then [] else n ∷ rest

-- `GetReorganizeNodes`, on a node and its ancestors: what is detached and what is attached.
unfoldable pub get_reorganize_nodes :
    (ℕ → Bool) → List ChainNode → ChainNode → List ChainNode → List ChainNode × List ChainNode
get_reorganize_nodes in_main_chain best_chain node parents =
    let (ancestor, attach_nodes) = find_fork in_main_chain parents node [] in
    (find_detached ancestor best_chain, attach_nodes)

-- The mark of a node.
abbrev pub mark : ℕ → Bool → (ℕ → Bool) → (ℕ → Bool)
mark hash value in_main_chain h = if hash == h then value else in_main_chain h

abbrev pub nodes_of : Option (List ChainNode) → List ChainNode
nodes_of none = []
nodes_of (some nodes) = nodes

module _ {ℓ} {S : Type ℓ} (get_block : S → ℕ → Option SideBlock) (rollback_block : ℕ → S → S)
    (save_block : ChainNode → SideBlock → S → S) (passes_context : S → Transaction → Bool)
    (load_parent : S → ChainNode → Option (List ChainNode)) where
  -- The parents of the node that is disconnected.
  abbrev pub prev_node : S → ChainNode → List ChainNode → Result ChainError (List ChainNode)
  prev_node store node [] = elim (load_parent store node) [
    | none ↦ err no_parent
    | some parents ↦ ok parents
  ]
  prev_node store node (parent ∷ parents) = ok (parent ∷ parents)

  -- `DisconnectBlock`
  unfoldable pub disconnect_block :
      ChainNode → SideBlock → ChainState S → Result ChainError (ChainState S)
  disconnect_block node block state = elim state.best_chain [
    | [] ↦ err not_at_end
    | best ∷ parents ↦
        fail_if (not (node.hash == best.hash)) not_at_end
        >> (prev_node state.store node parents >>= λ rest.
            or_panic (calc_past_median_time (map (λ (n : ChainNode). n.node) rest)) >>= λ median.
            ok (record state {
              store = rollback_block node.hash state.store;
              in_main_chain = mark node.hash false state.in_main_chain;
              block_cache = insert node.hash block state.block_cache;
              best_chain = rest;
              median_time_past = median;
            }))
  ]

  abbrev pub all_pass : S → List Transaction → Bool
  all_pass store [] = true
  all_pass store (tx ∷ txs) = if passes_context store tx then all_pass store txs else false

  -- The block comes after the end of the best chain, if there is one.
  abbrev pub is_extending : ℕ → List ChainNode → Bool
  is_extending previous [] = true
  is_extending previous (best ∷ parents) = previous == best.hash

  -- `ConnectBlock`; the parents of the node are those it has.
  unfoldable pub connect_block :
      ChainNode → List ChainNode → SideBlock → ChainState S → Result ChainError (ChainState S)
  connect_block node parents block state =
      fail_if (not (all_pass state.store block.transactions)) rejected_transaction
      >> (fail_if (not (is_extending block.previous state.best_chain)) not_extending
          >> (or_panic (calc_past_median_time (map (λ (n : ChainNode). n.node) (node ∷ parents)))
              >>= λ median. ok (record state {
                store = save_block node block state.store;
                in_main_chain = mark node.hash true state.in_main_chain;
                index = insert node.hash node state.index;
                dep_nodes =
                    insert block.previous
                      (nodes_of (lookup block.previous state.dep_nodes) ++ (node ∷ []))
                      state.dep_nodes;
                best_chain = node ∷ parents;
                median_time_past = median;
              })))

  -- The check that every block to attach is in the cache.
  abbrev pub are_cached : Table SideBlock → List ChainNode → Bool
  are_cached block_cache [] = true
  are_cached block_cache (n ∷ nodes) = elim (lookup n.hash block_cache) [
    | none ↦ false
    | some _ ↦ are_cached block_cache nodes
  ]

  -- The loop that disconnects.
  unfoldable pub disconnect_blocks :
      List ChainNode → ChainState S → Result ChainError (ChainState S)
  disconnect_blocks [] state = ok state
  disconnect_blocks (n ∷ nodes) state = elim (get_block state.store n.hash) [
    | none ↦ err not_in_store
    | some block ↦ disconnect_block n block state >>= λ left. disconnect_blocks nodes left
  ]

  -- The loop that connects; each node's parents are those of the fork point and the nodes before it.
  unfoldable pub connect_blocks :
      List ChainNode → List ChainNode → ChainState S → Result ChainError (ChainState S)
  connect_blocks parents [] state = ok state
  connect_blocks parents (n ∷ nodes) state = or_panic (lookup n.hash state.block_cache) >>= λ block.
      connect_block n parents block state >>= λ grown.
      connect_blocks (n ∷ parents) nodes
        (record grown { block_cache = erase n.hash grown.block_cache })

  -- `ReorganizeChain`, with the nodes from the fork point back.
  unfoldable pub reorganize_chain :
      List ChainNode
      → List ChainNode
      → List ChainNode
      → ChainState S
      → Result ChainError (ChainState S)
  reorganize_chain fork_chain detach_nodes attach_nodes state =
      fail_if (not (are_cached state.block_cache attach_nodes)) missing_block
      >> (disconnect_blocks detach_nodes state >>= λ left.
          connect_blocks fork_chain attach_nodes left)
