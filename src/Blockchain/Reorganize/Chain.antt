-- ===== src/Blockchain/Reorganize/Chain.antt =====
-- blockchain/blockchain.go: what `ReorganizeChain` makes of the best chain and of the marks.
use elastos_ela_side_chain.Common.{
  ℕ, ◌≡◌, ◌≢◌, refl, sym, subst, ◌∙◌, ap, Bool, true, false, not, ◌||◌, ◌⊎◌, Option, none, some,
  List, [], ◌∷◌, ◌++◌, map, ◌==◌, if◌then◌else◌, All,
}
use elastos_ela_side_chain.Common.Result.{
  ok, err, ◌>>=◌, ◌>>◌, fail_if, or_panic, >>=-ok, ok-injective,
}
use elastos_ela_side_chain.Common.Table.{lookup, insert, erase}
use elastos_ela_side_chain.Core.{Transaction}
use elastos_ela_side_chain.Blockchain.BlockValidator.{calc_past_median_time}
use elastos_ela_side_chain.Blockchain.Reorganize.{
  ChainNode, SideBlock, ChainState, missing_block, not_in_store, not_at_end, not_extending,
  rejected_transaction, get_reorganize_nodes, mark, prev_node, disconnect_block, all_pass,
  is_extending, connect_block, are_cached, disconnect_blocks, connect_blocks, reorganize_chain,
}
use elastos_ela_side_chain.Blockchain.Reorganize.Nodes.{
  push_all, push_all-push_all, get_reorganize_nodes-lem,
}

abbrev pub is_in : ℕ → List ChainNode → Bool
is_in h [] = false
is_in h (n ∷ nodes) = (n.hash == h) || is_in h nodes

mark_again :
    (a b value old : Bool)
    → (if b then value else if a then value else old) ≡ (if a || b then value else old)
mark_again true true value old = refl
mark_again true false value old = refl
mark_again false b value old = refl

is_in-push_all :
    (h : ℕ) (xs acc : List ChainNode) → is_in h (push_all xs acc) ≡ (is_in h xs || is_in h acc)
is_in-push_all h [] acc = refl
is_in-push_all h (x ∷ xs) acc =
    is_in-push_all h xs (x ∷ acc) ∙ swap (is_in h xs) (x.hash == h) (is_in h acc)
  where
    swap : (a b c : Bool) → (a || (b || c)) ≡ ((b || a) || c)
    swap true true c = refl
    swap true false c = refl
    swap false true c = refl
    swap false false c = refl

module _ {ℓ} {S : Type ℓ} (get_block : S → ℕ → Option SideBlock) (rollback_block : ℕ → S → S)
    (save_block : ChainNode → SideBlock → S → S) (passes_context : S → Transaction → Bool)
    (load_parent : S → ChainNode → Option (List ChainNode)) where
  -- A state with a best chain, and with the marks of some nodes set over those of a state before.
  record Moved (before after : ChainState S) (chain nodes : List ChainNode) (value : Bool)
      : Type ℓ where
    best : after.best_chain ≡ chain
    marked :
        (h : ℕ) → after.in_main_chain h ≡ (if is_in h nodes then value else before.in_main_chain h)

  prev_node-append :
      (store : S) (node fork : ChainNode) (ds common : List ChainNode)
      → prev_node get_block rollback_block save_block passes_context load_parent store node
          (ds ++ (fork ∷ common))
        ≡ ok (ds ++ (fork ∷ common))
  prev_node-append store node fork [] common = refl
  prev_node-append store node fork (d ∷ ds) common = refl

  disconnect_block-Moved :
      (node fork : ChainNode) (block : SideBlock) (ds common : List ChainNode)
      (state : ChainState S) {left : ChainState S}
      → state.best_chain ≡ node ∷ (ds ++ (fork ∷ common))
      → disconnect_block get_block rollback_block save_block passes_context load_parent node block
          state
        ≡ ok left
      → Moved state left (ds ++ (fork ∷ common)) (node ∷ []) false
  unfolding disconnect_block
  disconnect_block-Moved node fork block ds common state {left} best e = go state.best_chain best e
    where
      one : (t old : Bool) → (if t then false else old) ≡ (if t || false then false else old)
      one true old = refl
      one false old = refl

      go :
          (chain : List ChainNode)
          → chain ≡ node ∷ (ds ++ (fork ∷ common))
          → (elim chain [
            | [] ↦ err not_at_end
            | best ∷ parents ↦
                fail_if (not (node.hash == best.hash)) not_at_end
                >> (prev_node get_block rollback_block save_block passes_context load_parent
                      state.store node parents
                    >>= λ rest.
                        or_panic (calc_past_median_time (map (λ (n : ChainNode). n.node) rest))
                        >>= λ median. ok (record state {
                          store = rollback_block node.hash state.store;
                          in_main_chain = mark node.hash false state.in_main_chain;
                          block_cache = insert node.hash block state.block_cache;
                          best_chain = rest;
                          median_time_past = median;
                        }))
          ])
            ≡ ok left
          → Moved state left (ds ++ (fork ∷ common)) (node ∷ []) false
      go [] f h = cc
      go (best ∷ parents) f h =
          let (_, _, e1) = >>=-ok (fail_if (not (node.hash == best.hash)) not_at_end) _ h in
          let (rest, prev, e2) =
            >>=-ok
              (prev_node get_block rollback_block save_block passes_context load_parent state.store
                node parents)
              _ e1 in
          let (median, _, e3) =
            >>=-ok (or_panic (calc_past_median_time (map (λ (n : ChainNode). n.node) rest))) _ e2 in
          let behind : parents ≡ ds ++ (fork ∷ common) = cc f in
          let same : rest ≡ ds ++ (fork ∷ common) = ok-injective (
            sym prev
            ∙ ap
                (prev_node get_block rollback_block save_block passes_context load_parent
                  state.store node)
                behind
            ∙ prev_node-append state.store node fork ds common) in
          subst (λ l. Moved state l (ds ++ (fork ∷ common)) (node ∷ []) false) (ok-injective e3)
            (record { best = same; marked = λ h. one (node.hash == h) (state.in_main_chain h) })

  Moved-then :
      (a b c : ChainState S) (chain chain' nodes' : List ChainNode) (node : ChainNode)
      (value : Bool)
      → Moved a b chain (node ∷ []) value
      → Moved b c chain' nodes' value
      → Moved a c chain' (node ∷ nodes') value
  Moved-then a b c chain chain' nodes' node value first rest = record {
    best = rest.best;
    marked = λ h.
        rest.marked h
        ∙ ap (λ old. if is_in h nodes' then value else old) (first.marked h)
        ∙ both (node.hash == h) (is_in h nodes') (a.in_main_chain h);
  }
    where
      both :
          (t u old : Bool)
          → (if u then value else if t || false then value else old)
            ≡ (if t || u then value else old)
      both true true old = refl
      both true false old = refl
      both false u old = refl

  disconnect_blocks-Moved :
      (fork : ChainNode) (common detached : List ChainNode) (state : ChainState S)
      {left : ChainState S}
      → state.best_chain ≡ detached ++ (fork ∷ common)
      → disconnect_blocks get_block rollback_block save_block passes_context load_parent detached
          state
        ≡ ok left
      → Moved state left (fork ∷ common) detached false
  unfolding disconnect_blocks
  disconnect_blocks-Moved fork common [] state {left} best e =
      subst (λ l. Moved state l (fork ∷ common) [] false) (ok-injective e)
        (record { best = best; marked = λ h. refl })
  disconnect_blocks-Moved fork common (n ∷ detached) state {left} best e =
      go (get_block state.store n.hash) e
        (λ next b h. disconnect_blocks-Moved fork common detached next {left = left} b h)
    where
      go :
          (found : Option SideBlock)
          → (elim found [
            | none ↦ err not_in_store
            | some block ↦
                disconnect_block get_block rollback_block save_block passes_context load_parent n
                  block state
                >>= λ next.
                    disconnect_blocks get_block rollback_block save_block passes_context load_parent
                      detached next
          ])
            ≡ ok left
          → ((next : ChainState S)
              → next.best_chain ≡ detached ++ (fork ∷ common)
              → disconnect_blocks get_block rollback_block save_block passes_context load_parent
                  detached next
                ≡ ok left
              → Moved next left (fork ∷ common) detached false)
          → Moved state left (fork ∷ common) (n ∷ detached) false
      go none h ih = cc
      go (some block) h ih =
          let (next, out, rest) =
            >>=-ok
              (disconnect_block get_block rollback_block save_block passes_context load_parent n
                block state)
              _ h in
          let moved =
            disconnect_block-Moved n fork block detached common state {left = next} best out in
          Moved-then state next left (detached ++ (fork ∷ common)) (fork ∷ common) detached n false
            moved (ih next moved.best rest)

  connect_block-Moved :
      (node : ChainNode) (parents : List ChainNode) (block : SideBlock) (state : ChainState S)
      {grown : ChainState S}
      → connect_block get_block rollback_block save_block passes_context load_parent node parents
          block state
        ≡ ok grown
      → Moved state grown (node ∷ parents) (node ∷ []) true
  unfolding connect_block
  connect_block-Moved node parents block state {grown} e =
      let (_, _, e1) =
        >>=-ok
          (fail_if
            (not (
              all_pass get_block rollback_block save_block passes_context load_parent state.store
                block.transactions))
            rejected_transaction)
          _ e in
      let (_, _, e2) =
        >>=-ok
          (fail_if
            (not (
              is_extending get_block rollback_block save_block passes_context load_parent
                block.previous state.best_chain))
            not_extending)
          _ e1 in
      let (median, _, e3) =
        >>=-ok (or_panic (calc_past_median_time (map (λ (n : ChainNode). n.node) (node ∷ parents))))
          _ e2 in
      subst (λ g. Moved state g (node ∷ parents) (node ∷ []) true) (ok-injective e3)
        (record { best = refl; marked = λ h. one (node.hash == h) (state.in_main_chain h) })
    where
      one : (t old : Bool) → (if t then true else old) ≡ (if t || false then true else old)
      one true old = refl
      one false old = refl

  connect_blocks-Moved :
      (parents nodes : List ChainNode) (state : ChainState S) {grown : ChainState S}
      → state.best_chain ≡ parents
      → connect_blocks get_block rollback_block save_block passes_context load_parent parents nodes
          state
        ≡ ok grown
      → Moved state grown (push_all nodes parents) nodes true
  unfolding connect_blocks
  connect_blocks-Moved parents [] state best e =
      subst (λ g. Moved state g parents [] true) (ok-injective e)
        (record { best = best; marked = λ h. refl })
  connect_blocks-Moved parents (n ∷ nodes) state {grown} best e =
      let (block, _, e1) = >>=-ok (or_panic (lookup n.hash state.block_cache)) _ e in
      let (next, on, rest) =
        >>=-ok
          (connect_block get_block rollback_block save_block passes_context load_parent n parents
            block state)
          _ e1 in
      let moved = connect_block-Moved n parents block state {grown = next} on in
      let cleared : ChainState S = record next { block_cache = erase n.hash next.block_cache } in
      let first : Moved state cleared (n ∷ parents) (n ∷ []) true = record {
        best = moved.best;
        marked = moved.marked;
      } in
      Moved-then state cleared grown (n ∷ parents) (push_all nodes (n ∷ parents)) nodes n true first
        (connect_blocks-Moved (n ∷ parents) nodes cleared {grown = grown} moved.best rest)

  -- Where the chain of a node off the main chain leaves the best chain at a fork point, which is marked
  -- as in the main chain or has no parent: a `ReorganizeChain` that passes, of the nodes that
  -- `GetReorganizeNodes` gives, makes the node's chain the best chain, marks its nodes after the fork
  -- point as in the main chain, takes the mark from those that were detached, and keeps every other mark.
  pub reorganize_chain-get_reorganize_nodes :
      (fork node : ChainNode) (common detached side detach_nodes attach_nodes : List ChainNode)
      (state : ChainState S) {after : ChainState S}
      → state.best_chain ≡ detached ++ (fork ∷ common)
      → (state.in_main_chain fork.hash ≡ true) ⊎ (common ≡ [])
      → All (λ (n : ChainNode). state.in_main_chain n.hash ≡ false) (node ∷ side)
      → All (λ (n : ChainNode). n.hash ≢ fork.hash) detached
      → get_reorganize_nodes state.in_main_chain state.best_chain node (side ++ (fork ∷ common))
        ≡ (detach_nodes, attach_nodes)
      → reorganize_chain get_block rollback_block save_block passes_context load_parent
          (fork ∷ common)
          detach_nodes
          attach_nodes
          state
        ≡ ok after
      → (after.best_chain ≡ node ∷ (side ++ (fork ∷ common)))
        × ((h : ℕ)
            → after.in_main_chain h ≡ (
                if is_in h (node ∷ side)
                then true
                else if is_in h detached
                then false
                else state.in_main_chain h))
  unfolding reorganize_chain
  reorganize_chain-get_reorganize_nodes fork node common detached side detach_nodes attach_nodes
        state {after} best is_fork off other found e =
      let (_, _, e1) =
        >>=-ok
          (fail_if
            (not (
              are_cached get_block rollback_block save_block passes_context load_parent
                state.block_cache attach_nodes))
            missing_block)
          _ e in
      let (left, out, on) =
        >>=-ok
          (disconnect_blocks get_block rollback_block save_block passes_context load_parent
            detach_nodes state)
          _ e1 in
      let nodes : (detach_nodes, attach_nodes) ≡ (detached, push_all (node ∷ side) []) =
        sym found
        ∙ ap (λ l. get_reorganize_nodes state.in_main_chain l node (side ++ (fork ∷ common))) best
        ∙ get_reorganize_nodes-lem state.in_main_chain fork common detached side node is_fork off
            other in
      let detach : detach_nodes ≡ detached =
        ap (λ (p : List ChainNode × List ChainNode). p.0) nodes in
      let attach : attach_nodes ≡ push_all (node ∷ side) [] =
        ap (λ (p : List ChainNode × List ChainNode). p.1) nodes in
      let down = disconnect_blocks-Moved fork common detached state {left = left} best (
        ap
          (λ l.
            disconnect_blocks get_block rollback_block save_block passes_context load_parent l
              state)
          (sym detach)
        ∙ out) in
      let up =
        connect_blocks-Moved (fork ∷ common) (push_all (node ∷ side) []) left {grown = after}
          down.best
          (ap
              (λ l.
                connect_blocks get_block rollback_block save_block passes_context load_parent
                  (fork ∷ common) l left)
              (sym attach)
            ∙ on) in
      (
        up.best ∙ push_all-push_all (node ∷ side) [] (fork ∷ common),
        λ h.
            up.marked h
            ∙ ap (λ old. if is_in h (push_all (node ∷ side) []) then true else old) (down.marked h)
            ∙ ap
                (λ t. if t then true else if is_in h detached then false else state.in_main_chain h)
                (is_in-push_all h (node ∷ side) [] ∙ or_false (is_in h (node ∷ side))),
      )
    where
      or_false : (t : Bool) → (t || false) ≡ t
      or_false true = refl
      or_false false = refl
