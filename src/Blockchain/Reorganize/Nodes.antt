-- ===== src/Blockchain/Reorganize/Nodes.antt =====
-- blockchain/blockchain.go: `GetReorganizeNodes` finds the two sides of a fork.
use elastos_ela_side_chain.Common.{
  ℕ, ◌≡◌, ◌≢◌, refl, ◌∙◌, ap, Bool, true, false, ◌⊎◌, inl, inr, List, [], ◌∷◌, ◌++◌, ==_iff,
  ==_false, All,
}
use elastos_ela_side_chain.Blockchain.Reorganize.{
  ChainNode, find_fork, find_detached, get_reorganize_nodes,
}

-- The nodes of a list, each put in front of those before.
abbrev pub push_all {ℓ} : {A : Type ℓ} → List A → List A → List A
push_all [] acc = acc
push_all (x ∷ xs) acc = push_all xs (x ∷ acc)

pub push_all-push_all {ℓ} :
    {A : Type ℓ} (xs acc rest : List A)
    → push_all (push_all xs acc) rest ≡ push_all acc (xs ++ rest)
push_all-push_all [] acc rest = refl
push_all-push_all (x ∷ xs) acc rest = push_all-push_all xs (x ∷ acc) rest

module _ (in_main_chain : ℕ → Bool) (fork : ChainNode) (common : List ChainNode)
    (is_fork : (in_main_chain fork.hash ≡ true) ⊎ (common ≡ [])) where
  find_fork-stop : (acc : List ChainNode) → find_fork in_main_chain common fork acc ≡ (fork, acc)
  unfolding find_fork
  find_fork-stop acc = go common is_fork
    where
      go :
          (common : List ChainNode)
          → (in_main_chain fork.hash ≡ true) ⊎ (common ≡ [])
          → find_fork in_main_chain common fork acc ≡ (fork, acc)
      go [] is = refl
      go (c ∷ cs) (inl main) = rw main refl
      go (c ∷ cs) (inr e) = cc

  find_fork-side :
      (side : List ChainNode) (node : ChainNode) (acc : List ChainNode)
      → All (λ (n : ChainNode). in_main_chain n.hash ≡ false) (node ∷ side)
      → find_fork in_main_chain (side ++ (fork ∷ common)) node acc
        ≡ (fork, push_all (node ∷ side) acc)
  unfolding find_fork
  find_fork-side [] node acc h = rw (h.0) (find_fork-stop (node ∷ acc))
  find_fork-side (t ∷ ts) node acc h = rw (h.0) (find_fork-side ts t (node ∷ acc) h.1)

find_detached-lem :
    (fork : ChainNode) (common detached : List ChainNode)
    → All (λ (n : ChainNode). n.hash ≢ fork.hash) detached
    → find_detached fork (detached ++ (fork ∷ common)) ≡ detached
unfolding find_detached
find_detached-lem fork [] [] h = refl
find_detached-lem fork (c ∷ cs) [] h = rw ((==_iff fork.hash fork.hash).1 refl) refl
find_detached-lem fork common (d ∷ []) h =
    rw (==_false h.0) (ap (λ l. d ∷ l) (find_detached-lem fork common [] tt))
find_detached-lem fork common (d ∷ e ∷ ds) h =
    rw (==_false h.0) (ap (λ l. d ∷ l) (find_detached-lem fork common (e ∷ ds) h.1))

-- Where a chain of nodes off the main chain leaves the best chain at a fork point, which is marked as in
-- the main chain or has no parent: `GetReorganizeNodes` detaches the nodes of the best chain after the
-- fork point from the end on, and attaches those of the other chain from the fork point on.
pub get_reorganize_nodes-lem :
    (in_main_chain : ℕ → Bool) (fork : ChainNode) (common detached side : List ChainNode)
    (node : ChainNode)
    → (in_main_chain fork.hash ≡ true) ⊎ (common ≡ [])
    → All (λ (n : ChainNode). in_main_chain n.hash ≡ false) (node ∷ side)
    → All (λ (n : ChainNode). n.hash ≢ fork.hash) detached
    → get_reorganize_nodes in_main_chain
        (detached ++ (fork ∷ common))
        node
        (side ++ (fork ∷ common))
      ≡ (detached, push_all (node ∷ side) [])
unfolding get_reorganize_nodes
get_reorganize_nodes-lem in_main_chain fork common detached side node is_fork off other =
    ap (λ (f : ChainNode × List ChainNode). (find_detached f.0 (detached ++ (fork ∷ common)), f.1))
      (find_fork-side in_main_chain fork common is_fork side node [] off)
    ∙ ap (λ l. (l, push_all (node ∷ side) [])) (find_detached-lem fork common detached other)
