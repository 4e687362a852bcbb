-- ===== src/Blockchain/Retarget/Window.antt =====
-- The window of blocks that blockchain/difficulty.go measures, and its time span.
use native.Mathlib.Nat.{div-le_self, mul-le-mul_left, mod-eq_of_lt}
use elastos_ela_side_chain.Blockchain.Compact.{big_to_compact}
use elastos_ela_side_chain.Common.{
  ℕ, suc, ◌+◌, ◌*◌, ◌/◌, ◌%◌, ◌^◌, ◌≤◌, ◌<◌, ◌≡◌, refl, ◌≢◌, false, some, List, [], ◌∷◌, arith,
  Bool-cases, ==_iff, ==_false, inl, inr, ltb, ◌==◌, ◌||◌, ℕ_discrete,
}
use elastos_ela_side_chain.Common.Result.{ok}
use elastos_ela_side_chain.Blockchain.Retarget.{
  ChainParams, BlockNode, blocks_per_retarget, min_retarget_timespan, max_retarget_timespan, sub32,
  window_start, retarget, find_height, adjusted_timespan, new_target, calc_next_required_difficulty,
}

-- A node and its ancestors down to the genesis block: each height is one above its parent's.
abbrev pub IsChain : List BlockNode → Type 0
IsChain [] = ⊥
IsChain (node ∷ []) = node.height ≡ 0
IsChain (node ∷ parent ∷ rest) = (node.height ≡ suc parent.height) × IsChain (parent ∷ rest)

-- The loop finds every height from the genesis block up to the node that it starts at.
pub find_height-IsChain :
    (k : ℕ) (node : BlockNode) (parents : List BlockNode)
    → IsChain (node ∷ parents)
    → k ≤ node.height
    → (first : BlockNode) × (find_height k (node ∷ parents) ≡ some first) × (first.height ≡ k)
unfolding find_height
find_height-IsChain k node [] chain h = (node, ground arith, ground arith)
find_height-IsChain k node (parent ∷ rest) chain h = elim (ℕ_discrete node.height k) [
  | yes e ↦ (node, ground arith, e)
  | no ne ↦
      let (first, found, e) = find_height-IsChain k parent rest chain.1 (omega arith) in
      (first, ground arith, e)
]

-- A window that ends at a retarget height begins at a height of the chain.
window_start-le :
    (p : ChainParams) (prev : BlockNode)
    → blocks_per_retarget p ≢ 0
    → prev.height + 1 < 2 ^ 32
    → (prev.height + 1) % 2 ^ 32 % blocks_per_retarget p ≡ 0
    → window_start p prev ≤ prev.height
window_start-le p prev positive small e =
    go (blocks_per_retarget p) positive (omega arith) (rw (mod-eq_of_lt small) at e)
  where
    go :
        (b : ℕ)
        → b ≢ 0
        → b < 2 ^ 32
        → (prev.height + 1) % b ≡ 0
        → (sub32 prev.height b + 1) % 2 ^ 32 ≤ prev.height
    go b ne lt e = let le : b ≤ prev.height + 1 = grind arith in omega arith

retarget-IsChain :
    (p : ChainParams) (prev : BlockNode) (parents : List BlockNode)
    → IsChain (prev ∷ parents)
    → window_start p prev ≤ prev.height
    → (bits : ℕ) × (retarget p prev parents ≡ ok bits)
unfolding retarget
retarget-IsChain p prev parents chain h =
    let (first, found, e) = find_height-IsChain (window_start p prev) prev parents chain h in
    let within : ltb prev.height (window_start p prev) ≡ false = ground arith in
    (big_to_compact (new_target p prev first), rw (within, found) refl)

-- On a chain that reaches the genesis block the rule always gives a difficulty: the node at the
-- start of the window is found, and no early error and no panic is reached.
pub calc_next_required_difficulty-IsChain :
    (p : ChainParams) (prev : BlockNode) (parents : List BlockNode)
    → IsChain (prev ∷ parents)
    → blocks_per_retarget p ≢ 0
    → prev.height + 1 < 2 ^ 32
    → (bits : ℕ) × (calc_next_required_difficulty p prev parents ≡ ok bits)
unfolding calc_next_required_difficulty
calc_next_required_difficulty-IsChain p prev parents chain positive small =
    elim (Bool-cases (prev.height == 0 || p.is_reg_net)) [
      | inl fixed ↦ (p.pow_limit_bits, rw fixed)
      | inr moving ↦ elim (Bool-cases ((prev.height + 1) % 2 ^ 32 % blocks_per_retarget p == 0)) [
        | inl now ↦
            let (bits, e) =
              retarget-IsChain p prev parents chain
                (window_start-le p prev positive small ((==_iff _ _).0 now)) in
            (bits, rw (moving, ==_false positive, now) e)
        | inr later ↦ (prev.bits, rw (moving, ==_false positive, later))
      ]
    ]

retarget_order :
    (p : ChainParams) → 0 < p.adjustment_factor → min_retarget_timespan p ≤ max_retarget_timespan p
retarget_order p h = go p.target_timespan p.adjustment_factor h
  where
    go : (t f : ℕ) → 0 < f → t / f ≤ t * f
    go t f h =
        let down : t / f ≤ t = div-le_self t f in
        let up : t * 1 ≤ t * f = mul-le-mul_left t h in omega arith

-- The time span is held between the two bounds that the adjustment factor sets.
pub adjusted_timespan_bounds :
    (p : ChainParams) (prev first : BlockNode)
    → 0 < p.adjustment_factor
    → (min_retarget_timespan p ≤ adjusted_timespan p prev first)
      × (adjusted_timespan p prev first ≤ max_retarget_timespan p)
unfolding adjusted_timespan
adjusted_timespan_bounds p prev first h =
    let ordered : min_retarget_timespan p ≤ max_retarget_timespan p = retarget_order p h in
    ground arith

-- The uint32 difference of the timestamps wraps around: a window that ends up to 2^31 seconds
-- before it starts is measured as the longest one that is allowed.
pub adjusted_timespan-backwards :
    (p : ChainParams) (prev first : BlockNode)
    → prev.timestamp < first.timestamp
    → first.timestamp < 2 ^ 32
    → first.timestamp ≤ prev.timestamp + 2 ^ 31
    → 0 < p.adjustment_factor
    → max_retarget_timespan p < 2 ^ 31
    → adjusted_timespan p prev first ≡ max_retarget_timespan p
unfolding adjusted_timespan
adjusted_timespan-backwards p prev first back top near factor long =
    let ordered : min_retarget_timespan p ≤ max_retarget_timespan p = retarget_order p factor in
    ground arith
