-- ===== src/Blockchain/Retarget/Limit.antt =====
-- The difficulties that blockchain/difficulty.go hands out stay within the proof of work limit.
use native.Mathlib.Nat.{div-le_of_le-mul, mul-le-mul_left}
use elastos_ela_side_chain.Common.{
  ℕ, ◌*◌, ◌/◌, ◌^◌, ◌≤◌, ◌<◌, ◌≡◌, refl, Bool, true, false, Option, none, some, List, ◌∷◌, arith,
  ltb, dec_lt,
}
use elastos_ela_side_chain.Common.Int.{pos, *ℤ-pos}
use elastos_ela_side_chain.Common.Result.{ok, or_panic, fail_if, ◌>>=◌, ◌>>◌, ok-injective}
use elastos_ela_side_chain.Blockchain.Compact.{big_to_compact, compact_to_big}
use elastos_ela_side_chain.Blockchain.Compact.Precision.{compact_to_big-big_to_compact}
use elastos_ela_side_chain.Blockchain.Retarget.{
  ChainParams, no_retarget_block, BlockNode, max_retarget_timespan, find_height, window_start,
  adjusted_timespan, new_target, retarget, calc_next_required_difficulty,
}
use elastos_ela_side_chain.Blockchain.Retarget.Window.{adjusted_timespan_bounds}

-- A difficulty that stands for a target between zero and the limit.
abbrev pub IsWithin : ℕ → ℕ → Type 0
IsWithin limit bits = (t : ℕ) × (compact_to_big bits ≡ pos t) × (t ≤ limit)

zero_target : compact_to_big (big_to_compact (pos 0)) ≡ pos 0
unfolding compact_to_big big_to_compact
zero_target = refl

-- Rounding down keeps a target within the limit.
big_to_compact-IsWithin :
    (limit t : ℕ) → t ≤ limit → limit < 2 ^ (8 * 254) → IsWithin limit (big_to_compact (pos t))
big_to_compact-IsWithin limit t h small = elim (dec_lt 0 t) [
  | yes positive ↦
      let (m, e, close) = compact_to_big-big_to_compact t positive (omega arith) in
      (m, e, omega arith)
  | no nothing ↦ let e : t ≡ 0 = omega arith in rw e (0, zero_target, omega arith)
]

-- The new target is at most the old one times the adjustment factor, and at most the limit.
pub new_target_bounds :
    (p : ChainParams) (prev first : BlockNode) (limit old : ℕ)
    → p.pow_limit ≡ pos limit
    → compact_to_big prev.bits ≡ pos old
    → 0 < p.target_timespan
    → 0 < p.adjustment_factor
    → (t : ℕ) × (new_target p prev first ≡ pos t) × (t ≤ limit) × (t ≤ old * p.adjustment_factor)
unfolding new_target
new_target_bounds p prev first limit old el eo ht hf =
    let scaled : ℕ = old * adjusted_timespan p prev first / p.target_timespan in
    let most : old * adjusted_timespan p prev first ≤ old * max_retarget_timespan p =
      mul-le-mul_left old (adjusted_timespan_bounds p prev first hf).1 in
    let below : scaled ≤ old * p.adjustment_factor =
      div-le_of_le-mul p.target_timespan (omega arith) in
    elim (dec_lt limit scaled) [
      | yes over ↦ (limit, rw (eo, *ℤ-pos, el) (ground arith), omega arith, omega arith)
      | no under ↦ (scaled, rw (eo, *ℤ-pos, el) (ground arith), omega arith, below)
    ]

retarget-IsWithin :
    (p : ChainParams) (prev : BlockNode) (parents : List BlockNode) (limit : ℕ) {bits : ℕ}
    → p.pow_limit ≡ pos limit
    → limit < 2 ^ (8 * 254)
    → 0 < p.target_timespan
    → 0 < p.adjustment_factor
    → IsWithin limit prev.bits
    → retarget p prev parents ≡ ok bits
    → IsWithin limit bits
unfolding retarget
retarget-IsWithin p prev parents limit {bits} el small ht hf (old, eo, _) e =
    go (ltb prev.height (window_start p prev)) (find_height (window_start p prev) (prev ∷ parents))
      e
  where
    go :
        (early : Bool) (found : Option BlockNode)
        → (fail_if early no_retarget_block
            >> (or_panic found >>= λ first. ok (big_to_compact (new_target p prev first))))
          ≡ ok bits
        → IsWithin limit bits
    go true found e = cc
    go false none e = cc
    go false (some first) e =
        let (t, et, le, _) = new_target_bounds p prev first limit old el eo ht hf in
        rw (← ok-injective e, et) (big_to_compact-IsWithin limit t le small)

-- If the limit's own difficulty and that of the previous node are within the limit, so is every
-- difficulty that the rule gives: the retarget never leaves the range, whatever the timestamps are.
pub calc_next_required_difficulty-IsWithin :
    (p : ChainParams) (prev : BlockNode) (parents : List BlockNode) (limit : ℕ) {bits : ℕ}
    → p.pow_limit ≡ pos limit
    → limit < 2 ^ (8 * 254)
    → 0 < p.target_timespan
    → 0 < p.adjustment_factor
    → IsWithin limit p.pow_limit_bits
    → IsWithin limit prev.bits
    → calc_next_required_difficulty p prev parents ≡ ok bits
    → IsWithin limit bits
unfolding calc_next_required_difficulty
calc_next_required_difficulty-IsWithin p prev parents limit {bits} el small ht hf wl wp e =
    ground (arith, retarget-IsWithin p prev parents limit {bits = bits} el small ht hf wp)
