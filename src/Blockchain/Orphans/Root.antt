-- ===== src/Blockchain/Orphans/Root.antt =====
-- blockchain/blockchain.go: `GetOrphanRoot` ends where the heights fall along the previous blocks.
use elastos_ela_side_chain.Common.{
  ℕ, zero, suc, ◌<◌, ◌≡◌, refl, sym, subst, ◌∙◌, ap, ◌⊎◌, inl, inr, Option, none, some, arith,
}
use elastos_ela_side_chain.Common.Table.{lookup}
use elastos_ela_side_chain.Blockchain.Orphans.{Orphan, OrphanPool, orphan_root, get_orphan_root}

-- The hash leads to another, or to itself, along the previous blocks of orphans.
pub data Leads (pool : OrphanPool) : ℕ → ℕ → Type 0 where
  here : {hash : ℕ} → Leads pool hash hash
  back :
      {hash root : ℕ} (o : Orphan)
      → lookup hash pool.orphans ≡ some o
      → Leads pool o.previous root
      → Leads pool hash root

-- The hash leads to an orphan, and what comes before that is none.
abbrev pub StartsAt : OrphanPool → ℕ → ℕ → Type 0
StartsAt pool hash root =
    Leads pool hash root
    × (o : Orphan) × (lookup root pool.orphans ≡ some o)
    × (lookup o.previous pool.orphans ≡ none)

-- The root is the first orphan that the hash leads to, or the hash itself if that is no orphan.
abbrev pub IsRoot : OrphanPool → ℕ → ℕ → Type 0
IsRoot pool hash root =
    ((root ≡ hash) × (lookup hash pool.orphans ≡ none)) ⊎ StartsAt pool hash root

orphan_root-lem :
    (height : ℕ → ℕ) (fuel : ℕ) (pool : OrphanPool) (root prev : ℕ) (o : Orphan)
    → ((h : ℕ) (o : Orphan) → lookup h pool.orphans ≡ some o → height o.previous < height h)
    → height prev < fuel
    → lookup root pool.orphans ≡ some o
    → o.previous ≡ prev
    → (r : ℕ) × (orphan_root fuel pool root prev ≡ some r) × StartsAt pool root r
unfolding orphan_root
orphan_root-lem height zero pool root prev o falls enough found previous = absurd (omega arith)
orphan_root-lem height (suc fuel) pool root prev o falls enough found previous =
    go (lookup prev pool.orphans) refl
      (λ q e lt. orphan_root-lem height fuel pool prev q.previous q falls lt e refl)
  where
    go :
        (next : Option Orphan)
        → lookup prev pool.orphans ≡ next
        → ((q : Orphan)
            → lookup prev pool.orphans ≡ some q
            → height q.previous < fuel
            → (r : ℕ) × (orphan_root fuel pool prev q.previous ≡ some r) × StartsAt pool prev r)
        → (r : ℕ) × (◌≡◌ {A = Option ℕ}
            (elim next [
              | none ↦ some root
              | some orphan ↦ orphan_root fuel pool prev orphan.previous
            ])
            (some r))
          × StartsAt pool root r
    go none e ih = (root, refl, (here, o, found, ap (λ k. lookup k pool.orphans) previous ∙ e))
    go (some q) e ih =
        let lt = falls prev q e in
        let (r, is, starts) = ih q e (omega arith) in
        (
          r,
          is,
          (
            back o found (subst (λ h. Leads pool h r) (sym previous) starts.0),
            starts.1,
            starts.2,
            starts.3,
          ),
        )

-- Where each orphan is higher than its previous block, `GetOrphanRoot` ends, with fuel for one step more
-- than the height: at an orphan that the hash leads to along the previous blocks of orphans and whose
-- own previous block is no orphan, or at the hash itself if that is no orphan.
pub get_orphan_root-IsRoot :
    (height : ℕ → ℕ) (fuel : ℕ) (pool : OrphanPool) (hash : ℕ)
    → ((h : ℕ) (o : Orphan) → lookup h pool.orphans ≡ some o → height o.previous < height h)
    → height hash < fuel
    → (root : ℕ) × (get_orphan_root fuel pool hash ≡ some root) × IsRoot pool hash root
unfolding get_orphan_root orphan_root
get_orphan_root-IsRoot height zero pool hash falls enough = absurd (omega arith)
get_orphan_root-IsRoot height (suc fuel) pool hash falls enough =
    go (lookup hash pool.orphans) refl
      (λ o e lt. orphan_root-lem height fuel pool hash o.previous o falls lt e refl)
  where
    go :
        (first : Option Orphan)
        → lookup hash pool.orphans ≡ first
        → ((o : Orphan)
            → lookup hash pool.orphans ≡ some o
            → height o.previous < fuel
            → (r : ℕ) × (orphan_root fuel pool hash o.previous ≡ some r) × StartsAt pool hash r)
        → (root : ℕ) × (◌≡◌ {A = Option ℕ}
            (elim first [
              | none ↦ some hash
              | some orphan ↦ orphan_root fuel pool hash orphan.previous
            ])
            (some root))
          × IsRoot pool hash root
    go none e ih = (hash, refl, inl (refl, e))
    go (some o) e ih =
        let lt = falls hash o e in let (r, found, is) = ih o e (omega arith) in (r, found, inr is)
