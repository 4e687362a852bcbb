-- ===== src/Blockchain/MedianTime/Samples.antt =====
-- blockchain/mediantime.go: what `AddTimeSample` does to the offset of the clock.
use elastos_ela_side_chain.Common.{
  ℕ, suc, ◌/◌, ◌%◌, ◌≤◌, ◌<◌, ◌≡◌, refl, ◌∙◌, ap, Bool, true, false, not, ◌||◌, inl, inr, Option,
  none, some, List, [], ◌∷◌, length, get_elem?, drop, if◌then◌else◌, ltb, ◌==◌, arith,
  length-append, length-drop, get_elem?-total, ==_iff, Bool-cases,
}
use elastos_ela_side_chain.Common.Int.{ℤ, pos}
use elastos_ela_side_chain.Blockchain.MedianTime.{
  MedianTime, is_known, abs, sort, push_offset, set_median, update_offset, add_time_sample,
}
use elastos_ela_side_chain.Blockchain.MedianTime.Sorting.{
  count, below, above, sort-count, sort-length, sort-IsSorted, IsSorted-below, IsSorted-above,
}

-- The list holds no more offsets than it may, and the clock is moved by less than the limit.
pub record IsValid (m : MedianTime) : Type 0 where
  pub offsets_bound : length m.offsets ≤ 200
  pub offset_bound : abs m.offset_secs < 4200

push_offset-length :
    (offset : ℤ) (offsets : List ℤ)
    → length (push_offset offset offsets)
      ≡ (if length offsets == 200 then 200 else suc (length offsets))
unfolding push_offset
push_offset-length offset offsets = elim (Bool-cases (length offsets == 200)) [
  | inl e ↦
      let full : length offsets ≡ 200 = (==_iff _ _).0 e in
      rw e (omega (arith, length-append (drop 1 offsets) (offset ∷ []), length-drop 1 offsets))
  | inr e ↦ rw e (omega (arith, length-append offsets (offset ∷ [])))
]

set_median-IsValid : (median : ℤ) (m : MedianTime) → IsValid m → IsValid (set_median median m)
unfolding set_median
set_median-IsValid median m v = go (ltb (abs median) 4200) refl
  where
    go :
        (t : Bool)
        → ltb (abs median) 4200 ≡ t
        → IsValid (
            if t
            then record m { offset_secs = median }
            else record m { offset_secs = pos 0; invalid_time_checked = true })
    go true e = record { offsets_bound = v.offsets_bound; offset_bound = ground arith }
    go false e = record { offsets_bound = v.offsets_bound; offset_bound = omega arith }

-- The median is there to be read when there are offsets.
pub median_total :
    (offsets : List ℤ)
    → 0 < length offsets
    → (median : ℤ) × (get_elem? (sort offsets) (length offsets / 2) ≡ some median)
median_total offsets h =
    get_elem?-total (sort offsets) (length offsets / 2) (rw (sort-length offsets) (omega arith))

-- Half of the offsets at most lie on each side of a median.
abbrev pub IsMedian : ℤ → List ℤ → Type 0
IsMedian v offsets =
    (count (below v) offsets ≤ length offsets / 2) × (count (above v) offsets ≤ length offsets / 2)

pub median_lem :
    (offsets : List ℤ) {v : ℤ}
    → get_elem? (sort offsets) (length offsets / 2) ≡ some v
    → IsMedian v offsets
median_lem offsets {v} e =
    let low = IsSorted-below (sort offsets) _ (sort-IsSorted offsets) e in
    let high = IsSorted-above (sort offsets) _ (sort-IsSorted offsets) e in
    (
      omega (arith, sort-count (below v) offsets),
      omega (arith, sort-count (above v) offsets, sort-length offsets),
    )

-- The list is too short for a median, or of an even length: nothing is updated.
update_offset-idle :
    (m : MedianTime)
    → (ltb (length m.offsets) 5 || not (length m.offsets % 2 == 1)) ≡ true
    → update_offset m ≡ some m
unfolding update_offset
update_offset-idle m e = rw e refl

update_offset-set_median :
    (m : MedianTime)
    → (ltb (length m.offsets) 5 || not (length m.offsets % 2 == 1)) ≡ false
    → (median : ℤ) × IsMedian median m.offsets × (update_offset m ≡ some (set_median median m))
unfolding update_offset
update_offset-set_median m e =
    let few : ltb (length m.offsets) 5 ≡ false = ground arith in
    let (median, found) = median_total m.offsets (ground arith) in
    (median, median_lem m.offsets found, rw (e, found) refl)

set_median-same :
    (median : ℤ) (m : MedianTime)
    → ((set_median median m).offsets ≡ m.offsets) × ((set_median median m).known_ids ≡ m.known_ids)
unfolding set_median
set_median-same median m = go (ltb (abs median) 4200)
  where
    ended : Bool → MedianTime
    ended t =
        if t
        then record m { offset_secs = median }
        else record m { offset_secs = pos 0; invalid_time_checked = true }

    go : (t : Bool) → ((ended t).offsets ≡ m.offsets) × ((ended t).known_ids ≡ m.known_ids)
    go true = (refl, refl)
    go false = (refl, refl)

set_median-offset :
    (median : ℤ) (m : MedianTime)
    → (set_median median m).offset_secs ≡ (if ltb (abs median) 4200 then median else pos 0)
unfolding set_median
set_median-offset median m = go (ltb (abs median) 4200)
  where
    go :
        (t : Bool)
        → (if t
            then record m { offset_secs = median }
            else record m { offset_secs = pos 0; invalid_time_checked = true }).offset_secs
          ≡ (if t then median else pos 0)
    go true = refl
    go false = refl

update_offset-IsValid :
    (m : MedianTime)
    → IsValid m
    → (m' : MedianTime) × (update_offset m ≡ some m') × IsValid m' × (m'.known_ids ≡ m.known_ids)
update_offset-IsValid m v =
    elim (Bool-cases (ltb (length m.offsets) 5 || not (length m.offsets % 2 == 1))) [
      | inl e ↦ (m, update_offset-idle m e, v, refl)
      | inr e ↦
          let (median, _, updated) = update_offset-set_median m e in
          (
            set_median median m,
            updated,
            set_median-IsValid median m v,
            (set_median-same median m).1,
          )
    ]

is_known-cons : (source : ℕ) (ids : List ℕ) → is_known source (source ∷ ids) ≡ true
is_known-cons source ids = ground arith

add_time_sample-known :
    (source : ℕ) (offset : ℤ) (m : MedianTime)
    → is_known source m.known_ids ≡ true
    → add_time_sample source offset m ≡ some m
unfolding add_time_sample
add_time_sample-known source offset m known = rw known refl

-- `AddTimeSample` on a state that holds at most 200 offsets and moves the clock by less than 70
-- minutes does not run out of range, and leaves such a state, in which the source is known.
pub add_time_sample-IsValid :
    (source : ℕ) (offset : ℤ) (m : MedianTime)
    → IsValid m
    → (m' : MedianTime) × (add_time_sample source offset m ≡ some m')
      × IsValid m'
      × (is_known source m'.known_ids ≡ true)
unfolding add_time_sample
add_time_sample-IsValid source offset m v = elim (Bool-cases (is_known source m.known_ids)) [
  | inl e ↦ (m, add_time_sample-known source offset m e, v, e)
  | inr e ↦
      let bound : length (push_offset offset m.offsets) ≤ 200 =
        ground (arith, push_offset-length offset m.offsets, v.offsets_bound) in
      let (m', updated, v', ids) =
        update_offset-IsValid
          (record m { known_ids = source ∷ m.known_ids; offsets = push_offset offset m.offsets })
          (record { offsets_bound = bound; offset_bound = v.offset_bound }) in
      (m', rw e updated, v', ap (is_known source) ids ∙ is_known-cons source m.known_ids)
]

-- On a state that holds at most 200 offsets and moves the clock by less than 70 minutes, a second
-- sample of a source changes nothing, whatever its offset.
pub add_time_sample-again :
    (source : ℕ) (first second : ℤ) (m : MedianTime)
    → IsValid m
    → (m' : MedianTime) × (add_time_sample source first m ≡ some m')
      × (add_time_sample source second m' ≡ some m')
add_time_sample-again source first second m v =
    let (m', added, _, known) = add_time_sample-IsValid source first m v in
    (m', added, add_time_sample-known source second m' known)

-- A sample of a new source that makes the number of offsets odd and at least five gives the clock
-- the offset of a median: at most half of the offsets, rounded down, are smaller, and at most as many
-- are larger. A median of 70 minutes or more, in either direction, gives the offset zero.
pub add_time_sample-IsMedian :
    (source : ℕ) (offset : ℤ) (m : MedianTime)
    → is_known source m.known_ids ≡ false
    → 5 ≤ length (push_offset offset m.offsets)
    → length (push_offset offset m.offsets) % 2 ≡ 1
    → (median : ℤ) × (m' : MedianTime) × (add_time_sample source offset m ≡ some m')
      × IsMedian median (push_offset offset m.offsets)
      × (m'.offset_secs ≡ (if ltb (abs median) 4200 then median else pos 0))
unfolding add_time_sample
add_time_sample-IsMedian source offset m fresh enough odd =
    let next : MedianTime = record m {
      known_ids = source ∷ m.known_ids;
      offsets = push_offset offset m.offsets;
    } in
    let (median, is_median, updated) =
      update_offset-set_median next
        (odd_enough (length (push_offset offset m.offsets)) enough odd) in
    (median, set_median median next, rw fresh updated, is_median, set_median-offset median next)
  where
    odd_enough : (n : ℕ) → 5 ≤ n → n % 2 ≡ 1 → (ltb n 5 || not (n % 2 == 1)) ≡ false
    odd_enough n h o = ground arith

-- The samples of several peers, in the order in which they come.
unfoldable pub add_time_samples : List (ℕ × ℤ) → MedianTime → Option MedianTime
add_time_samples [] m = some m
add_time_samples ((source, offset) ∷ samples) m = elim (add_time_sample source offset m) [
  | some m' ↦ add_time_samples samples m'
  | none ↦ none
]

add_time_sample-full :
    (source : ℕ) (offset : ℤ) (m : MedianTime)
    → length m.offsets ≡ 200
    → (m' : MedianTime) × (add_time_sample source offset m ≡ some m')
      × (m'.offset_secs ≡ m.offset_secs)
      × (length m'.offsets ≡ 200)
unfolding add_time_sample
add_time_sample-full source offset m full = elim (Bool-cases (is_known source m.known_ids)) [
  | inl e ↦ (m, add_time_sample-known source offset m e, refl, full)
  | inr e ↦
      let next : MedianTime = record m {
        known_ids = source ∷ m.known_ids;
        offsets = push_offset offset m.offsets;
      } in
      let still : length (push_offset offset m.offsets) ≡ 200 =
        ground (arith, push_offset-length offset m.offsets, full) in
      (next, rw e (update_offset-idle next (rw still refl)), refl, still)
]

-- Once the list holds 200 offsets, no sequence of samples changes the offset of the clock, and none
-- runs out of range: the number of offsets stays 200, which is even.
pub add_time_samples-frozen :
    (samples : List (ℕ × ℤ)) (m : MedianTime)
    → length m.offsets ≡ 200
    → (m' : MedianTime) × (add_time_samples samples m ≡ some m') × (m'.offset_secs ≡ m.offset_secs)
unfolding add_time_samples
add_time_samples-frozen [] m full = (m, refl, refl)
add_time_samples-frozen ((source, offset) ∷ samples) m full =
    let (next, added, same, still) = add_time_sample-full source offset m full in
    let (m', rest, frozen) = add_time_samples-frozen samples next still in
    (m', rw (added, add_time_samples) rest, frozen ∙ same)
