-- ===== src/Blockchain/MedianTime.antt =====
-- blockchain/mediantime.go: the offset of the local clock, from the samples of the peers. A source is
-- a string that is only compared, here a number; a sample is its offset in seconds from the local
-- clock, as `AddTimeSample` truncates it. The lock and the log are left out, and with the log the
-- search for a close sample, which only decides on a warning. A result is `none` where an index is out
-- of range.
pub mod Sorting
pub mod Samples
mod Tests
use elastos_ela_side_chain.Common.{
  ℕ, zero, suc, ◌+◌, ◌/◌, ◌%◌, Bool, true, false, not, ◌||◌, Option, none, some, List, [], ◌∷◌,
  ◌++◌, length, get_elem?, drop, if◌then◌else◌, ◌==◌, ltb,
}
use elastos_ela_side_chain.Common.Int.{ℤ, pos, pos_part, neg_part, leb_ℤ}

-- `maxAllowedOffsetSecs`
abbrev pub max_allowed_offset_secs : ℕ
max_allowed_offset_secs = 4200

-- `maxMedianTimeEntries`
abbrev pub max_median_time_entries : ℕ
max_median_time_entries = 200

-- `medianTime`
pub record MedianTime : Type 0 where
  pub known_ids : List ℕ
  pub offsets : List ℤ
  pub offset_secs : ℤ
  pub invalid_time_checked : Bool

-- `NewMedianTime`
abbrev pub new_median_time : MedianTime
new_median_time = record {
  known_ids = [];
  offsets = [];
  offset_secs = pos 0;
  invalid_time_checked = false;
}

abbrev pub is_known : ℕ → List ℕ → Bool
is_known source [] = false
is_known source (known ∷ ids) = (source == known) || is_known source ids

-- `math.Abs`
abbrev pub abs : ℤ → ℕ
abs a = pos_part a + neg_part a

-- `sort.Sort(int64Sorter(offsets))`
abbrev pub insert_sorted : ℤ → List ℤ → List ℤ
insert_sorted a [] = a ∷ []
insert_sorted a (b ∷ bs) = if leb_ℤ a b then a ∷ b ∷ bs else b ∷ insert_sorted a bs

abbrev pub sort : List ℤ → List ℤ
sort [] = []
sort (a ∷ xs) = insert_sorted a (sort xs)

-- The oldest offset makes room for the new one when there are as many as there may be.
unfoldable pub push_offset : ℤ → List ℤ → List ℤ
push_offset offset offsets =
    (if length offsets == max_median_time_entries then drop 1 offsets else offsets) ++ (offset ∷ [])

-- The end of `AddTimeSample`, from the median on.
unfoldable pub set_median : ℤ → MedianTime → MedianTime
set_median median m =
    if ltb (abs median) max_allowed_offset_secs
    then record m { offset_secs = median }
    else record m { offset_secs = pos 0; invalid_time_checked = true }

-- `AddTimeSample` once the offset is in the list.
unfoldable pub update_offset : MedianTime → Option MedianTime
update_offset m =
    let num_offsets = length m.offsets in
    if ltb num_offsets 5 || not (num_offsets % 2 == 1)
    then some m
    else elim (get_elem? (sort m.offsets) (num_offsets / 2)) [
      | some median ↦ some (set_median median m)
      | none ↦ none
    ]

-- `AddTimeSample`
unfoldable pub add_time_sample : ℕ → ℤ → MedianTime → Option MedianTime
add_time_sample source offset m =
    if is_known source m.known_ids
    then some m
    else update_offset
        (record m { known_ids = source ∷ m.known_ids; offsets = push_offset offset m.offsets })
