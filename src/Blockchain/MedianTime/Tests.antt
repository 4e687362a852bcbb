-- ===== src/Blockchain/MedianTime/Tests.antt =====
-- Samples of the time of peers, and the theorems at concrete ones.
use elastos_ela_side_chain.Common.{
  ◌≡◌, refl, true, false, some, [], ◌∷◌, arith, replicate, if◌then◌else◌, ltb,
}
use elastos_ela_side_chain.Common.Int.{ℤ, pos, negsuc}
use elastos_ela_side_chain.Blockchain.MedianTime.{
  MedianTime, is_known, abs, push_offset, set_median, update_offset, add_time_sample,
}
use elastos_ela_side_chain.Blockchain.MedianTime.Samples.{
  IsValid, IsMedian, add_time_sample-IsValid, add_time_sample-IsMedian,
}

-- Four sources; the fifth makes the number odd.
abbrev four_sources : MedianTime
four_sources = record {
  known_ids = 4 ∷ 3 ∷ 2 ∷ 1 ∷ [];
  offsets = pos 50 ∷ negsuc 6 ∷ pos 9 ∷ pos 5000 ∷ [];
  offset_secs = pos 0;
  invalid_time_checked = false;
}

abbrev full : MedianTime
full = record {
  known_ids = 1 ∷ [];
  offsets = replicate 200 (pos 3);
  offset_secs = pos 3;
  invalid_time_checked = false;
}

four_sources-IsValid : IsValid four_sources
four_sources-IsValid = record { offsets_bound = omega arith; offset_bound = omega arith }

-- The median of -7, 9, 20, 50 and 5000.
add_time_sample-fifth :
    add_time_sample 5 (pos 20) four_sources
    ≡ some (record {
      known_ids = 5 ∷ 4 ∷ 3 ∷ 2 ∷ 1 ∷ [];
      offsets = pos 50 ∷ negsuc 6 ∷ pos 9 ∷ pos 5000 ∷ pos 20 ∷ [];
      offset_secs = pos 20;
      invalid_time_checked = false;
    })
unfolding add_time_sample update_offset set_median push_offset
add_time_sample-fifth = refl

add_time_sample-IsValid_example :
    (m' : MedianTime) × (add_time_sample 5 (pos 20) four_sources ≡ some m')
    × IsValid m'
    × (is_known 5 m'.known_ids ≡ true)
add_time_sample-IsValid_example =
    add_time_sample-IsValid 5 (pos 20) four_sources four_sources-IsValid

add_time_sample-IsMedian_example :
    (median : ℤ) × (m' : MedianTime) × (add_time_sample 5 (pos 20) four_sources ≡ some m')
    × IsMedian median (push_offset (pos 20) four_sources.offsets)
    × (m'.offset_secs ≡ (if ltb (abs median) 4200 then median else pos 0))
unfolding push_offset
add_time_sample-IsMedian_example =
    add_time_sample-IsMedian 5 (pos 20) four_sources refl (omega arith) refl
