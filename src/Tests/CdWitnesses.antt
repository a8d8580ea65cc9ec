-- ===== src/Tests/CdWitnesses.antt =====
-- The last element of `/sports`, by an index from the end.
use f_copss.Cd.Index
use f_copss.Cd.Index.{negsuc}
use f_copss.Cd.Equality.{size}
use f_copss.Ndn.{Block}
use f_copss.Prelude.{index_out_of_range, ◌⊎◌, ok, some, ◌≡◌, get_elem?, ℕ, err}
use f_copss.Tests.Samples.{sports_cd}

at-IsPlace_example :
    ((place : ℕ) × (block : Block) × Index.IsPlace (negsuc 0) (size sports_cd) place
      × (get_elem? sports_cd.elements place ≡ some block)
      × (Index.at (negsuc 0) sports_cd ≡ ok (some block)))
    ⊎ (((place : ℕ) → ¬ Index.IsPlace (negsuc 0) (size sports_cd) place)
        × (Index.at (negsuc 0) sports_cd ≡ err index_out_of_range))
at-IsPlace_example = Index.at-IsPlace (negsuc 0) sports_cd
