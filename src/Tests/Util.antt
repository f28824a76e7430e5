-- ===== src/Tests/Util.antt =====
-- Runs of the helpers of src/util.h.
use ratos.Prelude.{◌≡◌, refl}
use ratos.Util.{ceilchunku64, floorchunku64, ceildivu64, get_bitmask64}

helpers_run :
    (ceilchunku64 5000 4096 ≡ 8192)
    × (floorchunku64 5000 4096 ≡ 4096)
    × (ceildivu64 5000 4096 ≡ 2)
    × (get_bitmask64 4 7 ≡ 0xf0)
unfolding ceilchunku64 floorchunku64 ceildivu64 get_bitmask64
helpers_run = (refl, refl, refl, refl)
