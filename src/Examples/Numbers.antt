-- ===== src/Examples/Numbers.antt =====
-- The theorem on trade numbers, applied.
use twinstudio.Base.{String, ◌≡◌, ◌≢◌, refl, true, ok}
use twinstudio.Gtin.{complete_gtin, validate_gtin}
use twinstudio.Gtin.CheckDigit.{IsOneOff}
use twinstudio.Gtin.Completion.{complete_gtin-IsOneOff}

complete_gtin-IsOneOff_example :
    (validate_gtin "4006381333931" ≡ ok true)
    × ((w : String) → IsOneOff "4006381333931" w → validate_gtin w ≢ ok true)
unfolding complete_gtin
complete_gtin-IsOneOff_example = complete_gtin-IsOneOff "400638133393" "4006381333931" 13 refl
