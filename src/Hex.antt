-- ===== src/Hex.antt =====
-- `hex_encode` of src/store/mod.rs: lower-case hexadecimal, two digits to a byte.
use npmfilter.Prelude.{ℕ, ◌/◌, ◌%◌, String, List, [], ◌∷◌}
use npmfilter.Prelude.Text.{format, pick, lower_digits}

unfoldable pub hex_encode : List ℕ → String
unfolding format pick
hex_encode [] = ""
hex_encode (byte ∷ bytes) =
    format (pick lower_digits (byte / 16) ∷ pick lower_digits (byte % 16) ∷ hex_encode bytes ∷ [])
