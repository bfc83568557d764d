-- ===== src/Varint/Tests.antt =====
-- Runs of the varint functions, and their theorems at concrete numbers.
use velr.Base.{◌<◌, ◌≤◌, [], ◌∷◌, ◌++◌, some, length, ◌≡◌, refl, arith}
use velr.Varint.{leading_zeros, varint_len, varint_groups, varint_bytes, read_varint}
use velr.Varint.Length.{Groups, varint_len-Groups}
use velr.Varint.RoundTrip.{read_varint-varint, length-varint}

two_bytes : varint_bytes 300 ≡ 130 ∷ 44 ∷ []
unfolding varint_bytes varint_len varint_groups leading_zeros
two_bytes = refl

read_varint-varint_example : read_varint (varint_bytes 300 ++ (7 ∷ [])) ≡ some (300, 7 ∷ [])
read_varint-varint_example = read_varint-varint 300 (7 ∷ []) (omega arith)

length-varint_example :
    (length (varint_bytes 300) ≡ varint_len 300) × (0 < varint_len 300) × (varint_len 300 ≤ 9)
length-varint_example = length-varint 300

varint_len-Groups_example : Groups 300 (varint_len 300)
varint_len-Groups_example = varint_len-Groups 300 (omega arith)
