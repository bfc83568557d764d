-- ===== src/Record/Utf8.antt =====
-- `std::str::from_utf8`: which bytes are a text.
use velr.Base.{ℕ, zero, suc, Bool, true, false, ◌&&◌, [], ◌∷◌, leb, ltb, if◌then◌else◌, ◌==◌}
use velr.Base.Word.{Bytes}

-- How many bytes follow a first byte, and the range of the next one; `none` of a wrong first byte.
abbrev lead : ℕ → Bool × ℕ × ℕ × ℕ
lead b =
    if ltb b 0x80
    then (true, 0, 0x80, 0xbf)
    else if leb 0xc2 b && leb b 0xdf
    then (true, 1, 0x80, 0xbf)
    else if b == 0xe0
    then (true, 2, 0xa0, 0xbf)
    else if b == 0xed
    then (true, 2, 0x80, 0x9f)
    else if leb 0xe1 b && leb b 0xef
    then (true, 2, 0x80, 0xbf)
    else if b == 0xf0
    then (true, 3, 0x90, 0xbf)
    else if leb 0xf1 b && leb b 0xf3
    then (true, 3, 0x80, 0xbf)
    else if b == 0xf4
    then (true, 3, 0x80, 0x8f)
    else (false, 0, 0x80, 0xbf)

-- `left` bytes of a character are still to come, the next of them in `lo ..= hi`.
unfoldable pub utf8_loop : ℕ → ℕ → ℕ → Bytes → Bool
utf8_loop zero lo hi [] = true
utf8_loop (suc left) lo hi [] = false
utf8_loop zero lo hi (b ∷ bytes) =
    let (valid, left, lo', hi') = lead b in valid && utf8_loop left lo' hi' bytes
utf8_loop (suc left) lo hi (b ∷ bytes) = leb lo b && leb b hi && utf8_loop left 0x80 0xbf bytes

unfoldable pub is_utf8 : Bytes → Bool
unfolding utf8_loop
is_utf8 = utf8_loop 0 0x80 0xbf
