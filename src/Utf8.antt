-- ===== src/Utf8.antt =====
-- `String::from_utf8` and the invariant of `String`: a text is a byte string that is valid UTF-8
-- (RFC 3629). `missing` continuation bytes are still to come, the next one from `lo` to `hi`.
use hench_db.Prelude.{ℕ, ◌-◌, ◌≡◌, Bool, true, false, ◌&&◌, [], ◌∷◌, ltb, leb, ◌==◌, if◌then◌else◌}
use hench_db.Bytes.{Bytes}

record Follow : Type 0 where
  missing : ℕ
  lo : ℕ
  hi : ℕ
  valid : Bool

abbrev follow : ℕ → ℕ → ℕ → Follow
follow n lo hi = record { missing = n; lo = lo; hi = hi; valid = true }

-- What follows a byte that starts a character.
lead : ℕ → Follow
lead b =
    if ltb b 0x80
    then follow 0 0x80 0xBF
    else if leb 0xC2 b && leb b 0xDF
    then follow 1 0x80 0xBF
    else if b == 0xE0
    then follow 2 0xA0 0xBF
    else if b == 0xED
    then follow 2 0x80 0x9F
    else if leb 0xE1 b && leb b 0xEF
    then follow 2 0x80 0xBF
    else if b == 0xF0
    then follow 3 0x90 0xBF
    else if leb 0xF1 b && leb b 0xF3
    then follow 3 0x80 0xBF
    else if b == 0xF4
    then follow 3 0x80 0x8F
    else record { missing = 0; lo = 0; hi = 0; valid = false }

utf8_step : Follow → ℕ → Follow
unfolding lead
utf8_step s b =
    if s.missing == 0
    then lead b
    else record { missing = s.missing - 1; lo = 0x80; hi = 0xBF; valid = leb s.lo b && leb b s.hi }

utf8_run : Follow → Bytes → Bool
utf8_run s [] = s.missing == 0
utf8_run s (b ∷ bs) = (utf8_step s b).valid && utf8_run (utf8_step s b) bs

unfoldable pub valid_utf8 : Bytes → Bool
unfolding utf8_run utf8_step
valid_utf8 = utf8_run (follow 0 0x80 0xBF)

abbrev pub IsText : Bytes → Type 0
IsText s = valid_utf8 s ≡ true
