-- ===== src/Base/Timestamp/Text.antt =====
-- `toString`, `toFormattedString` and `now` of winterfell/base/wf_timestamp.cc. `gmtime_r` of the C library is
-- a parameter.
pub mod Reading
use winterfell.Prelude.{
  ℕ, ◌+◌, ◌-◌, ◌*◌, Bool, List, [], ◌∷◌, ◌++◌, length, take, replicate, Bytes, codes, decimal,
  if◌then◌else◌,
}
use winterfell.Prelude.Int.{ℤ, pos, negsuc, ◌+ℤ◌, ◌*ℤ◌}
use winterfell.Base.Timestamp.{Timestamp, micro_seconds_per_second, quot, rem}

-- Zeros, or spaces, in front up to this width.
unfoldable pub pad : ℕ → ℕ → Bytes → Bytes
pad filler width text = replicate (width - length text) filler ++ text

-- `%d`
unfoldable pub signed : ℤ → Bytes
signed (pos n) = decimal n
signed (negsuc n) = b'-' ∷ decimal (n + 1)

-- `%04d` and the like: the sign stands before the zeros and counts.
unfoldable pub zero_padded : ℕ → ℤ → Bytes
zero_padded width (pos n) = pad b'0' width (decimal n)
zero_padded width (negsuc n) = b'-' ∷ pad b'0' (width - 1) (decimal (n + 1))

-- `%4d`
unfoldable pub space_padded : ℕ → ℤ → Bytes
space_padded width n = pad b' ' width (signed n)

-- `toString`, in a buffer of 32 bytes.
unfoldable pub to_string : Timestamp → Bytes
to_string t = take 31 (
    signed (quot t.micro_seconds micro_seconds_per_second)
    ++ (b'.' ∷ zero_padded 6 (rem t.micro_seconds micro_seconds_per_second)))

-- `struct tm`, as far as it is printed.
pub record BrokenDown : Type 0 where
  pub tm_year : ℤ
  pub tm_mon : ℤ
  pub tm_mday : ℤ
  pub tm_hour : ℤ
  pub tm_min : ℤ
  pub tm_sec : ℤ

module _ (gmtime : ℤ → BrokenDown) where
  -- `%4d%02d%02d %02d:%02d:%02d`
  unfoldable pub date_text : BrokenDown → Bytes
  date_text tm =
      space_padded 4 (tm.tm_year +ℤ pos 1900)
      ++ (zero_padded 2 (tm.tm_mon +ℤ pos 1)
          ++ (zero_padded 2 tm.tm_mday
              ++ (codes " "
                  ++ (zero_padded 2 tm.tm_hour
                      ++ (codes ":"
                          ++ (zero_padded 2 tm.tm_min
                              ++ (codes ":" ++ zero_padded 2 tm.tm_sec)))))))

  -- `toFormattedString`, in a buffer of 64 bytes. What it prints behind the point is computed by `/`.
  unfoldable pub to_formatted_string : Bool → Timestamp → Bytes
  to_formatted_string show_microseconds t =
      let seconds = quot t.micro_seconds micro_seconds_per_second in
      let microseconds = quot t.micro_seconds micro_seconds_per_second in
      let date = date_text (gmtime seconds) in
      take 63 (if show_microseconds then date ++ (b'.' ∷ zero_padded 6 microseconds) else date)

-- `now`, with what `gettimeofday` stored.
unfoldable pub now : ℤ → ℤ → Timestamp
now tv_sec tv_usec = record { micro_seconds = tv_sec *ℤ pos micro_seconds_per_second +ℤ tv_usec }
