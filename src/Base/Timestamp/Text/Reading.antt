-- ===== src/Base/Timestamp/Text/Reading.antt =====
-- What the texts of winterfell/base/wf_timestamp.cc tell about the time.
use winterfell.Prelude.{
  ℕ, zero, suc, ◌+◌, ◌-◌, ◌*◌, ◌/◌, ◌%◌, ◌^◌, ◌<◌, ◌≤◌, ◌≡◌, refl, ◌∙◌, Bool, [], ◌∷◌, ◌++◌, length,
  length-append, length-replicate, take_ge, replicate, Bytes, decimal, length-decimal, read_digits,
  read-decimal, decimal-AllDigits, AllDigits, if◌then◌else◌, ◌==◌, arith,
}
use winterfell.Prelude.Int.{ℤ, pos}
use winterfell.Base.Timestamp.{micro_seconds_per_second}
use winterfell.Base.Timestamp.Text.{
  pad, signed, zero_padded, to_string, to_formatted_string, BrokenDown,
}

-- The time that a text of digits, a point and digits stands for.
abbrev pub before_point : Bytes → Bytes
before_point [] = []
before_point (c ∷ cs) = if c == b'.' then [] else c ∷ before_point cs

abbrev pub after_point : Bytes → Bytes
after_point [] = []
after_point (c ∷ cs) = if c == b'.' then cs else after_point cs

abbrev pub read_time : Bytes → ℕ
read_time text =
    read_digits 0 (before_point text) * micro_seconds_per_second + read_digits 0 (after_point text)

split_lem :
    (ds rest : Bytes)
    → AllDigits ds
    → (before_point (ds ++ (b'.' ∷ rest)) ≡ ds) × (after_point (ds ++ (b'.' ∷ rest)) ≡ rest)
split_lem [] rest h = (refl, refl)
split_lem (c ∷ ds) rest h = ground (arith, split_lem ds rest h.1)

zeros_read : (k : ℕ) (ds : Bytes) → read_digits 0 (replicate k b'0' ++ ds) ≡ read_digits 0 ds
unfolding read_digits
zeros_read zero ds = refl
zeros_read (suc k) ds = zeros_read k ds

length-pad : (k : ℕ) (text : Bytes) → length text ≤ k → length (pad b'0' k text) ≡ k
unfolding pad
length-pad k text h = omega (
  arith,
  length-append (replicate (k - length text) b'0') text,
  length-replicate {A = ℕ} (k - length text) b'0',
)

module _ (n : ℕ) (small : n < 2 ^ 63) where
  seconds : ℕ
  seconds = n / 1_000_000

  fraction : ℕ
  fraction = n % 1_000_000

  seconds_short : length (decimal seconds) ≤ 13
  unfolding seconds
  seconds_short = length-decimal 12 (n / 1_000_000) (omega arith)

  fraction_short : length (pad b'0' 6 (decimal fraction)) ≡ 6
  unfolding fraction
  fraction_short =
      length-pad 6 (decimal (n % 1_000_000)) (length-decimal 5 (n % 1_000_000) (omega arith))

  whole : Bytes
  whole = decimal seconds ++ (b'.' ∷ pad b'0' 6 (decimal fraction))

  whole_fits : length whole ≤ 20
  unfolding whole
  whole_fits = omega (
    arith,
    length-append (decimal seconds) (b'.' ∷ pad b'0' 6 (decimal fraction)),
    seconds_short,
    fraction_short,
  )

  padded : read_digits 0 (pad b'0' 6 (decimal fraction)) ≡ fraction
  unfolding pad
  padded = zeros_read (6 - length (decimal fraction)) (decimal fraction) ∙ read-decimal fraction

  -- A time from the epoch on, below the limit of `int64_t`, is printed in at most 20 bytes, so the
  -- buffer of 32 never cuts it, with six digits behind the point; and the text read back is the time.
  pub to_string-read :
      (length (to_string (record { micro_seconds = pos n })) ≤ 20)
      × (length (after_point (to_string (record { micro_seconds = pos n }))) ≡ 6)
      × (read_time (to_string (record { micro_seconds = pos n })) ≡ n)
  unfolding to_string signed zero_padded whole seconds fraction
  to_string-read =
      rw (take_ge 31 whole (omega (arith, whole_fits)), split.0, split.1)
        (whole_fits, fraction_short, value)
    where
      split :
          (before_point whole ≡ decimal seconds)
          × (after_point whole ≡ pad b'0' 6 (decimal fraction))
      split =
          split_lem (decimal seconds) (pad b'0' 6 (decimal fraction)) (decimal-AllDigits seconds)

      value :
          read_digits 0 (decimal seconds) * 1_000_000
            + read_digits 0 (pad b'0' 6 (decimal fraction))
          ≡ n
      value = omega (arith, read-decimal seconds, padded)

-- From the epoch on, the formatted time is the same for all times within a second: what it prints
-- behind the point does not tell the microseconds.
pub to_formatted_string-seconds :
    (gmtime : ℤ → BrokenDown) (show : Bool) (s a b : ℕ)
    → a < 1_000_000
    → b < 1_000_000
    → to_formatted_string gmtime show (record { micro_seconds = pos (s * 1_000_000 + a) })
      ≡ to_formatted_string gmtime show (record { micro_seconds = pos (s * 1_000_000 + b) })
unfolding to_formatted_string
to_formatted_string-seconds gmtime show s a b h k = rw same refl
  where
    same : (s * 1_000_000 + a) / 1_000_000 ≡ (s * 1_000_000 + b) / 1_000_000
    same = omega arith
