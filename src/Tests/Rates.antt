-- ===== src/Tests/Rates.antt =====
-- The theorems on the rate limiter, with whole numbers for the type `double`.
use winterfell.Prelude.{ℕ, ◌*◌, ◌≡◌, refl, not, ◌&&◌, replicate}
use winterfell.Prelude.Int.{ℤ, pos, ◌+ℤ◌, ◌-ℤ◌, ◌*ℤ◌, ltb_ℤ, pos_part}
use winterfell.Base.Timestamp.{Timestamp, quot}
use winterfell.Base.Rate.{Doubles, Limiter, reserve_n, reserve_all}
use winterfell.Base.Rate.Bucket.{same_instant}

abbrev pub whole : Doubles
whole = record {
  Double = ℤ;
  of_ℤ = λ n. n;
  plus = λ a b. a +ℤ b;
  minus = λ a b. a -ℤ b;
  times = λ a b. a *ℤ b;
  over = λ a b. quot a (pos_part b);
  less = ltb_ℤ;
  equal = λ a b. not (ltb_ℤ a b) && not (ltb_ℤ b a);
  largest = pos 1_000_000_000;
  truncate = λ n. n;
}

abbrev pub at_second : ℕ → Timestamp
at_second n = record { micro_seconds = pos (n * 1_000_000) }

-- Two a second, and no more than five at once.
abbrev pub limiter : Limiter whole
limiter = record { limit = pos 2; burst = pos 5; tokens = pos 0; last = at_second 7 }

same_instant_example :
    let l' = (reserve_n whole (pos 4) (at_second 8) (at_second 8) limiter).1 in
    (reserve_all whole (replicate 3 (pos 4, at_second 8, at_second 8)) l').0
    ≡ replicate 3 (reserve_n whole (pos 4) (at_second 8) (at_second 8) l').0
same_instant_example = same_instant whole 3 (pos 4) (at_second 8) (at_second 8) limiter refl refl
