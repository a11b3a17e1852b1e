-- ===== src/Base/Rate.antt =====
-- The token bucket of winterfell/base/wf_rate.h and winterfell/base/wf_rate.cc. Each call of
-- `Timestamp::now()` is an argument. The type `double` and its operations are a parameter.
pub mod Bucket
use winterfell.Prelude.{ℕ, Bool, true, false, not, if◌then◌else◌, List, [], ◌∷◌}
use winterfell.Prelude.Int.{ℤ, pos, ◌+ℤ◌, ◌-ℤ◌, ◌≤ℤ◌, ltb_ℤ, negsuc}
use winterfell.Base.Timestamp.{Timestamp, zero_time, micro_seconds_per_second, before, sub}

-- What the limiter uses of `double`.
pub record Doubles : Type 1 where
  pub Double : Type 0
  pub of_ℤ : ℤ → Double
  pub plus : Double → Double → Double
  pub minus : Double → Double → Double
  pub times : Double → Double → Double
  pub over : Double → Double → Double
  pub less : Double → Double → Bool
  pub equal : Double → Double → Bool
  -- `DBL_MAX`
  pub largest : Double
  -- the conversion to an integer type, which drops the fraction
  pub truncate : Double → ℤ

module _ (d : Doubles) where
  open d use {Double, of_ℤ, plus, minus, times, over, less, equal, largest, truncate}

  -- `seconds_since_epoch_double`
  abbrev seconds_double : Timestamp → Double
  seconds_double t = over (of_ℤ t.micro_seconds) (of_ℤ (pos micro_seconds_per_second))

  -- `addTime`
  unfoldable pub add_time : Timestamp → Double → Timestamp
  add_time t seconds = record {
    micro_seconds =
        t.micro_seconds +ℤ truncate (times seconds (of_ℤ (pos micro_seconds_per_second)));
  }

  -- `Inf`
  abbrev pub infinite : Double
  infinite = largest

  unfoldable pub every : Timestamp → Double
  every interval =
      if not (ltb_ℤ (pos 0) interval.micro_seconds)
      then infinite
      else over (times (of_ℤ (pos 1)) (of_ℤ (pos micro_seconds_per_second)))
          (of_ℤ interval.micro_seconds)

  unfoldable pub duration_from_tokens : Double → Double → Timestamp
  duration_from_tokens limit tokens = record {
    micro_seconds = truncate (times (over tokens limit) (of_ℤ (pos micro_seconds_per_second)));
  }

  pub record Limiter : Type 0 where
    pub limit : Double
    pub burst : ℤ
    pub tokens : Double
    pub last : Timestamp

  -- The constructor.
  unfoldable pub fresh_limiter : Double → ℤ → Limiter
  fresh_limiter limit burst = record {
    limit = limit;
    burst = burst;
    tokens = of_ℤ (pos 0);
    last = zero_time;
  }

  -- `auto last = last_`, moved back if the time is before it.
  unfoldable pub elapsed : Timestamp → Limiter → Timestamp
  elapsed t l = sub t (if before t l.last then t else l.last)

  unfoldable pub advance : Timestamp → Limiter → Double
  advance t l =
      let tokens = plus l.tokens (times l.limit (seconds_double (elapsed t l))) in
      if less (of_ℤ l.burst) tokens then of_ℤ l.burst else tokens

  -- `tokensAt`
  abbrev pub tokens_at : Timestamp → Limiter → Double
  tokens_at t l = advance t l

  abbrev pub set_last : Timestamp → Limiter → Limiter
  set_last t l = record l { last = t }

  pub record Reservation : Type 0 where
    pub granted : Bool
    pub taken : ℤ
    pub time_to_act : Timestamp

  -- `reserveN`: the reservation, and the limiter after it. The time is read at the start, and again
  -- by `tokens()`.
  unfoldable pub reserve_n : ℤ → Timestamp → Timestamp → Limiter → Reservation × Limiter
  reserve_n n now now' l =
      let left = minus (tokens_at now' l) (of_ℤ n) in
      let wait =
        if less left (of_ℤ (pos 0))
        then duration_from_tokens l.limit (minus (of_ℤ (pos 0)) left)
        else zero_time in
      if equal l.limit infinite
      then (record { granted = true; taken = n; time_to_act = now }, l)
      else if not (ltb_ℤ l.burst n)
      then (
        record {
          granted = true;
          taken = truncate left;
          time_to_act = add_time now (seconds_double wait);
        },
        set_last now l,
      )
      else (record { granted = false; taken = truncate left; time_to_act = zero_time }, l)

  abbrev pub reserve : Timestamp → Timestamp → Limiter → Reservation × Limiter
  reserve now now' l = reserve_n (pos 1) now now' l

  -- `Reservation::delay`
  unfoldable pub delay : Timestamp → Reservation → Timestamp
  delay now r =
      let wait = sub r.time_to_act now in
      if r.granted
      then (if ltb_ℤ wait.micro_seconds (pos 0) then zero_time else wait)
      else record { micro_seconds = pos 9_223_372_036_854_775_807 }

  -- Reservations one after another, each at its own two readings of the clock.
  unfoldable pub reserve_all :
      List (ℤ × Timestamp × Timestamp) → Limiter → List Reservation × Limiter
  reserve_all [] l = ([], l)
  reserve_all ((n, now, now') ∷ calls) l =
      let (r, l') = reserve_n n now now' l in let (rs, l'') = reserve_all calls l' in (r ∷ rs, l'')
