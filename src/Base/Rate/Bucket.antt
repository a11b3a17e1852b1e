-- ===== src/Base/Rate/Bucket.antt =====
-- How the token bucket of winterfell/base/wf_rate.cc behaves over time.
use winterfell.Prelude.{ℕ, zero, suc, ◌≡◌, refl, ap, false, List, [], ◌∷◌, arith, replicate}
use winterfell.Prelude.Int.{ℤ, pos, ◌≤ℤ◌, ltb_ℤ, -ℤ_parts}
use winterfell.Base.Timestamp.{Timestamp, before, sub}
use winterfell.Base.Rate.{
  Doubles, Limiter, Reservation, elapsed, reserve_n, reserve_all, delay, infinite,
}

module _ (d : Doubles) where
  -- The time that `advance` counts is never negative, also when the clock has gone back to before the
  -- last reservation.
  pub elapsed-nonneg : (t : Timestamp) (l : Limiter d) → pos 0 ≤ℤ (elapsed d t l).micro_seconds
  unfolding elapsed sub before
  elapsed-nonneg t l = ground (
    arith,
    -ℤ_parts t.micro_seconds l.last.micro_seconds,
    -ℤ_parts t.micro_seconds t.micro_seconds,
  )

  -- No sequence of reservations changes the limit, the burst or the tokens of a limiter: the tokens
  -- that a reservation takes are never taken out of the bucket.
  pub reserve_all-tokens :
      (calls : List (ℤ × Timestamp × Timestamp)) (l : Limiter d)
      → let l' = (reserve_all d calls l).1 in
        (l'.limit ≡ l.limit) × (l'.burst ≡ l.burst) × (l'.tokens ≡ l.tokens)
  unfolding reserve_all reserve_n
  reserve_all-tokens [] l = (refl, refl, refl)
  reserve_all-tokens ((n, now, now') ∷ calls) l =
      ground (arith, reserve_all-tokens calls (reserve_n d n now now' l).1)

  -- The limiter after a reservation that was granted under a finite limit.
  abbrev at_instant : Timestamp → Limiter d → Limiter d
  at_instant now l = record l { last = now }

  granted_at :
      (n : ℤ) (now now' : Timestamp) (l : Limiter d)
      → d.equal l.limit (infinite d) ≡ false
      → ltb_ℤ l.burst n ≡ false
      → (reserve_n d n now now' l).1 ≡ at_instant now l
  unfolding reserve_n
  granted_at n now now' l h k = rw (h, k)

  repeated :
      (count : ℕ) (n : ℤ) (now now' : Timestamp) (l : Limiter d)
      → d.equal l.limit (infinite d) ≡ false
      → ltb_ℤ l.burst n ≡ false
      → reserve_all d (replicate count (n, now, now')) (at_instant now l)
        ≡ (replicate count (reserve_n d n now now' (at_instant now l)).0, at_instant now l)
  unfolding reserve_all
  repeated zero n now now' l h k = refl
  repeated (suc count) n now now' l h k =
      rw (granted_at n now now' (at_instant now l) h k, repeated count n now now' l h k)

  -- Under a finite limit, after a reservation of no more than the burst, any number of further equal
  -- reservations at the same readings of the clock all get the same answer, with the same time to
  -- act: none waits for the tokens that those before it took.
  pub same_instant :
      (count : ℕ) (n : ℤ) (now now' : Timestamp) (l : Limiter d)
      → d.equal l.limit (infinite d) ≡ false
      → ltb_ℤ l.burst n ≡ false
      → let l' = (reserve_n d n now now' l).1 in
        (reserve_all d (replicate count (n, now, now')) l').0
        ≡ replicate count (reserve_n d n now now' l').0
  same_instant count n now now' l h k =
      rw (granted_at n now now' l h k) (ap (λ p. p.0) (repeated count n now now' l h k))

-- What `delay` returns is never negative.
pub delay-nonneg :
    (d : Doubles) (now : Timestamp) (r : Reservation d) → pos 0 ≤ℤ (delay d now r).micro_seconds
unfolding delay
delay-nonneg d now r = ground arith
