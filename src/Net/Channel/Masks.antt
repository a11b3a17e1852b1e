-- ===== src/Net/Channel/Masks.antt =====
-- What the setters of winterfell/net/wf_channel.h do to the mask. A channel's mask is made by them
-- alone, so it stays below 8.
use Prim.Native.Nat.{bit_and, bit_or}
use winterfell.Prelude.{ℕ, zero, suc, ◌-◌, ◌<◌, ◌^◌, ◌≡◌, refl, Bool, true, false, arith}
use winterfell.Net.Channel.{
  Channel, read_event, overlaps, enable_reading, enable_writing, disable_writing, disable_all,
  is_writing,
}

-- A fact of the eight masks holds of every mask below 8.
below_8 : (P : ℕ → Type 0) → P 0 → P 1 → P 2 → P 3 → P 4 → P 5 → P 6 → P 7 → (x : ℕ) → x < 8 → P x
below_8 P a b c d e f g h zero k = a
below_8 P a b c d e f g h (suc zero) k = b
below_8 P a b c d e f g h (suc (suc zero)) k = c
below_8 P a b c d e f g h (suc (suc (suc zero))) k = d
below_8 P a b c d e f g h (suc (suc (suc (suc zero)))) k = e
below_8 P a b c d e f g h (suc (suc (suc (suc (suc zero))))) k = f
below_8 P a b c d e f g h (suc (suc (suc (suc (suc (suc zero)))))) k = g
below_8 P a b c d e f g h (suc (suc (suc (suc (suc (suc (suc zero))))))) k = h
below_8 P a b c d e f g h (suc (suc (suc (suc (suc (suc (suc (suc n)))))))) k = absurd (omega arith)

abbrev pub is_reading : Channel → Bool
is_reading c = overlaps c.events read_event

-- The mask of a channel that only these setters changed.
abbrev pub IsMask : Channel → Type 0
IsMask c = c.events < 8

-- What a setter must do to the two interests.
abbrev pub Sets : Channel → Bool → Bool → Type 0
Sets c reading writing = IsMask c × (is_reading c ≡ reading) × (is_writing c ≡ writing)

-- On a channel whose mask the setters made, `enableReading` and `enableWriting` add their interest,
-- `disableWriting` takes the write interest away, and each leaves the other interest as it was; but
-- `disableAll` leaves both as they were.
pub setters_lem :
    (c : Channel)
    → IsMask c
    → Sets (enable_reading c) true (is_writing c)
      × Sets (enable_writing c) (is_reading c) true
      × Sets (disable_writing c) (is_reading c) false
      × Sets (disable_all c) (is_reading c) (is_writing c)
unfolding enable_reading enable_writing disable_writing disable_all is_writing
setters_lem c h =
    below_8
      (λ e.
        ((bit_or e 3 < 8)
          × (overlaps (bit_or e 3) 3 ≡ true)
          × (overlaps (bit_or e 3) 4 ≡ overlaps e 4))
        × ((bit_or e 4 < 8)
            × (overlaps (bit_or e 4) 3 ≡ overlaps e 3)
            × (overlaps (bit_or e 4) 4 ≡ true))
        × ((bit_and e (2 ^ 32 - 1 - 4) < 8)
            × (overlaps (bit_and e (2 ^ 32 - 1 - 4)) 3 ≡ overlaps e 3)
            × (overlaps (bit_and e (2 ^ 32 - 1 - 4)) 4 ≡ false))
        × ((bit_or e 0 < 8)
            × (overlaps (bit_or e 0) 3 ≡ overlaps e 3)
            × (overlaps (bit_or e 0) 4 ≡ overlaps e 4)))
      (
        (omega arith, refl, refl),
        (omega arith, refl, refl),
        (omega arith, refl, refl),
        (omega arith, refl, refl),
      )
      (
        (omega arith, refl, refl),
        (omega arith, refl, refl),
        (omega arith, refl, refl),
        (omega arith, refl, refl),
      )
      (
        (omega arith, refl, refl),
        (omega arith, refl, refl),
        (omega arith, refl, refl),
        (omega arith, refl, refl),
      )
      (
        (omega arith, refl, refl),
        (omega arith, refl, refl),
        (omega arith, refl, refl),
        (omega arith, refl, refl),
      )
      (
        (omega arith, refl, refl),
        (omega arith, refl, refl),
        (omega arith, refl, refl),
        (omega arith, refl, refl),
      )
      (
        (omega arith, refl, refl),
        (omega arith, refl, refl),
        (omega arith, refl, refl),
        (omega arith, refl, refl),
      )
      (
        (omega arith, refl, refl),
        (omega arith, refl, refl),
        (omega arith, refl, refl),
        (omega arith, refl, refl),
      )
      (
        (omega arith, refl, refl),
        (omega arith, refl, refl),
        (omega arith, refl, refl),
        (omega arith, refl, refl),
      )
      c.events h
