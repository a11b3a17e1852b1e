-- ===== src/Example/EchoRate.antt =====
-- The message callback of the limited echo server, example/echo_rate/server.cc. Each reading of the clock is an
-- argument.
pub mod Same
use winterfell.Prelude.{
  ℕ, ◌^◌, ◌%◌, Bool, true, false, not, List, [], ◌∷◌, ◌++◌, Option, some, none, Run, done, ◌>>=◌,
  if◌then◌else◌,
}
use winterfell.Prelude.Int.{ℤ, pos, ltb_ℤ, pos_part}
use winterfell.Base.Timestamp.{Timestamp}
use winterfell.Base.Rate.{Doubles, Limiter, Reservation, reserve, delay}
use winterfell.Buffer.{ReadResult, failed, received}
use winterfell.Net.TcpConnection.{Connection, Effect, WriteResult, handle_read}
use winterfell.Example.Echo.{Event, reads, flushes}
use winterfell.Example.Echo

-- The readings of the clock: two by `reserve`, one by each call of `delay` that counts.
pub record Readings : Type 0 where
  pub reserved : Timestamp
  pub advanced : Timestamp
  pub asked : Timestamp
  pub slept : Timestamp

module _ (d : Doubles) where
  -- What is done, what `usleep` is called with, as an unsigned int, and the limiter afterwards.
  abbrev pub Answer : Type 0
  Answer = (List Effect × Connection) × List ℕ × Limiter d

  unfoldable pub pauses : Readings → Reservation d → List ℕ
  pauses t r =
      if ltb_ℤ (pos 0) (delay d t.asked r).micro_seconds
      then pos_part (delay d t.slept r).micro_seconds % 2 ^ 32 ∷ []
      else []

  -- `onMessage`
  unfoldable pub on_message : Readings → WriteResult → Limiter d → Connection → Run Answer
  on_message t w l c =
      let (r, l') = reserve d t.reserved t.advanced l in
      if not r.granted
      then done (([], c), [], l')
      else Echo.on_message w c >>= λ p. done (p, pauses t r, l')

  -- What the loop does with the connection.
  unfoldable pub step : Readings → Event → Limiter d → Connection → Run Answer
  step t (reads (received (x ∷ xs)) w) l c = handle_read (received (x ∷ xs)) c >>= λ (fx, c').
      on_message t w l c' >>= λ ((fx', c''), ps, l'). done ((fx ++ fx', c''), ps, l')
  step t (reads (received []) w) l c = Echo.step (reads (received []) w) c >>= λ p. done (p, [], l)
  step t (reads (failed e) w) l c = Echo.step (reads (failed e) w) c >>= λ p. done (p, [], l)
  step t (flushes w) l c = Echo.step (flushes w) c >>= λ p. done (p, [], l)

  unfoldable pub run : List (Readings × Event) → Limiter d → Connection → Run Answer
  run [] l c = done (([], c), [], l)
  run ((t, e) ∷ es) l c = step t e l c >>= λ ((fx, c'), ps, l').
      run es l' c' >>= λ ((fx', c''), ps', l''). done ((fx ++ fx', c''), ps ++ ps', l'')
