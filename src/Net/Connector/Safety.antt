-- ===== src/Net/Connector/Safety.antt =====
-- Which calls of winterfell/net/wf_connector.cc are safe in which state.
use winterfell.Prelude.{
  Bool-cases, inl, inr, ℕ, ◌≤◌, ◌≡◌, refl, Bool, true, false, not, ◌&&◌, ◌||◌, List, [], ◌∷◌,
  Option, some, none, done, aborted, looping, arith, ◌==◌,
}
use winterfell.Net.Channel.{Channel, disable_all}
use winterfell.Net.Connector.{
  Connector, polls, removed, queue_reset, State, disconnected, connecting, connected, is_state,
  Effect, Step, tell, ConnectResult, success, in_progress, interrupted, already_connected, again,
  address_in_use, address_not_available, refused, unreachable, other, start, stop, retry,
  remove_and_reset_channel, reset_channel, stop_in_loop, begin_connecting, connect, start_in_loop,
  restart, handle_write, handle_error,
}

-- A connector that is connecting has a channel; the delay of a retry is within its limits.
pub record IsValid (c : Connector) : Type 0 where
  pub has_channel : c.state ≡ connecting → (ch : Channel) × (c.channel ≡ some ch)
  pub delay_low : 500 ≤ c.retry_delay
  pub delay_high : c.retry_delay ≤ 30_000

-- What the loop may call.
pub data Event : Type 0 where
  start_called stop_called stop_ran reset_ran error_ran : Event
  start_ran restart_ran : ℕ → ConnectResult → Event
  write_ran : ℕ → Event

unfoldable pub step : Event → Connector → Step
step start_called c = start c
step stop_called c = stop c
step stop_ran c = stop_in_loop c
step reset_ran c = reset_channel c
step error_ran c = handle_error c
step (start_ran sock r) c = start_in_loop sock r c
step (restart_ran sock r) c = restart sock r c
step (write_ran err) c = handle_write err c

-- Did the call of `connect` succeed, or may it still?
abbrev pub is_under_way : ConnectResult → Bool
is_under_way success = true
is_under_way in_progress = true
is_under_way interrupted = true
is_under_way already_connected = true
is_under_way r = false

abbrev pub is_none {ℓ} : {A : Type ℓ} → Option A → Bool
is_none none = true
is_none (some a) = false

-- The events that pass the asserts. A channel is dropped only when no connection is under way.
abbrev pub may_run : Event → Connector → Bool
may_run (start_ran sock r) c =
    is_state c.state disconnected && (not c.wanted || (not (is_under_way r) || is_none c.channel))
may_run (restart_ran sock r) c = not (is_under_way r) || is_none c.channel
may_run (write_ran err) c = not (is_state c.state connected)
may_run reset_ran c = not (is_state c.state connecting)
may_run e c = true

-- The call returns, and leaves a valid connector.
abbrev pub IsSafe : Step → Type 0
IsSafe (done (fx, c)) = IsValid c
IsSafe aborted = ⊥
IsSafe looping = ⊥

tell-IsSafe : (fx : List Effect) (m : Step) → IsSafe m → IsSafe (tell fx m)
tell-IsSafe fx (done (gx, c)) s = s
tell-IsSafe fx aborted s = elim s [ ]
tell-IsSafe fx looping s = elim s [ ]

retry-IsSafe :
    (sock : ℕ) (c : Connector)
    → 500 ≤ c.retry_delay
    → c.retry_delay ≤ 30_000
    → IsSafe (retry sock c)
unfolding retry
retry-IsSafe sock c low high = elim (Bool-cases c.wanted) [
  | inl e ↦
      rw e (record { has_channel = λ e. cc; delay_low = ground arith; delay_high = ground arith })
  | inr e ↦ rw e (record { has_channel = λ e. cc; delay_low = low; delay_high = high })
]

removing-IsSafe :
    (c : Connector) (k : ℕ → Connector → Step)
    → (ch : Channel) × (c.channel ≡ some ch)
    → ((sock : ℕ) (ch : Channel) → IsSafe (k sock (record c { channel = some ch })))
    → IsSafe (remove_and_reset_channel c k)
unfolding remove_and_reset_channel
removing-IsSafe c k (ch, e) s = rw e (
    tell-IsSafe (polls (disable_all ch) ∷ removed (disable_all ch) ∷ queue_reset ∷ [])
      (k ((disable_all ch).fd) (record c { channel = some (disable_all ch) }))
      (s ((disable_all ch).fd) (disable_all ch)))

-- A connector of these parts, for clauses on them.
abbrev of_parts : Bool → State → Option Channel → ℕ → Connector
of_parts w s ch d = record { wanted = w; state = s; channel = ch; retry_delay = d }

opened :
    {w v : Bool} {s : State} {ch : Option Channel} {c : Channel} {d : ℕ}
    → IsValid (of_parts w s ch d)
    → IsValid (of_parts v connecting (some c) d)
opened {c} v = record {
  has_channel = λ e. (c, refl);
  delay_low = v.delay_low;
  delay_high = v.delay_high;
}

start-IsSafe :
    (sock : ℕ) (r : ConnectResult) (ch : Option Channel) (d : ℕ)
    → IsValid (of_parts true disconnected ch d)
    → (not (is_under_way r) || is_none ch) ≡ true
    → IsSafe (connect sock r (of_parts true disconnected ch d))
unfolding connect begin_connecting
start-IsSafe sock success none d v e = opened v
start-IsSafe sock in_progress none d v e = opened v
start-IsSafe sock interrupted none d v e = opened v
start-IsSafe sock already_connected none d v e = opened v
start-IsSafe sock again ch d v e = retry-IsSafe sock _ v.delay_low v.delay_high
start-IsSafe sock address_in_use ch d v e = retry-IsSafe sock _ v.delay_low v.delay_high
start-IsSafe sock address_not_available ch d v e = retry-IsSafe sock _ v.delay_low v.delay_high
start-IsSafe sock refused ch d v e = retry-IsSafe sock _ v.delay_low v.delay_high
start-IsSafe sock unreachable ch d v e = retry-IsSafe sock _ v.delay_low v.delay_high
start-IsSafe sock other ch d v e = v
start-IsSafe sock success (some c) d v e = absurd (ground arith)
start-IsSafe sock in_progress (some c) d v e = absurd (ground arith)
start-IsSafe sock interrupted (some c) d v e = absurd (ground arith)
start-IsSafe sock already_connected (some c) d v e = absurd (ground arith)

-- `restart` sets the state and the delay first.
restarted :
    {w : Bool} {s : State} {ch : Option Channel} {d : ℕ}
    → IsValid (of_parts w s ch d)
    → IsValid (of_parts true disconnected ch 500)
restarted v = record { has_channel = λ e. cc; delay_low = omega arith; delay_high = omega arith }

step_parts :
    (e : Event) (w : Bool) (s : State) (ch : Option Channel) (d : ℕ)
    → IsValid (of_parts w s ch d)
    → may_run e (of_parts w s ch d) ≡ true
    → IsSafe (step e (of_parts w s ch d))
unfolding step restart start stop stop_in_loop reset_channel handle_error start_in_loop handle_write
step_parts start_called w s ch d v e = record {
  has_channel = v.has_channel;
  delay_low = v.delay_low;
  delay_high = v.delay_high;
}
step_parts stop_called w s ch d v e = record {
  has_channel = v.has_channel;
  delay_low = v.delay_low;
  delay_high = v.delay_high;
}
step_parts stop_ran w disconnected ch d v e = v
step_parts stop_ran w connected ch d v e = v
step_parts stop_ran w connecting ch d v e =
    removing-IsSafe _ retry (v.has_channel refl)
      (λ sock c. retry-IsSafe sock _ v.delay_low v.delay_high)
step_parts reset_ran w disconnected ch d v e = record {
  has_channel = λ k. cc;
  delay_low = v.delay_low;
  delay_high = v.delay_high;
}
step_parts reset_ran w connected ch d v e = record {
  has_channel = λ k. cc;
  delay_low = v.delay_low;
  delay_high = v.delay_high;
}
step_parts reset_ran w connecting ch d v e = cc
step_parts error_ran w disconnected ch d v e = v
step_parts error_ran w connected ch d v e = v
step_parts error_ran w connecting ch d v e =
    removing-IsSafe _ retry (v.has_channel refl)
      (λ sock c. retry-IsSafe sock _ v.delay_low v.delay_high)
step_parts (start_ran sock r) false disconnected ch d v e = v
step_parts (start_ran sock r) true disconnected ch d v e = start-IsSafe sock r ch d v e
step_parts (start_ran sock r) w connecting ch d v e = absurd (ground arith)
step_parts (start_ran sock r) w connected ch d v e = absurd (ground arith)
step_parts (restart_ran sock r) w s ch d v e = start-IsSafe sock r ch 500 (restarted v) e
step_parts (write_ran err) w disconnected ch d v e = v
step_parts (write_ran err) w connected ch d v e = absurd (ground arith)
step_parts (write_ran err) w connecting ch d v e =
    removing-IsSafe _ _ (v.has_channel refl) (λ sock c. elim (Bool-cases (err == 0)) [
      | inl z ↦
          rw z
            (record { has_channel = λ k. cc; delay_low = v.delay_low; delay_high = v.delay_high })
      | inr z ↦ rw z (retry-IsSafe sock _ v.delay_low v.delay_high)
    ])

refused_start :
    (sock : ℕ) (r : ConnectResult) (w : Bool) (s : State) (ch : Option Channel) (d : ℕ)
    → may_run (start_ran sock r) (of_parts w s ch d) ≡ false
    → start_in_loop sock r (of_parts w s ch d) ≡ aborted
unfolding start_in_loop connect begin_connecting
refused_start sock r w connecting ch d e = refl
refused_start sock r w connected ch d e = refl
refused_start sock r false disconnected ch d e = absurd (ground arith)
refused_start sock success true disconnected (some c) d e = refl
refused_start sock in_progress true disconnected (some c) d e = refl
refused_start sock interrupted true disconnected (some c) d e = refl
refused_start sock already_connected true disconnected (some c) d e = refl
refused_start sock success true disconnected none d e = absurd (ground arith)
refused_start sock in_progress true disconnected none d e = absurd (ground arith)
refused_start sock interrupted true disconnected none d e = absurd (ground arith)
refused_start sock already_connected true disconnected none d e = absurd (ground arith)
refused_start sock again true disconnected ch d e = absurd (ground arith)
refused_start sock address_in_use true disconnected ch d e = absurd (ground arith)
refused_start sock address_not_available true disconnected ch d e = absurd (ground arith)
refused_start sock refused true disconnected ch d e = absurd (ground arith)
refused_start sock unreachable true disconnected ch d e = absurd (ground arith)
refused_start sock other true disconnected ch d e = absurd (ground arith)

refused_restart :
    (sock : ℕ) (r : ConnectResult) (w : Bool) (s : State) (ch : Option Channel) (d : ℕ)
    → may_run (restart_ran sock r) (of_parts w s ch d) ≡ false
    → restart sock r (of_parts w s ch d) ≡ aborted
unfolding restart
refused_restart sock r w s ch d e = refused_start sock r true disconnected ch 500 e

refused_write :
    (err : ℕ) (w : Bool) (s : State) (ch : Option Channel) (d : ℕ)
    → may_run (write_ran err) (of_parts w s ch d) ≡ false
    → handle_write err (of_parts w s ch d) ≡ aborted
unfolding handle_write
refused_write err w disconnected ch d e = absurd (ground arith)
refused_write err w connecting ch d e = absurd (ground arith)
refused_write err w connected ch d e = refl

-- On a connector that has a channel if it is connecting, and whose delay is from 500 to 30000: a
-- call returns, and leaves such a connector, if it passes may_run: startInLoop needs the state
-- kDisconnected, and if it is to connect and the new socket connects or may still do so, that the
-- last channel has been reset; restart needs the same of the channel, in any state; handlewrite must
-- not come when connected; the channel must not be reset when connecting; start, stop, stopInLoop
-- and handleError always pass. startInLoop, restart and handlewrite abort when they do not pass.
pub step-IsSafe :
    (e : Event) (c : Connector)
    → IsValid c
    → (may_run e c ≡ true → IsSafe (step e c))
      × ((sock : ℕ) (r : ConnectResult)
          → may_run (start_ran sock r) c ≡ false
          → start_in_loop sock r c ≡ aborted)
      × ((sock : ℕ) (r : ConnectResult)
          → may_run (restart_ran sock r) c ≡ false
          → restart sock r c ≡ aborted)
      × ((err : ℕ) → may_run (write_ran err) c ≡ false → handle_write err c ≡ aborted)
step-IsSafe e c v = (
  step_parts e c.wanted c.state c.channel c.retry_delay v,
  λ sock r h. refused_start sock r c.wanted c.state c.channel c.retry_delay h,
  λ sock r h. refused_restart sock r c.wanted c.state c.channel c.retry_delay h,
  λ err h. refused_write err c.wanted c.state c.channel c.retry_delay h,
)
