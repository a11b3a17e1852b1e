-- ===== src/Net/Connector/Attempts.antt =====
-- How long winterfell/net/wf_connector.cc waits between attempts that the server refuses.
use winterfell.Prelude.{
  ℕ, suc, ◌+◌, ◌*◌, ◌^◌, ◌≡◌, refl, ap, ◌∙◌, Bool, true, false, List, [], ◌∷◌, Option, done, arith,
  ◌>>=◌, min,
}
use native.Mathlib.Omega.{pow_step}
use winterfell.Net.Channel.{Channel}
use winterfell.Net.Connector.{
  Connector, disconnected, Effect, close_socket, start_after, init_retry_delay, Step, tell,
  ConnectResult, success, in_progress, interrupted, already_connected, again, address_in_use,
  address_not_available, refused, unreachable, other, retry, connect, start_in_loop,
}

-- The errors of `connect` after which another attempt is made.
abbrev pub is_retried : ConnectResult → Bool
is_retried again = true
is_retried address_in_use = true
is_retried address_not_available = true
is_retried refused = true
is_retried unreachable = true
is_retried r = false

abbrev pub AllRetried : List (ℕ × ConnectResult) → Type 0
AllRetried [] = Unit
AllRetried ((sock, r) ∷ rs) = (is_retried r ≡ true) × AllRetried rs

-- `startInLoop` once for each new socket, as the timers call it.
unfoldable pub attempts : List (ℕ × ConnectResult) → Connector → Step
attempts [] c = done ([], c)
attempts ((sock, r) ∷ rs) c = start_in_loop sock r c >>= λ (es, d). tell es (attempts rs d)

-- The delay before attempt k + 1.
abbrev pub delay_after : ℕ → ℕ
delay_after k = min (500 * 2 ^ k) 30_000

-- What the attempts ask for, the first being attempt k: close the socket, and try again after the delay.
abbrev pub asked : ℕ → List (ℕ × ConnectResult) → List Effect
asked k [] = []
asked k ((sock, r) ∷ rs) = close_socket sock ∷ start_after (delay_after k) ∷ asked (suc k) rs

abbrev pub number {ℓ} : {A : Type ℓ} → List A → ℕ
number [] = 0
number (a ∷ rest) = suc (number rest)

double_delay : (k : ℕ) → min (delay_after k * 2) 30_000 ≡ delay_after (suc k)
double_delay k = go (2 ^ k) (2 ^ suc k) (pow_step 2 k)
  where
    go : (p q : ℕ) → q ≡ 2 * p → min (min (500 * p) 30_000 * 2) 30_000 ≡ min (500 * q) 30_000
    go p q e = ground arith

connect_retried :
    (sock : ℕ) (r : ConnectResult) (c : Connector)
    → is_retried r ≡ true
    → connect sock r c ≡ retry sock c
unfolding connect
connect_retried sock again c e = refl
connect_retried sock address_in_use c e = refl
connect_retried sock address_not_available c e = refl
connect_retried sock refused c e = refl
connect_retried sock unreachable c e = refl
connect_retried sock success c e = cc
connect_retried sock in_progress c e = cc
connect_retried sock interrupted c e = cc
connect_retried sock already_connected c e = cc
connect_retried sock other c e = cc

abbrev pub trying : ℕ → Option Channel → Connector
trying delay ch = record { wanted = true; state = disconnected; channel = ch; retry_delay = delay }

attempt :
    (sock : ℕ) (r : ConnectResult) (k : ℕ) (ch : Option Channel)
    → is_retried r ≡ true
    → start_in_loop sock r (trying (delay_after k) ch)
      ≡ done (close_socket sock ∷ start_after (delay_after k) ∷ [], trying (delay_after (suc k)) ch)
unfolding start_in_loop retry
attempt sock r k ch e =
    connect_retried sock r _ e
    ∙ ap (λ d. done (close_socket sock ∷ start_after (delay_after k) ∷ [], trying d ch))
        (double_delay k)

attempts_from :
    (k : ℕ) (rs : List (ℕ × ConnectResult)) (ch : Option Channel)
    → AllRetried rs
    → attempts rs (trying (delay_after k) ch)
      ≡ done (asked k rs, trying (delay_after (k + number rs)) ch)
unfolding attempts
attempts_from k [] ch a = ap (λ n. done ([], trying (delay_after n) ch)) (omega arith)
attempts_from k ((sock, r) ∷ rs) ch a =
    rw (attempt sock r k ch a.0, attempts_from (suc k) rs ch a.1)
      (ap (λ n. done (asked k ((sock, r) ∷ rs), trying (delay_after n) ch)) (omega arith))

-- A connector that wants to connect, is disconnected, and has the first delay, when every attempt ends with
-- an error that is tried again: after each the socket is closed and the next attempt is asked for,
-- attempt k + 1 after min(500 * 2^k, 30000) milliseconds, counted from zero. No attempt is given up.
pub attempts_lem :
    (rs : List (ℕ × ConnectResult)) (ch : Option Channel)
    → AllRetried rs
    → attempts rs (trying init_retry_delay ch)
      ≡ done (asked 0 rs, trying (delay_after (number rs)) ch)
attempts_lem rs ch a =
    attempts_from 0 rs ch a ∙ ap (λ n. done (asked 0 rs, trying (delay_after n) ch)) (omega arith)
