-- ===== src/Tests/Pollers.antt =====
-- The theorems on the poller at concrete inputs.
use winterfell.Prelude.{
  Ends, none, ◌+◌, sym, ap, subst, ◌∙◌, aborted, looping, ◌≡◌, refl, [], ◌∷◌, true, Run, done,
}
use winterfell.Prelude.Int.{pos}
use winterfell.Net.Channel.{Channel, fresh_channel}
use winterfell.Net.PollPoller.{
  put, Poller, Pointer, fresh_poller, update_channel, add_channel, remove_channel,
}
use winterfell.Net.PollPoller.Updates.{
  added, IsKept, Updated, fresh_poller-IsKept, update_channel-IsKept,
}
use winterfell.Net.PollPoller.Removals.{Leaves, remove_channel-IsKept}
use winterfell.Net.PollPoller.SwitchedOff.{set_all-off, set_all, StaysOff}

-- The channel at n is one for the descriptor n + 3, with interest in reading.
abbrev three : Pointer → Channel
three n = record (fresh_channel (n + 3)) { events = 3 }

abbrev empty : Poller
empty = fresh_poller three

-- What a run leaves.
abbrev left : Poller → Run Poller → Poller
left s (done s') = s'
left s aborted = s
left s looping = s

of_run : {r : Run Poller} {P : Poller → Type 0} (s : Poller) → Ends true r P → r ≡ done s → P s
of_run {P} s (s', e, h) e' = subst P (ap (left s) (sym e ∙ e')) h

-- Pollers with one channel and with two.
abbrev one : Poller
one = added 0 empty

abbrev two : Poller
two = added 1 one

one_runs : update_channel 0 empty ≡ done one
unfolding update_channel add_channel
one_runs = refl

one-IsKept : IsKept one
one-IsKept = (of_run one (update_channel-IsKept 0 empty (fresh_poller-IsKept three)) one_runs).0

two_runs : update_channel 1 one ≡ done two
unfolding update_channel add_channel
two_runs = refl

two-IsKept : IsKept two
two-IsKept = (of_run two (update_channel-IsKept 1 one one-IsKept) two_runs).0

update_channel-IsKept_example : Ends true (update_channel 1 one) (Updated 1 one)
update_channel-IsKept_example = update_channel-IsKept 1 one one-IsKept

-- The first channel is removed, and the second one moves to its place.
remove_channel-IsKept_example :
    Ends true (remove_channel 0 two) (Leaves (put (pos 3) none two.channels))
remove_channel-IsKept_example = remove_channel-IsKept 0 two two-IsKept

set_all-off_example : Ends true (set_all 0 (0 ∷ 3 ∷ 7 ∷ []) two) (StaysOff 0)
set_all-off_example = set_all-off 0 (3 ∷ 7 ∷ []) two two-IsKept refl
