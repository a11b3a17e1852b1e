-- ===== src/Net/Acceptor.antt =====
-- The class `Acceptor` of winterfell/net/wf_acceptor.h and winterfell/net/wf_acceptor.cc.
pub mod Ownership
use winterfell.Prelude.{
  ℕ, Bool, true, false, not, List, [], ◌∷◌, ◌++◌, Option, some, none, Run, done, aborted, ◌>>=◌,
  ◌>>◌, assert, follow, if◌then◌else◌,
}
use winterfell.Prelude.Int.{ℤ, pos, negsuc, pos_part}
use winterfell.Net.Channel.{Channel, fresh_channel, enable_reading}
use winterfell.Net.Socket.{
  Socket, new_socket, move, destroy, create_nonblocking, bind, listen, accept, failed_call,
}

pub record Acceptor : Type 0 where
  pub accept_socket : Socket
  pub accept_channel : Channel
  -- whether `newConnectionCallback_` is set
  pub has_callback : Bool
  pub listening : Bool

-- The constructor, with what `socket` and `bind` returned. It sets the read callback of the channel.
unfoldable pub new_acceptor : ℤ → ℤ → Run Acceptor
new_acceptor sock_ret bind_ret = do
  fd ← create_nonblocking sock_ret
  bind bind_ret
  done (record {
    accept_socket = new_socket fd;
    accept_channel = record (fresh_channel (pos_part fd)) { has_read = true };
    has_callback = false;
    listening = false;
  })

-- `setNewConnectionCallback`
abbrev pub set_new_connection_callback : Acceptor → Acceptor
set_new_connection_callback a = record a { has_callback = true }

-- `listen`: the channel is updated in the poller.
unfoldable pub start_listening : ℤ → Acceptor → Run Acceptor
start_listening ret a = do
  listen ret
  done (record a { listening = true; accept_channel = enable_reading a.accept_channel })

-- What becomes of an accepted descriptor.
pub data Fate : Type 0 where
  -- it goes to the callback, which owns the socket
  handed : Socket → Fate
  closed : ℤ → Fate

abbrev pub closings : List ℤ → List Fate
closings [] = []
closings (fd ∷ fds) = closed fd ∷ closings fds

-- `handleRead`, with what `accept4` returned. At its end the destructor of its own socket runs.
unfoldable pub handle_read : ℤ → Acceptor → Run (List Fate)
handle_read ret a =
    let connfd = accept ret in
    let sock = new_socket connfd in
    if not (failed_call connfd)
    then (if a.has_callback
        then (move sock >>= λ (given, left). done (handed given ∷ closings (destroy left)))
        else done (closings (destroy sock)))
    else done (closings (destroy sock))
