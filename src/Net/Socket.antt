-- ===== src/Net/Socket.antt =====
-- The class `Socket` of winterfell/net/wf_socket.h and winterfell/net/wf_socket.cc, and the functions of
-- winterfell/net/wf_sockets_ops.cc. What a system call returned is an argument; LOG_FATAL ends the
-- program.
use winterfell.Prelude.{
  ℕ, zero, Bool, not, List, [], ◌∷◌, Option, some, none, Run, done, ◌>>=◌, ◌>>◌, assert, follow,
}
use winterfell.Prelude.Int.{ℤ, pos, ltb_ℤ}

-- `sockfd_`: a pointer to the descriptor.
pub record Socket : Type 0 where
  pub sockfd : Option ℤ

abbrev pub new_socket : ℤ → Socket
new_socket fd = record { sockfd = some fd }

-- `fd()`
unfoldable pub fd_of : Socket → Run ℤ
fd_of s = follow s.sockfd

-- The move constructor: the new socket, and the old one.
unfoldable pub move : Socket → Run (Socket × Socket)
move s = fd_of s >>= λ fd. done (new_socket fd, record { sockfd = none })

-- The destructor: the descriptors that it closes.
unfoldable pub destroy : Socket → List ℤ
destroy s = elim s.sockfd [ none ↦ [] | some fd ↦ fd ∷ [] ]

abbrev pub failed_call : ℤ → Bool
failed_call ret = ltb_ℤ ret (pos 0)

-- `sockets::createNonblocking`, with what `socket` returned.
unfoldable pub create_nonblocking : ℤ → Run ℤ
create_nonblocking sockfd = assert (not (failed_call sockfd)) >> done sockfd

-- `sockets::bind` and `sockets::listen`
unfoldable pub bind : ℤ → Run (Unit {0})
bind ret = assert (not (failed_call ret))

unfoldable pub listen : ℤ → Run (Unit {0})
listen ret = assert (not (failed_call ret))

-- `sockets::accept` returns what `accept4` did, also when that failed.
abbrev pub accept : ℤ → ℤ
accept connfd = connfd

-- `sockets::getSocketError`, with the result of `getsockopt`, `errno` and the option.
unfoldable pub get_socket_error : ℤ → ℕ → ℕ → ℕ
get_socket_error (pos zero) errno optval = optval
get_socket_error ret errno optval = errno
