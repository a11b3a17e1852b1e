-- ===== src/Net/Acceptor/Ownership.antt =====
-- Who closes an accepted descriptor of winterfell/net/wf_acceptor.cc.
use winterfell.Prelude.{
  ◌≡◌, refl, Bool, true, false, not, ◌&&◌, Bool-cases, inl, inr, List, [], ◌∷◌, ◌++◌, done, some,
}
use winterfell.Prelude.Int.{ℤ}
use winterfell.Net.Socket.{fd_of, move, destroy, failed_call}
use winterfell.Net.Acceptor.{Acceptor, Fate, handed, closed, handle_read}

-- The descriptors that are closed now, or by the destructor of a socket that was handed on.
abbrev pub to_close : List Fate → List ℤ
to_close [] = []
to_close (handed s ∷ fates) = destroy s ++ to_close fates
to_close (closed fd ∷ fates) = fd ∷ to_close fates

abbrev pub is_handed : List Fate → Bool
is_handed [] = false
is_handed (handed s ∷ fates) = true
is_handed (closed fd ∷ fates) = is_handed fates

-- `handleRead` returns; it hands the socket to the callback exactly if `accept4` succeeded and a callback is
-- set; and what `accept4` returned is closed exactly once, by the owner if it was handed on, by
-- `handleRead` if not.
pub handle_read-to_close :
    (ret : ℤ) (a : Acceptor)
    → (fates : List Fate) × (handle_read ret a ≡ done fates)
      × (is_handed fates ≡ (not (failed_call ret) && a.has_callback))
      × (to_close fates ≡ ret ∷ [])
unfolding handle_read move fd_of destroy
handle_read-to_close ret a = elim (Bool-cases (failed_call ret)) [
  | inl e ↦ (closed ret ∷ [], rw e refl, rw e refl, refl)
  | inr e ↦ elim (Bool-cases a.has_callback) [
    | inl h ↦ (handed (record { sockfd = some ret }) ∷ [], rw (e, h) refl, rw (e, h) refl, refl)
    | inr h ↦ (closed ret ∷ [], rw (e, h) refl, rw (e, h) refl, refl)
  ]
]
