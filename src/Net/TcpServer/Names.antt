-- ===== src/Net/TcpServer/Names.antt =====
-- The names that winterfell/net/wf_tcp_server.cc gives to connections.
use mathlib.Core.List.{append_cancel_left}
use winterfell.Prelude.{
  ℕ, ◌^◌, ◌<◌, ◌≡◌, sym, ap, ◌∙◌, ◌∷◌, take, take_ge, drop, Bytes, bytes_eq, bytes_eq→eq,
  bytes_eq_refl, decimal, length-decimal, decimal_inj, Bool-cases, inl, inr, arith, ◌==◌,
}
use winterfell.Net.TcpServer.{conn_name}

whole : (id : ℕ) → id < 2 ^ 31 → take 31 (b'#' ∷ decimal id) ≡ b'#' ∷ decimal id
whole id h = take_ge 31 (b'#' ∷ decimal id) (omega (arith, length-decimal 9 id))

-- Numbers of the type `int` get different names.
pub conn_name_inj :
    (name : Bytes) (j k : ℕ) → j < 2 ^ 31 → k < 2 ^ 31 → conn_name name j ≡ conn_name name k → j ≡ k
unfolding conn_name
conn_name_inj name j k h l e =
    decimal_inj j k (ap (drop 1) (sym (whole j h) ∙ append_cancel_left name _ _ e ∙ whole k l))

pub conn_name-eq :
    (name : Bytes) (j k : ℕ)
    → j < 2 ^ 31
    → k < 2 ^ 31
    → bytes_eq (conn_name name j) (conn_name name k) ≡ (j == k)
conn_name-eq name j k h l = elim (Bool-cases (j == k)) [
  | inl e ↦
      let same : j ≡ k = ground (arith, e) in
      rw (same, bytes_eq_refl (conn_name name k)) (ground arith)
  | inr e ↦ elim (Bool-cases (bytes_eq (conn_name name j) (conn_name name k))) [
    | inl b ↦ absurd (ground (arith, e, conn_name_inj name j k h l (bytes_eq→eq _ _ b)))
    | inr b ↦ b ∙ sym e
  ]
]
