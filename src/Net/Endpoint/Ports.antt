-- ===== src/Net/Endpoint/Ports.antt =====
-- What an endpoint of winterfell/net/wf_endpoint.cc tells about its address and port.
use winterfell.Prelude.{
  ℕ, ◌<◌, ◌≡◌, refl, Bool, true, false, ◌∷◌, ◌++◌, Option, some, none, Bytes, codes, decimal,
  decimal_onto, arith,
}
use winterfell.Net.Endpoint.{
  Address, any_address, to_big16, of_port, of_ip_port, dotted, get_ip, get_port, get_ip_port,
}

big_twice : (little : Bool) (n : ℕ) → n < 65536 → to_big16 little (to_big16 little n) ≡ n
unfolding to_big16
big_twice true n h = omega arith
big_twice false n h = omega arith

any_text : dotted any_address ≡ codes "0.0.0.0"
unfolding dotted decimal decimal_onto
any_text = refl

-- On machines of both byte orders a 16-bit port is read back from the endpoint that was made from it. An endpoint
-- is told as its address in dots, a colon and the port: the address that `inet_pton` reads from the text, but
-- 0.0.0.0 for any text that it refuses, such as a host name.
pub of_ip_port_lem :
    (little : Bool) (pton : Bytes → Option Address) (ip : Bytes) (port : ℕ)
    → port < 65536
    → (get_port little (of_port little port) ≡ port)
      × (get_port little (of_ip_port little pton ip port) ≡ port)
      × ((address : Address)
          → pton ip ≡ some address
          → get_ip_port little (of_ip_port little pton ip port)
            ≡ dotted address ++ (b':' ∷ decimal port))
      × (pton ip ≡ none
          → get_ip_port little (of_ip_port little pton ip port)
            ≡ codes "0.0.0.0" ++ (b':' ∷ decimal port))
unfolding of_port of_ip_port get_port get_ip_port get_ip
of_ip_port_lem little pton ip port h = (
  big_twice little port h,
  big_twice little port h,
  λ address e. rw (e, big_twice little port h) refl,
  λ e. rw (e, big_twice little port h, any_text) refl,
)
