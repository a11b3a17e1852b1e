-- ===== src/Net/Endpoint.antt =====
-- The class `Endpoint` of winterfell/net/wf_endpoint.h and winterfell/net/wf_endpoint.cc. The address is the four
-- bytes as they lie in memory, the port a 16-bit word in the order of the network. `inet_pton` of
-- the C library is a parameter.
pub mod Ports
use winterfell.Prelude.{
  ℕ, ◌+◌, ◌*◌, ◌/◌, ◌%◌, Bool, List, [], ◌∷◌, ◌++◌, Option, some, none, Bytes, codes, decimal,
  if◌then◌else◌,
}

pub record Address : Type 0 where
  pub first : ℕ
  pub second : ℕ
  pub third : ℕ
  pub fourth : ℕ

-- `struct sockaddr_in`
pub record Endpoint : Type 0 where
  pub family : ℕ
  pub address : Address
  pub port : ℕ

abbrev pub af_inet : ℕ
af_inet = 2

-- `INADDR_ANY`, and an address that was only cleared.
abbrev pub any_address : Address
any_address = record { first = 0; second = 0; third = 0; fourth = 0 }

-- `htobe16` and `htons`, on a machine that is little-endian or not.
unfoldable pub to_big16 : Bool → ℕ → ℕ
to_big16 little n = if little then n % 256 * 256 + n / 256 % 256 else n % 65536

-- `Endpoint(port)`
unfoldable pub of_port : Bool → ℕ → Endpoint
of_port little port = record {
  family = af_inet;
  address = any_address;
  port = to_big16 little port;
}

-- What `inet_pton` leaves in a cleared address.
abbrev pub read_or_clear : Option Address → Address
read_or_clear none = any_address
read_or_clear (some address) = address

-- `Endpoint(ip, port)`: an address that `inet_pton` refuses is logged and stays cleared.
unfoldable pub of_ip_port : Bool → (Bytes → Option Address) → Bytes → ℕ → Endpoint
of_ip_port little pton ip port = record {
  family = af_inet;
  address = read_or_clear (pton ip);
  port = to_big16 little port;
}

-- `inet_ntoa`
unfoldable pub dotted : Address → Bytes
dotted a =
    decimal a.first
    ++ (b'.' ∷ (decimal a.second ++ (b'.' ∷ (decimal a.third ++ (b'.' ∷ decimal a.fourth)))))

unfoldable pub get_ip : Endpoint → Bytes
get_ip e = dotted e.address

unfoldable pub get_port : Bool → Endpoint → ℕ
get_port little e = to_big16 little e.port

unfoldable pub get_ip_port : Bool → Endpoint → Bytes
get_ip_port little e = get_ip e ++ (b':' ∷ decimal (get_port little e))
