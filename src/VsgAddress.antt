-- ===== src/VsgAddress.antt =====
-- vsg_address.rs: an address of the network as the C code has it, a 32-bit number in network byte order.
-- Of `Ipv4Addr` the number whose highest byte is the first of the four is known, and the parser of the
-- standard library is a parameter. The machine is little-endian, so `to_be` swaps the bytes.
use tansiv.Base.{ℕ, ◌+◌, ◌*◌, ◌/◌, ◌%◌, ◌^◌, ◌<◌, ◌≡◌, arith, List, Result, ok, err, panicked}

abbrev pub swap_bytes : ℕ → ℕ
swap_bytes n =
    n % 256 * 2 ^ 24 + n / 2 ^ 8 % 256 * 2 ^ 16 + n / 2 ^ 16 % 256 * 2 ^ 8 + n / 2 ^ 24 % 256

unfoldable pub from_str {ℓ} : {E : Type ℓ} → (List ℕ → Result E ℕ) → List ℕ → Result E ℕ
from_str parse ip = elim (parse ip) [
  | ok ipv4 ↦ ok (swap_bytes ipv4)
  | err e ↦ err e
  | panicked ↦ panicked
]

unfoldable pub to_ipv4addr : ℕ → ℕ
to_ipv4addr address = swap_bytes address

pub swap_bytes_twice : (n : ℕ) → n < 2 ^ 32 → swap_bytes (swap_bytes n) ≡ n
swap_bytes_twice n h = omega arith

-- An address that was parsed is printed as the address that was read.
pub to_ipv4addr-from_str :
    {E : Type 0} (parse : List ℕ → Result E ℕ) (ip : List ℕ) (ipv4 address : ℕ)
    → ipv4 < 2 ^ 32
    → parse ip ≡ ok ipv4
    → from_str parse ip ≡ ok address
    → to_ipv4addr address ≡ ipv4
unfolding from_str to_ipv4addr
to_ipv4addr-from_str parse ip ipv4 address small e h =
    let same : swap_bytes ipv4 ≡ address = cc (rw (from_str, e) at h) in
    rw (← same) (swap_bytes_twice ipv4 small)
