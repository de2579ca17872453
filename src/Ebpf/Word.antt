-- ===== src/Ebpf/Word.antt =====
-- The client's address and port, packed in one word (aya-test-ebpf/src/main.rs).
use Prim.Native.Nat.{bit_and, bit_or}
use aya_e_bpf.Prelude.{ℕ, ◌+◌, ◌*◌, ◌/◌, ◌%◌, ◌^◌, ◌<◌, ◌≡◌, arith}
use aya_e_bpf.Prelude.Bits.{bit_or_field, bit_and_mask}

-- `u32::from_be` and `u16::from_be` on a little-endian target.
unfoldable pub from_be32 : ℕ → ℕ
from_be32 n =
    n % 256 * 2 ^ 24 + n / 2 ^ 8 % 256 * 2 ^ 16 + n / 2 ^ 16 % 256 * 2 ^ 8 + n / 2 ^ 24 % 256

unfoldable pub from_be16 : ℕ → ℕ
from_be16 n = n % 256 * 2 ^ 8 + n / 2 ^ 8 % 256

-- `(u32::from_be(ip) as u64) << 16 | (u16::from_be(port) as u64)`
unfoldable pub pack_client : ℕ → ℕ → ℕ
pack_client ip port = bit_or (from_be32 ip * 2 ^ 16 % 2 ^ 64) (from_be16 port)

-- `(packed >> 16) as u32`
unfoldable pub client_ip_of : ℕ → ℕ
client_ip_of packed = packed / 2 ^ 16 % 2 ^ 32

-- `(packed & 0xFFFF) as u16`
unfoldable pub client_port_of : ℕ → ℕ
client_port_of packed = bit_and packed 0xFFFF % 2 ^ 16

pub from_be32-lt : (n : ℕ) → from_be32 n < 2 ^ 32
unfolding from_be32
from_be32-lt n = omega arith

pub from_be16-lt : (n : ℕ) → from_be16 n < 2 ^ 16
unfolding from_be16
from_be16-lt n = omega arith

-- The address and the port come back out of the packed word, in host byte order.
pub unpack-pack :
    (ip port : ℕ)
    → (client_ip_of (pack_client ip port) ≡ from_be32 ip)
      × (client_port_of (pack_client ip port) ≡ from_be16 port)
unfolding pack_client client_ip_of client_port_of
unpack-pack ip port =
    let hi : ℕ = from_be32 ip in
    let lo : ℕ = from_be16 port in
    let fits = from_be32-lt ip in
    let fits' = from_be16-lt port in
    let joined = bit_or_field 16 (from_be32 ip) (from_be16 port) fits' in
    let no_wrap : from_be32 ip * 2 ^ 16 % 2 ^ 64 ≡ from_be32 ip * 2 ^ 16 = omega arith in
    (rw (no_wrap, joined) (omega arith), rw (no_wrap, joined, bit_and_mask 16) (omega arith))

-- Reading a word in the other byte order twice gives it back.
pub from_be32_twice : (n : ℕ) → n < 2 ^ 32 → from_be32 (from_be32 n) ≡ n
unfolding from_be32
from_be32_twice n h = omega arith
