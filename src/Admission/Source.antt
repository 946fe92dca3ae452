-- ===== src/Admission/Source.antt =====
-- internal/admission/source.go, and what it uses of `net/netip`: an address is absent, of version 4
-- with its 32 bits, or of version 6 with its 128 bits and its zone.
use activity_relay_directory.Prelude.{
  ℕ, ◌/◌, ◌%◌, ◌^◌, Bool, true, false, not, ◌&&◌, ◌==◌, if◌then◌else◌, Bytes, is_empty,
}

pub data Addr : Type 0 where
  zero_addr : Addr
  addr_4 : ℕ → Addr
  addr_6 : ℕ → Bytes → Addr

-- `Unmap`: an IPv4-mapped address, whose first 96 bits are ::ffff, becomes the address of version 4.
unfoldable pub unmap : Addr → Addr
unmap zero_addr = zero_addr
unmap (addr_4 n) = addr_4 n
unmap (addr_6 n zone) = if n / 2 ^ 32 == 0xffff then addr_4 (n % 2 ^ 32) else addr_6 n zone

unfoldable pub is_valid : Addr → Bool
is_valid zero_addr = false
is_valid (addr_4 n) = true
is_valid (addr_6 n zone) = true

unfoldable pub is_unspecified : Addr → Bool
is_unspecified zero_addr = false
is_unspecified (addr_4 n) = n == 0
is_unspecified (addr_6 n zone) = n == 0 && is_empty zone

unfoldable pub is_multicast : Addr → Bool
is_multicast zero_addr = false
is_multicast (addr_4 n) = n / 2 ^ 28 == 0xe
is_multicast (addr_6 n zone) = n / 2 ^ 120 == 0xff

unfoldable pub valid_source_address : Addr → Bool
unfolding is_valid is_unspecified is_multicast
valid_source_address address =
    is_valid address && not (is_unspecified address) && not (is_multicast address)
