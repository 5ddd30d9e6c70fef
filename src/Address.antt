-- ===== src/Address.antt =====
-- src/network/address.cc: masks, IPv4 addresses and the counting of the bits of a mask. A field in network
-- byte order is the number that its bytes stand for, from the most significant, which is what
-- `byteswapOnLittleEndian` makes of it: `|`, `&` and `~` do the same to it in either byte order. A shift
-- that the language leaves undefined, for an `int` of 32 bits, is `undefined`.
pub mod Count
pub mod Masks
pub mod Order
pub mod V6
pub mod Unix
pub mod Lookup
mod Tests
use hpgs.Prelude.Text.{codes, decimal}
use hpgs.Prelude.{
  ℕ, zero, suc, ◌+◌, ◌-◌, ◌/◌, ◌%◌, ◌^◌, Bool, true, false, List, [], ◌∷◌, ◌++◌, Option, none, some,
  ltb, sub64, if◌then◌else◌, bit_and, bit_or,
}

-- What a method gives: a null pointer, nothing that the language defines, or an address.
pub data Answer {ℓ} (A : Type ℓ) : Type ℓ where
  null_pointer : Answer A
  undefined : Answer A
  address : A → Answer A

-- `(1 << (w - bits)) - 1` for a type of `w` bits; `w - bits` is a `size_t`, and neither the shift nor the
-- subtraction may leave an `int`.
abbrev pub shift_mask : ℕ → Option ℕ
shift_mask k = if ltb k 31 then some (2 ^ k - 1) else none

-- `CreateMask`.
abbrev pub create_mask : ℕ → ℕ → Option ℕ
create_mask w bits = shift_mask (sub64 w bits)

-- The loop of `CountBytes`, with a bound on its turns.
abbrev pub count_loop : ℕ → ℕ → ℕ → Option ℕ
count_loop fuel result zero = some result
count_loop zero result (suc v) = none
count_loop (suc fuel) result (suc v) = count_loop fuel (suc result) (bit_and (suc v) v)

-- `CountBytes` of a value of `w` bits.
unfoldable pub count_bytes : ℕ → ℕ → Option ℕ
count_bytes w value = count_loop w 0 value

pub record IPv4Address : Type 0 where
  pub family : ℕ
  pub port : ℕ
  pub addr : ℕ

abbrev pub af_inet : ℕ
af_inet = 2

-- `IPv4Address::IPv4Address` of an address and a port.
abbrev pub new_ipv4 : ℕ → ℕ → IPv4Address
new_ipv4 addr port = record { family = af_inet; port = port; addr = addr }

abbrev pub with_mask : (ℕ → IPv4Address) → Option ℕ → Answer IPv4Address
with_mask make none = undefined
with_mask make (some mask) = address (make mask)

-- `IPv4Address::broadcastAddress`.
unfoldable pub broadcast_address : IPv4Address → ℕ → Answer IPv4Address
broadcast_address a prefix_len =
    if ltb 32 prefix_len
    then null_pointer
    else with_mask (λ mask. record a { addr = bit_or a.addr mask }) (create_mask 32 prefix_len)

-- `IPv4Address::networkAddress`.
unfoldable pub network_address : IPv4Address → ℕ → Answer IPv4Address
network_address a prefix_len =
    if ltb 32 prefix_len
    then null_pointer
    else with_mask (λ mask. record a { addr = bit_and a.addr mask }) (create_mask 32 prefix_len)

-- `IPv4Address::subnetMask`; `~` of a `uint32_t`.
unfoldable pub subnet_mask : ℕ → Answer IPv4Address
subnet_mask prefix_len =
    with_mask (λ mask. record { family = af_inet; port = 0; addr = 2 ^ 32 - 1 - mask })
      (create_mask 32 prefix_len)

-- `IPv4Address::getPort` and `setPort`.
abbrev pub get_port : IPv4Address → ℕ
get_port a = a.port

abbrev pub set_port : IPv4Address → ℕ → IPv4Address
set_port a v = record a { port = v }

-- `IPv4Address::insert`.
pub insert : IPv4Address → List ℕ
insert a =
    decimal (a.addr / 2 ^ 24 % 256)
    ++ b'.' ∷ decimal (a.addr / 2 ^ 16 % 256)
    ++ b'.' ∷ decimal (a.addr / 2 ^ 8 % 256)
    ++ b'.' ∷ decimal (a.addr % 256)
    ++ b':' ∷ decimal a.port
