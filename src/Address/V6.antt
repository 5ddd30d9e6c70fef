-- ===== src/Address/V6.antt =====
-- src/network/address.cc: IPv6 addresses. `bytes` are the sixteen of `s6_addr`; an index behind them is
-- `undefined`, as in the parent the shift that the language leaves open.
pub mod Masks
use hpgs.Prelude.Text.{codes, decimal}
use hpgs.Prelude.{
  ℕ, zero, suc, ◌+◌, ◌-◌, ◌*◌, ◌/◌, ◌%◌, Bool, true, false, not, ◌&&◌, List, [], ◌∷◌, ◌++◌, Option,
  none, some, length, get_elem?, set, replicate, ltb, ◌==◌, if◌then◌else◌, bit_and, bit_or,
}
use hpgs.Address.{Answer, undefined, address, create_mask}

pub record IPv6Address : Type 0 where
  pub family : ℕ
  pub port : ℕ
  pub bytes : List ℕ

abbrev pub af_inet6 : ℕ
af_inet6 = 10

-- `IPv6Address::IPv6Address`, of nothing, and of sixteen bytes and a port.
abbrev pub blank_ipv6 : IPv6Address
blank_ipv6 = record { family = af_inet6; port = 0; bytes = replicate 16 0 }

abbrev pub new_ipv6 : List ℕ → ℕ → IPv6Address
new_ipv6 bytes port = record { family = af_inet6; port = port; bytes = bytes }

-- `for(int i = from; i < from + n; ++i) s6_addr[i] = v`.
abbrev pub fill_loop : ℕ → ℕ → ℕ → List ℕ → List ℕ
fill_loop zero from v bytes = bytes
fill_loop (suc n) from v bytes = fill_loop n (suc from) v (set bytes from v)

-- One byte changed by the mask, and the bytes behind it set.
abbrev pub masked_byte :
    IPv6Address → ℕ → (ℕ → ℕ → ℕ) → ℕ → Option ℕ → Option ℕ → Answer IPv6Address
masked_byte a q op v none mask = undefined
masked_byte a q op v (some b) none = undefined
masked_byte a q op v (some b) (some mask) =
    address (record a { bytes = fill_loop (16 - suc q) (suc q) v (set a.bytes q (op b mask)) })

abbrev pub masked : IPv6Address → ℕ → (ℕ → ℕ → ℕ) → ℕ → Answer IPv6Address
masked a prefix_len op v =
    masked_byte a (prefix_len / 8) op v (get_elem? a.bytes (prefix_len / 8))
      (create_mask 8 (prefix_len % 8))

-- `IPv6Address::broadcastAddress`.
unfoldable pub broadcast_address6 : IPv6Address → ℕ → Answer IPv6Address
broadcast_address6 a prefix_len = masked a prefix_len bit_or 0xff

-- `IPv6Address::networkAddress`.
unfoldable pub network_address6 : IPv6Address → ℕ → Answer IPv6Address
network_address6 a prefix_len = masked a prefix_len bit_and 0

abbrev pub subnet_byte : IPv6Address → ℕ → Option ℕ → Option ℕ → Answer IPv6Address
subnet_byte a q none mask = undefined
subnet_byte a q (some b) none = undefined
subnet_byte a q (some b) (some mask) =
    address (record a { bytes = fill_loop q 0 0xff (set a.bytes q (0xff - mask)) })

-- `IPv6Address::subnetMask`.
unfoldable pub subnet_mask6 : ℕ → Answer IPv6Address
subnet_mask6 prefix_len =
    subnet_byte blank_ipv6 (prefix_len / 8) (get_elem? blank_ipv6.bytes (prefix_len / 8))
      (create_mask 8 (prefix_len % 8))

-- `std::hex`, of four digits at most.
abbrev pub hex_digit : ℕ → ℕ
hex_digit d = if ltb d 10 then b'0' + d else b'a' + (d - 10)

abbrev pub hex_within : ℕ → ℕ → List ℕ
hex_within zero n = []
hex_within (suc k) n =
    let front = hex_within k (n / 16) in
    if ltb n 16 then hex_digit n ∷ [] else front ++ hex_digit (n % 16) ∷ []

-- The eight words, in network byte order.
abbrev pub words : List ℕ → List ℕ
words (x ∷ y ∷ rest) = (x * 256 + y) ∷ words rest
words _ = []

abbrev pub hex : ℕ → List ℕ
hex w = hex_within 4 w

-- The loop of `IPv6Address::insert`: `first` is whether `i` is 0, and `previous` is `addr[i - 1]`.
abbrev pub insert_loop : Bool → ℕ → Bool → List ℕ → List ℕ × Bool
insert_loop first previous used_zeros [] = ([], used_zeros)
insert_loop first previous used_zeros (w ∷ ws) =
    let skipped = insert_loop false w used_zeros ws in
    let gap = not first && previous == 0 && not used_zeros in
    let printed = insert_loop false w (if gap then true else used_zeros) ws in
    if w == 0 && not used_zeros then skipped else (
      (if gap then b':' ∷ [] else []) ++ (if first then [] else b':' ∷ []) ++ hex w ++ printed.0,
      printed.1,
    )

abbrev pub last_is_zero : List ℕ → Bool
last_is_zero ws = elim (get_elem? ws 7) [ none ↦ false | some w ↦ w == 0 ]

-- `IPv6Address::insert`.
unfoldable pub insert6 : IPv6Address → List ℕ
insert6 a =
    let ws = words a.bytes in
    let (body, used_zeros) = insert_loop true 0 false ws in
    b'[' ∷ body
    ++ (if not used_zeros && last_is_zero ws then codes "::" else [])
    ++ codes "]:"
    ++ decimal a.port
