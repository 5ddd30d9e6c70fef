-- ===== src/Address/Tests.antt =====
-- Addresses of a private network, of documentation, and of files.
use hpgs.Prelude.{
  ℕ, ◌<◌, ◌≤◌, ◌≡◌, refl, [], ◌∷◌, ◌++◌, none, some, length, arith, ◌⊎◌, take, replicate, get_elem?,
  ◌+◌, ◌%◌, ◌^◌,
}
use hpgs.Prelude.Text.{codes, decimal, decimal_within}
use hpgs.Address.{
  null_pointer, undefined, address, IPv4Address, new_ipv4, broadcast_address, network_address,
  subnet_mask, insert, count_bytes,
}
use hpgs.Address.Count.{count_bytes_lem}
use hpgs.Address.Lookup.{node_service, node_service-colons}
use hpgs.Address.Masks.{broadcast_address_lem, subnet_mask_lem}
use hpgs.Address.Order.{Address, less, equal, OneOf, less-OneOf}
use hpgs.Address.Unix.{UnixAddress, new_unix, get_path, get_path-new_unix, get_path-abstract}
use hpgs.Address.V6.{
  IPv6Address, new_ipv6, blank_ipv6, insert6, broadcast_address6, network_address6, subnet_mask6,
}
use hpgs.Address.V6.Masks.{broadcast_address6_lem, network_address6_lem}

-- 192.168.1.77, port 80.
abbrev host : IPv4Address
host = new_ipv4 0xc0a8_014d 80

broadcast : broadcast_address host 24 ≡ address (new_ipv4 0xc0a8_01ff 80)
unfolding broadcast_address
broadcast = refl

-- The network is 192.168.1.0, and not 0.0.0.77.
network : network_address host 24 ≡ address (new_ipv4 77 80)
unfolding network_address
network = refl

subnet : subnet_mask 24 ≡ address (new_ipv4 0xffff_ff00 0)
unfolding subnet_mask
subnet = refl

shown : insert host ≡ codes "192.168.1.77:80"
unfolding insert decimal decimal_within
shown = refl

counted : count_bytes 32 0xffff_ff00 ≡ some 24
unfolding count_bytes
counted = refl

-- 2001:db8::1, port 80.
abbrev host6 : IPv6Address
host6 = new_ipv6 (0x20 ∷ 1 ∷ 0x0d ∷ 0xb8 ∷ replicate 11 0 ++ 1 ∷ []) 80

shown6 : insert6 host6 ≡ codes "[2001:db8::1]:80"
unfolding insert6 decimal decimal_within
shown6 = refl

shown_blank : insert6 blank_ipv6 ≡ codes "[::]:0"
unfolding insert6 decimal decimal_within
shown_blank = refl

subnet6 : subnet_mask6 20 ≡ address (new_ipv6 (0xff ∷ 0xff ∷ 0xf0 ∷ replicate 13 0) 0)
unfolding subnet_mask6
subnet6 = refl

broadcast_address_lem_example :
    ((32 < 24) × (broadcast_address host 24 ≡ null_pointer))
    ⊎ ((24 < 2) × (broadcast_address host 24 ≡ undefined))
    ⊎ ((b : ℕ) × (broadcast_address host 24 ≡ address (record host { addr = b }))
        × (b + 0xc0a8_014d % 256 ≡ 0xc0a8_014d + 255)
        × (b < 2 ^ 32))
broadcast_address_lem_example = broadcast_address_lem host 24 (omega arith)

subnet_mask_lem_example : subnet_mask 20 ≡ address (new_ipv4 0xffff_f000 0)
subnet_mask_lem_example = subnet_mask_lem 20 (omega arith) (omega arith)

broadcast_address6_lem_example :
    ((128 ≤ 20) × (broadcast_address6 host6 20 ≡ undefined))
    ⊎ ((b b' : ℕ) × (get_elem? host6.bytes 2 ≡ some b)
        × (broadcast_address6 host6 20
            ≡ address (record host6 { bytes = take 2 host6.bytes ++ b' ∷ replicate 13 255 }))
        × (b' + b % 16 ≡ b + 15))
broadcast_address6_lem_example = broadcast_address6_lem host6 20 refl

network_address6_lem_example :
    ((128 ≤ 20) × (network_address6 host6 20 ≡ undefined))
    ⊎ ((b : ℕ) × (get_elem? host6.bytes 2 ≡ some b)
        × (network_address6 host6 20
            ≡ address (record host6 { bytes = take 2 host6.bytes ++ (b % 16) ∷ replicate 13 0 })))
network_address6_lem_example = network_address6_lem host6 20 refl

count_bytes_lem_example : (count_bytes 8 0xf0 ≡ some 4) × (4 ≤ 8)
count_bytes_lem_example = count_bytes_lem 8 0xf0 (omega arith)

abbrev short_address : Address
short_address = record { bytes = 1 ∷ 2 ∷ []; addrlen = 1 }

abbrev long_address : Address
long_address = record { bytes = 1 ∷ 2 ∷ []; addrlen = 2 }

abbrev last_address : Address
last_address = record { bytes = 3 ∷ []; addrlen = 1 }

less-OneOf_example :
    OneOf
      (less short_address long_address)
      (equal short_address long_address)
      (less long_address short_address)
less-OneOf_example = less-OneOf short_address long_address (omega arith) (omega arith)

two_colons : node_service (codes "f::1") ≡ (codes "f::1", some (codes "::1"))
two_colons = node_service-colons b'f' [] [] (codes "1") ((refl, refl), tt) tt

get_path-new_unix_example :
    ((107 < 2) × (new_unix (codes "/s") ≡ none))
    ⊎ ((a : UnixAddress) × (new_unix (codes "/s") ≡ some a)
        × (a.m_length ≡ 1 + 4)
        × (a.m_length ≤ 110)
        × (length a.sun_path ≡ 108)
        × (get_path a ≡ codes "/s"))
get_path-new_unix_example = get_path-new_unix b'/' (codes "s") (refl, (refl, tt)) (omega arith)

get_path-abstract_example :
    ((108 < 2) × (new_unix (0 ∷ codes "s") ≡ none))
    ⊎ ((a : UnixAddress) × (new_unix (0 ∷ codes "s") ≡ some a)
        × (a.m_length ≡ 1 + 3)
        × (a.m_length ≤ 110)
        × (get_path a ≡ codes "\\0" ++ codes "s"))
get_path-abstract_example = get_path-abstract (codes "s") (omega arith)
