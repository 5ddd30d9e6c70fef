-- ===== src/Address/Lookup.antt =====
-- src/network/address.cc: how `Address::Lookup` cuts a host into the node and the service that it gives to
-- `getaddrinfo`, which is the system's. A host holds no null byte; the null pointer is `none`.
use hpgs.Prelude.{
  ℕ, ◌≡◌, refl, true, false, List, [], ◌∷◌, ◌++◌, Option, none, some, ◌==◌, if◌then◌else◌, All,
  append_assoc,
}

-- `memchr`: what stands before the first such byte, and what stands behind it.
abbrev pub cut_step : ℕ → Option (List ℕ × List ℕ) → Option (List ℕ × List ℕ)
cut_step c none = none
cut_step c (some (front, back)) = some (c ∷ front, back)

pub cut : ℕ → List ℕ → Option (List ℕ × List ℕ)
cut c [] = none
cut c (x ∷ xs) = if x == c then some ([], xs) else cut_step x (cut c xs)

abbrev pub service_after : List ℕ → Option (List ℕ)
service_after [] = none
service_after (c ∷ cs) = if c == b':' then some cs else none

-- The first part, for an IPv6 address in brackets.
abbrev pub bracketed_at : Option (List ℕ × List ℕ) → List ℕ × Option (List ℕ)
bracketed_at none = ([], none)
bracketed_at (some (front, back)) = (front, service_after back)

pub bracketed : List ℕ → List ℕ × Option (List ℕ)
bracketed [] = ([], none)
bracketed (c ∷ cs) = if c == b'[' then bracketed_at (cut b']' cs) else ([], none)

-- The second part. Behind a second colon the pointer stays at the first, and the node stays empty.
abbrev pub plain_again : List ℕ → List ℕ → Option (List ℕ × List ℕ) → List ℕ × Option (List ℕ)
plain_again front back none = (front, some back)
plain_again front back (some more) = ([], some (b':' ∷ back))

abbrev pub plain_at : Option (List ℕ × List ℕ) → List ℕ × Option (List ℕ)
plain_at none = ([], none)
plain_at (some (front, back)) = plain_again front back (cut b':' back)

-- The node, the whole host where none has been cut out.
abbrev pub or_host : List ℕ → List ℕ × Option (List ℕ) → List ℕ × Option (List ℕ)
or_host host ([], service) = (host, service)
or_host host (c ∷ cs, service) = (c ∷ cs, service)

abbrev pub node_or_plain : List ℕ → List ℕ × Option (List ℕ) → List ℕ × Option (List ℕ)
node_or_plain host ([], service) = or_host host (plain_at (cut b':' host))
node_or_plain host (c ∷ cs, service) = (c ∷ cs, service)

-- The node and the service of a host.
unfoldable pub node_service : List ℕ → List ℕ × Option (List ℕ)
node_service host = node_or_plain host (bracketed host)

cut_lem :
    (c : ℕ) (front back : List ℕ)
    → All (λ x. (x == c) ≡ false) front
    → (c == c) ≡ true
    → cut c (front ++ c ∷ back) ≡ some (front, back)
unfolding cut
cut_lem c [] back h same = rw same refl
cut_lem c (x ∷ front) back h same = rw (h.0, cut_lem c front back h.1 same) refl

cut-none : (c : ℕ) (xs : List ℕ) → All (λ x. (x == c) ≡ false) xs → cut c xs ≡ none
unfolding cut
cut-none c [] h = refl
cut-none c (x ∷ xs) h = rw (h.0, cut-none c xs h.1) refl

-- What is neither a colon nor a bracket.
abbrev pub Plain : List ℕ → Type 0
Plain xs = All (λ x. ((x == b':') ≡ false) × ((x == b'[') ≡ false)) xs

no_colons : (xs : List ℕ) → Plain xs → All (λ x. (x == b':') ≡ false) xs
no_colons [] h = tt
no_colons (x ∷ xs) h = (h.0.0, no_colons xs h.1)

-- `name:service` is cut at its colon, `[address]:service` behind its bracket, and `[address]` has no
-- service, whatever colons the address has; a name on its own is the node.
pub node_service_lem :
    (c d : ℕ) (name service address : List ℕ)
    → Plain (c ∷ name)
    → All (λ x. (x == b':') ≡ false) service
    → All (λ x. (x == b']') ≡ false) (d ∷ address)
    → (node_service (c ∷ name ++ b':' ∷ service) ≡ (c ∷ name, some service))
      × (node_service (c ∷ name) ≡ (c ∷ name, none))
      × (node_service (b'[' ∷ d ∷ address ++ b']' ∷ b':' ∷ service) ≡ (d ∷ address, some service))
      × (node_service (b'[' ∷ d ∷ address ++ b']' ∷ []) ≡ (d ∷ address, none))
unfolding node_service bracketed
node_service_lem c d name service address hn hs ha = (
  rw
      (
        hn.0.1,
        cut_lem b':' (c ∷ name) service (no_colons (c ∷ name) hn) refl,
        cut-none b':' service hs,
      )
      refl,
  rw (hn.0.1, cut-none b':' (c ∷ name) (no_colons (c ∷ name) hn)) refl,
  rw (cut_lem b']' (d ∷ address) (b':' ∷ service) ha refl) refl,
  rw (cut_lem b']' (d ∷ address) [] ha refl) refl,
)

-- A name with two colons and no bracket in front is the node as it stands, but with a service: all that
-- follows from the first colon on, that colon included.
pub node_service-colons :
    (c : ℕ) (front between back : List ℕ)
    → Plain (c ∷ front)
    → All (λ x. (x == b':') ≡ false) between
    → let host = c ∷ front ++ b':' ∷ between ++ b':' ∷ back in
      node_service host ≡ (host, some (b':' ∷ between ++ b':' ∷ back))
unfolding node_service bracketed
node_service-colons c front between back hf hb =
    rw (append_assoc front (b':' ∷ between) (b':' ∷ back)) (
      rw
        (
          hf.0.1,
          cut_lem b':' (c ∷ front) (between ++ b':' ∷ back) (no_colons (c ∷ front) hf) refl,
          cut_lem b':' between back hb refl,
        )
        refl)
