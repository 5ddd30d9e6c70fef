-- ===== src/ByteArray/Codec/Fixed.antt =====
-- The fixed-width integers of a ByteArray: the byte order on the wire is the buffer's, on any host.
use hpgs.Prelude.{ℕ, zero, suc, ◌/◌, ◌^◌, ◌<◌, ◌≡◌, refl, ap, ap₂, sym, ◌∙◌, arith}
use hpgs.Prelude.{List, [], ◌∷◌, reverse, length, length-append, All, All-append}
use hpgs.ByteArray.{Endian, little, big, ok, read}
use hpgs.ByteArray.Codec.{to_le, from_le, byteswap, to_memory, from_memory, write_fixed, read_fixed}
use hpgs.ByteArray.Codec.{same_endian}
use hpgs.ByteArray.Codec.Stream.{Encodes, Decodes, Encodes-write, Decodes-read}
use hpgs.ByteArray.RoundTrip.{>>=-ok}
use hpgs.ByteArray.Read.{IsTaken}
use mathlib.Core.List.{reverse-append, reverse-reverse}
use native.Mathlib.Nat.{pow-suc}
use mathlib.Core.Path.{subst}
use hpgs.Prelude.{if◌then◌else◌, not}

abbrev pub IsByte : ℕ → Type 0
IsByte b = b < 256

pub length-to_le : (w v : ℕ) → length (to_le w v) ≡ w
unfolding to_le
length-to_le zero v = refl
length-to_le (suc w) v = ap suc (length-to_le w (v / 256))

to_le-IsByte : (w v : ℕ) → All IsByte (to_le w v)
unfolding to_le
to_le-IsByte zero v = tt
to_le-IsByte (suc w) v = (omega arith, to_le-IsByte w (v / 256))

from_le-to_le : (w v : ℕ) → v < 256 ^ w → from_le (to_le w v) ≡ v
unfolding to_le from_le
from_le-to_le zero v h = omega arith
from_le-to_le (suc w) v h = omega (arith, from_le-to_le w (v / 256) (omega (arith, pow-suc 256 w)))

to_le-from_le : (bs : List ℕ) → All IsByte bs → to_le (length bs) (from_le bs) ≡ bs
unfolding to_le from_le
to_le-from_le [] h = refl
to_le-from_le (b ∷ bs) (hb, h) =
    ap₂ ◌∷◌ (omega arith)
      (ap (to_le (length bs)) {y = from_le bs} (omega arith) ∙ to_le-from_le bs h)

length-reverse {ℓ} : {A : Type ℓ} (xs : List A) → length (reverse xs) ≡ length xs
length-reverse [] = refl
length-reverse (x ∷ xs) =
    ap length (reverse-append (x ∷ []) xs)
    ∙ omega (arith, length-append (reverse xs) (x ∷ []), length-reverse xs)

All-reverse {ℓ κ} : {A : Type ℓ} (P : A → Type κ) (xs : List A) → All P xs → All P (reverse xs)
All-reverse P [] h = h
All-reverse P (x ∷ xs) (hx, h) =
    subst (All P) (sym (reverse-append (x ∷ []) xs))
      (All-append P (reverse xs) (x ∷ []) (All-reverse P xs h) (hx, tt))

-- The bytes of a value in a byte order, whatever the machine.
abbrev pub wire : Endian → ℕ → ℕ → List ℕ
wire little w v = to_le w v
wire big w v = reverse (to_le w v)

pub length-wire : (e : Endian) (w v : ℕ) → length (wire e w v) ≡ w
length-wire little w v = length-to_le w v
length-wire big w v = length-reverse (to_le w v) ∙ length-to_le w v

-- The bytes of a swapped value are the bytes of the value from the other end.
to_le-byteswap : (w v : ℕ) → to_le w (byteswap w v) ≡ reverse (to_le w v)
unfolding byteswap
to_le-byteswap w v =
    ap (λ k. to_le k (from_le (reverse (to_le w v)))) (sym (length-wire big w v))
    ∙ to_le-from_le (reverse (to_le w v)) (All-reverse IsByte (to_le w v) (to_le-IsByte w v))

to_memory-wire :
    (e host : Endian) (w v : ℕ)
    → to_memory host w (if not (same_endian e host) then byteswap w v else v) ≡ wire e w v
to_memory-wire little little w v = refl
to_memory-wire little big w v = ap reverse (to_le-byteswap w v) ∙ reverse-reverse (to_le w v)
to_memory-wire big little w v = to_le-byteswap w v
to_memory-wire big big w v = refl

byteswap_twice : (w v : ℕ) → v < 256 ^ w → byteswap w (from_le (reverse (to_le w v))) ≡ v
unfolding byteswap
byteswap_twice w v h =
    ap (λ x. from_le (reverse x)) (to_le-byteswap w v)
    ∙ ap from_le (reverse-reverse (to_le w v))
    ∙ from_le-to_le w v h

from_memory-wire :
    (e host : Endian) (w v : ℕ)
    → v < 256 ^ w
    → (let x = from_memory host (wire e w v) in if same_endian e host then x else byteswap w x) ≡ v
from_memory-wire little little w v h = from_le-to_le w v h
from_memory-wire little big w v h = byteswap_twice w v h
from_memory-wire big little w v h = byteswap_twice w v h
from_memory-wire big big w v h = ap from_le (reverse-reverse (to_le w v)) ∙ from_le-to_le w v h

module _ (fill : ℕ) (e host : Endian) (w v : ℕ) where
  -- A fixed-width writer puts the bytes of the value down in the byte order of the buffer, on a
  -- machine of either order.
  pub write_fixed-Encodes : Encodes fill e (write_fixed fill host w v) (wire e w v)
  unfolding write_fixed
  write_fixed-Encodes s valid he fits exact =
      rw (to_memory-wire s.endian host w v ∙ ap (λ x. wire x w v) he)
        (Encodes-write fill e (wire e w v) s valid he fits exact)

  -- A fixed-width reader takes the value back from such bytes, on a machine of either order.
  pub read_fixed-Decodes : 0 < w → v < 256 ^ w → Decodes e (read_fixed host w) (wire e w v) v
  unfolding read_fixed
  read_fixed-Decodes some_bytes small s valid he h =
      rw (>>=-ok (read w) _ s done, taken.same_endian ∙ he)
        (ap ok (from_memory-wire e host w v small), taken)
    where
      bytes_read : ((read w s).0 ≡ ok (wire e w v)) × IsTaken (length (wire e w v)) s (read w s).1
      bytes_read =
          subst
            (λ k. ((read k s).0 ≡ ok (wire e w v)) × IsTaken (length (wire e w v)) s (read k s).1)
            (length-wire e w v)
            (Decodes-read e (wire e w v) (omega (arith, length-wire e w v)) s valid he h)

      done : (read w s).0 ≡ ok (wire e w v)
      done = bytes_read.0

      taken : IsTaken (length (wire e w v)) s (read w s).1
      taken = bytes_read.1
