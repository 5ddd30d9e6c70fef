-- ===== src/ByteArray/Codec/Transfer.antt =====
-- What a writer of known bytes puts down, a reader of those bytes takes up.
use hpgs.Prelude.{ℕ, ◌+◌, ◌-◌, ◌^◌, ◌≤◌, ◌≡◌, ap, ap₂, ◌∙◌, arith}
use hpgs.Prelude.{List, length, replicate}
use hpgs.Prelude.{length-append}
use hpgs.ByteArray.{ByteArray, Endian, Result, ok, M, set_position, ◌>>◌}
use hpgs.ByteArray.Inv.{IsValid, flat, slice, length-flat}
use hpgs.ByteArray.Write.{IsWritten}
use hpgs.ByteArray.Position.{IsMoved, set_position-IsMoved}
use hpgs.ByteArray.RoundTrip.{slice-splice, >>=-ok}
use hpgs.Prelude.{◌<◌}
use hpgs.ByteArray.Codec.Stream.{Encodes, Decodes, Ahead}

-- What a writer of `bytes` puts down, a reader of `bytes` set back to its start takes up.
pub Encodes-Decodes :
    {A : Type 0} (fill : ℕ) (e : Endian) (w : M (Unit {0})) (r : M A) (bytes : List ℕ) (a : A)
    (s : ByteArray)
    → Encodes fill e w bytes
    → Decodes e r bytes a
    → IsValid s
    → s.endian ≡ e
    → s.position + length bytes + s.base_size ≤ 2 ^ 64
    → length bytes < 2 ^ 53
    → ((w >> (set_position s.position >> r)) s).0 ≡ ok a
Encodes-Decodes {A} fill e w r bytes a s hw hr v he fits exact =
    ap (λ (o : Result A × ByteArray). o.0)
      (>>=-ok w (λ _. set_position s.position >> r) s written.0
        ∙ >>=-ok (set_position s.position) (λ _. r) t moved.0)
    ∙ (hr u moved.1.valid (moved.1.same_endian ∙ written.1.same_endian ∙ he) ahead).0
  where
    t : ByteArray
    t = (w s).1

    u : ByteArray
    u = (set_position s.position t).1

    written : ((w s).0 ≡ ok tt) × IsWritten fill bytes s t
    written = hw s v he fits exact

    moved : ((set_position s.position t).0 ≡ ok tt) × IsMoved s.position t u
    moved =
        set_position-IsMoved s.position t written.1.valid
          (omega (arith, written.1.grows, v.pos_le, v.size_le))

    ahead : Ahead u bytes
    ahead = record {
      there = omega (arith, moved.1.position, moved.1.size, written.1.size);
      bytes_eq =
          ap₂ (λ i x. slice i (length bytes) x) moved.1.position
            (ap flat moved.1.same_nodes ∙ written.1.bytes)
          ∙ slice-splice s.position bytes _ (
              omega (
                arith,
                length-append (flat s.nodes) (replicate (t.capacity - s.capacity) fill),
                length-flat s.base_size s.nodes v.chunks,
                v.cap_eq,
                v.pos_le,
                v.size_le,
              ));
    }
