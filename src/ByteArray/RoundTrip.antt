-- ===== src/ByteArray/RoundTrip.antt =====
-- What is written at a position is what a read at that position returns.
use hpgs.Prelude.{ℕ, ◌+◌, ◌-◌, ◌^◌, ◌≤◌, ◌<◌, ◌≡◌, refl, ap, ap₂, ◌∙◌, arith}
use hpgs.Prelude.{List, ◌++◌, append-nil, inl}
use hpgs.Prelude.{length, take, drop, replicate, length-append, length-take}
use hpgs.Prelude.{drop-append_add, take-append_add}
use hpgs.ByteArray.{ByteArray, ok, write, read, set_position, M, ◌>>◌, ◌>>=◌}
use hpgs.ByteArray.Inv.{flat, IsValid, splice, slice, length-flat}
use hpgs.ByteArray.Write.{IsWritten, write-IsWritten}
use hpgs.ByteArray.Read.{IsTaken, read-IsTaken}
use hpgs.ByteArray.Position.{IsMoved, set_position-IsMoved}

pub >>=-ok :
    {A B : Type 0} (m : M A) (f : A → M B) (s : ByteArray) {a : A}
    → (m s).0 ≡ ok a
    → (m >>= f) s ≡ f a (m s).1
>>=-ok m f s e = rw (e, ◌>>=◌) refl

-- The slice just written, with any number of bytes read, from the place where it starts.
pub slice-splice :
    (i : ℕ) (buf xs : List ℕ) → i ≤ length xs → slice i (length buf) (splice i buf xs) ≡ buf
slice-splice i buf xs h =
    ap (λ k. take (length buf) (drop k (splice i buf xs))) {y = length (take i xs) + 0}
      (omega (arith, length-take i xs))
    ∙ ap (take (length buf)) (drop-append_add (take i xs) (buf ++ drop (i + length buf) xs) 0)
    ∙ ap (λ k. take k (buf ++ drop (i + length buf) xs)) {y = length buf + 0} (omega arith)
    ∙ take-append_add buf (drop (i + length buf) xs) 0
    ∙ append-nil buf

-- The three calls in a row, as code that writes and reads back makes them.
abbrev pub write_then_read : ℕ → List ℕ → ℕ → M (List ℕ)
write_then_read fill buf size s = (write fill buf >> (set_position s.position >> read size)) s

-- Where the buffer is valid and the new end stays a node below 2 ^ 64, writing some bytes, fewer than 2 ^ 53,
-- moving back to where they start and reading as many returns them, whatever nodes they went into; both
-- calls succeed and the position ends behind the bytes.
pub write_then_read_lem :
    (fill : ℕ) (buf : List ℕ) (s : ByteArray)
    → IsValid s
    → s.position + length buf + s.base_size ≤ 2 ^ 64
    → length buf < 2 ^ 53
    → 0 < length buf
    → let out = write_then_read fill buf (length buf) s in
      (out.0 ≡ ok buf) × IsValid out.1 × (out.1.position ≡ s.position + length buf)
write_then_read_lem fill buf s v fits exact some_left =
    rw run
      (taken.0 ∙ ap ok same_bytes, taken.1.valid, omega (arith, taken.1.position, moved.1.position))
  where
    t : ByteArray
    t = (write fill buf s).1

    u : ByteArray
    u = (set_position s.position t).1

    written : ((write fill buf s).0 ≡ ok tt) × IsWritten fill buf s t
    written = write-IsWritten fill buf s v fits exact

    moved : ((set_position s.position t).0 ≡ ok tt) × IsMoved s.position t u
    moved =
        set_position-IsMoved s.position t written.1.valid
          (omega (arith, written.1.grows, v.pos_le, v.size_le))

    taken :
        ((read (length buf) u).0 ≡ ok (slice u.position (length buf) (flat u.nodes)))
        × IsTaken (length buf) u (read (length buf) u).1
    taken =
        read-IsTaken (length buf) u moved.1.valid
          (omega (arith, moved.1.position, moved.1.size, written.1.size)) (inl some_left)

    run : write_then_read fill buf (length buf) s ≡ read (length buf) u
    run =
        >>=-ok (write fill buf) (λ _. set_position s.position >> read (length buf)) s written.0
        ∙ >>=-ok (set_position s.position) (λ _. read (length buf)) t moved.0

    same_bytes : slice u.position (length buf) (flat u.nodes) ≡ buf
    same_bytes =
        ap₂ (λ i x. slice i (length buf) x) moved.1.position
          (ap flat moved.1.same_nodes ∙ written.1.bytes)
        ∙ slice-splice s.position buf _ (
            omega (
              arith,
              length-append (flat s.nodes) (replicate (t.capacity - s.capacity) fill),
              length-flat s.base_size s.nodes v.chunks,
              v.cap_eq,
              v.pos_le,
              v.size_le,
            ))
