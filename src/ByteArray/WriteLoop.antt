-- ===== src/ByteArray/WriteLoop.antt =====
-- The loop of `ByteArray::write` overwrites the bytes of the chain in place.
use hpgs.Prelude.{ℕ, ◌+◌, ◌*◌, ◌-◌, ◌^◌, ◌≤◌, ◌<◌, ◌≡◌, refl, ap, sym, ◌∙◌, arith}
use hpgs.Prelude.{List, [], ◌∷◌, ◌++◌, append_assoc, append-nil, true, false, inl, inr}
use hpgs.Prelude.{length, take, drop, All, length-append, length-take, length-drop}
use hpgs.Prelude.{take-append_le, drop-append_le, take-append-drop, drop-append_add, drop_all}
use hpgs.Prelude.{leb, ◌==◌, if◌then◌else◌, add64, Bool-cases, leb→lt, leb→le}
use hpgs.ByteArray.{Node, Result, ok, err, copy_in, head_size, after_write, write_loop}
use hpgs.ByteArray.Inv.{IsNode, flat, splice, next_bounds}

-- What the loop has done when it stops.
pub record WroteTo (base : ℕ) (tail : List Node) (npos : ℕ) (buf : List ℕ) (cur pos : ℕ)
    (t : List Node) (c p : ℕ) : Type 0 where
  pub bytes : flat t ≡ splice npos buf (flat tail)
  pub chunks : All (IsNode base) t
  pub same : length t ≡ length tail
  pub moved : p ≡ pos + length buf
  pub cur_lo : c * base ≤ cur * base + npos + length buf
  pub cur_hi : cur * base + npos + length buf < c * base + base

abbrev pub Wrote : ℕ → List Node → ℕ → List ℕ → ℕ → ℕ → Result (List Node × ℕ × ℕ) → Type 0
Wrote base tail npos buf cur pos (ok (t, c, p)) = WroteTo base tail npos buf cur pos t c p
Wrote base tail npos buf cur pos (err e) = ⊥

length-copy_in :
    (n : Node) (npos : ℕ) (bytes : List ℕ)
    → npos + length bytes ≤ length n
    → length (copy_in n npos bytes) ≡ length n
length-copy_in n npos bytes h = omega (
  arith,
  length-append (take npos n) (bytes ++ drop (npos + length bytes) n),
  length-append bytes (drop (npos + length bytes) n),
  length-take npos n,
  length-drop (npos + length bytes) n,
)

-- A write that fits the first node.
copy_in-append :
    (n : Node) (more : List ℕ) (npos : ℕ) (bytes : List ℕ)
    → npos + length bytes ≤ length n
    → copy_in n npos bytes ++ more ≡ splice npos bytes (n ++ more)
copy_in-append n more npos bytes h = rw (
  take-append_le npos n more (omega arith),
  drop-append_le (npos + length bytes) n more h,
  append_assoc,
  append_assoc,
)

-- A write that fills the first node, and goes on in the next.
copy_in_over :
    (n : Node) (more : List ℕ) (npos ncap : ℕ) (buf : List ℕ)
    → npos + ncap ≡ length n
    → ncap ≤ length buf
    → copy_in n npos (take ncap buf) ++ splice 0 (drop ncap buf) more ≡ splice npos buf (n ++ more)
copy_in_over n more npos ncap buf e h =
    rw (cut_n, append-nil, cut_more, append_assoc, joined, take-append_le npos n more (omega arith))
  where
    left : List ℕ
    left = drop (length buf - ncap) more

    cut_n : drop (npos + length (take ncap buf)) n ≡ []
    cut_n = drop_all _ n (omega (arith, length-take ncap buf))

    cut_more : drop (0 + length (drop ncap buf)) more ≡ left
    cut_more = ap (λ k. drop k more) {y = length buf - ncap} (omega (arith, length-drop ncap buf))

    cut_both : drop (npos + length buf) (n ++ more) ≡ left
    cut_both =
        ap (λ k. drop k (n ++ more)) {y = length n + (length buf - ncap)} (omega arith)
        ∙ drop-append_add n more (length buf - ncap)

    joined : take ncap buf ++ (drop ncap buf ++ left) ≡ buf ++ drop (npos + length buf) (n ++ more)
    joined =
        sym (append_assoc (take ncap buf) (drop ncap buf) left)
        ∙ ap (λ x. x ++ left) (take-append-drop ncap buf)
        ∙ ap (λ x. buf ++ x) (sym cut_both)

after_write-Wrote :
    (base : ℕ) (n : Node) (rest : List Node) (npos ncap : ℕ) (buf : List ℕ) (cur pos : ℕ)
    (r : Result (List Node × ℕ × ℕ))
    → length n ≡ base
    → npos + ncap ≡ base
    → ncap < length buf
    → Wrote base rest 0 (drop ncap buf) (cur + 1) (pos + ncap) r
    → Wrote base (n ∷ rest) npos buf cur pos (after_write (copy_in n npos (take ncap buf)) r)
after_write-Wrote base n rest npos ncap buf cur pos (ok (t, c, p)) hn hc lt w = record {
  bytes =
      ap (λ x. copy_in n npos (take ncap buf) ++ x) w.bytes
      ∙ copy_in_over n (flat rest) npos ncap buf (omega arith) (omega arith);
  chunks =
      (length-copy_in n npos (take ncap buf) (omega (arith, length-take ncap buf)) ∙ hn, w.chunks);
  same = omega (arith, w.same);
  moved = omega (arith, w.moved, length-drop ncap buf);
  cur_lo = omega (arith, w.cur_lo, length-drop ncap buf);
  cur_hi = omega (arith, w.cur_hi, length-drop ncap buf);
}
after_write-Wrote base n rest npos ncap buf cur pos (err e) hn hc lt w = w

-- A loop with room for its bytes never follows a null pointer, and writes all of them.
pub write_loop-Wrote :
    (base : ℕ) (tail : List Node) (npos ncap : ℕ) (buf : List ℕ) (cur pos : ℕ)
    → All (IsNode base) tail
    → ncap ≡ head_size tail - npos
    → npos < base
    → npos + length buf ≤ length tail * base
    → 0 < length buf
    → pos + length buf < 2 ^ 64
    → base < 2 ^ 64
    → Wrote base tail npos buf cur pos (write_loop tail npos ncap buf cur pos)
unfolding write_loop
write_loop-Wrote base [] npos ncap buf cur pos h e lt room some_left small bs = absurd (omega arith)
write_loop-Wrote base (n ∷ rest) npos ncap buf cur pos (hn, hr) e lt room some_left small bs =
    elim (Bool-cases (leb (length buf) ncap)) [
      | inl fits ↦
          rw (nonzero, fits)
            (record {
              bytes = copy_in-append n (flat rest) npos buf (omega (arith, fit fits));
              chunks = (length-copy_in n npos buf (omega (arith, fit fits)) ∙ hn, hr);
              same = refl;
              moved = omega arith;
              cur_lo = (next fits).0;
              cur_hi = (next fits).1;
            })
      | inr over ↦
          rw (nonzero, over, wraps (leb→lt _ _ over))
            (after_write-Wrote base n rest npos ncap buf cur pos _ hn (omega arith)
              (leb→lt _ _ over)
              (write_loop-Wrote base rest 0 (head_size rest) (drop ncap buf) (cur + 1) (pos + ncap)
                hr (omega arith) (omega arith)
                (omega (arith, length-drop ncap buf, leb→lt _ _ over))
                (omega (arith, length-drop ncap buf, leb→lt _ _ over))
                (omega (arith, length-drop ncap buf, leb→lt _ _ over)) bs))
    ]
  where
    nonzero : (length buf == 0) ≡ false
    nonzero = ground arith

    fit : leb (length buf) ncap ≡ true → length buf ≤ ncap
    fit = leb→le (length buf) ncap

    wraps : ncap < length buf → add64 pos ncap ≡ pos + ncap
    wraps h = omega arith

    next :
        leb (length buf) ncap ≡ true
        → ((if length n == add64 npos (length buf) then cur + 1 else cur) * base
            ≤ cur * base + npos + length buf)
          × (cur * base + npos + length buf
              < (if length n == add64 npos (length buf) then cur + 1 else cur) * base + base)
    next fits =
        next_bounds base (length n) npos (length buf) cur hn (omega (arith, fit fits)) (omega arith)
          bs
