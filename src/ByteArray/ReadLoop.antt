-- ===== src/ByteArray/ReadLoop.antt =====
-- The loop of both `ByteArray::read`s copies the bytes of the chain out.
use hpgs.Prelude.{ℕ, ◌+◌, ◌*◌, ◌-◌, ◌^◌, ◌≤◌, ◌<◌, ◌≡◌, refl, ap, sym, ◌∙◌, arith}
use hpgs.Prelude.{List, [], ◌∷◌, ◌++◌, false, inl, inr, true}
use hpgs.Prelude.{length, take, drop, All, length-drop}
use hpgs.Prelude.{take-append_le, drop-append_le, take_add, drop-drop, drop-append_add}
use hpgs.Prelude.{leb, ◌==◌, if◌then◌else◌, add64, Bool-cases, leb→lt, leb→le}
use hpgs.ByteArray.{Node, Result, ok, err, read_loop}
use hpgs.ByteArray.{copy_out, head_size, after_read}
use hpgs.ByteArray.Inv.{IsNode, flat, slice, next_bounds}

-- What the loop has done when it stops.
pub record ReadFrom (base : ℕ) (tail : List Node) (npos size cur pos : ℕ) (out : List ℕ) (c p : ℕ)
    : Type 0 where
  pub bytes : out ≡ slice npos size (flat tail)
  pub moved : p ≡ pos + size
  pub cur_lo : c * base ≤ cur * base + npos + size
  pub cur_hi : cur * base + npos + size < c * base + base

abbrev pub IsRead : ℕ → List Node → ℕ → ℕ → ℕ → ℕ → Result (List ℕ × ℕ × ℕ) → Type 0
IsRead base tail npos size cur pos (ok (out, c, p)) = ReadFrom base tail npos size cur pos out c p
IsRead base tail npos size cur pos (err e) = ⊥

-- A read of all that is left of the first node, and more.
copy_out_over :
    (n : Node) (more : List ℕ) (npos ncap size : ℕ)
    → npos + ncap ≡ length n
    → ncap ≤ size
    → copy_out n npos ncap ++ slice 0 (size - ncap) more ≡ slice npos size (n ++ more)
copy_out_over n more npos ncap size e h =
    ap (λ x. x ++ take (size - ncap) more) (sym first)
    ∙ ap (λ x. take ncap rest ++ take (size - ncap) x) (sym second)
    ∙ sym (take_add ncap (size - ncap) rest)
    ∙ ap (λ k. take k rest) {y = size} (omega arith)
  where
    rest : List ℕ
    rest = drop npos (n ++ more)

    first : take ncap rest ≡ copy_out n npos ncap
    first =
        rw (drop-append_le npos n more (omega arith))
          (take-append_le ncap (drop npos n) more (omega (arith, length-drop npos n)))

    second : drop ncap rest ≡ more
    second =
        drop-drop ncap npos (n ++ more)
        ∙ ap (λ k. drop k (n ++ more)) {y = length n + 0} (omega arith)
        ∙ drop-append_add n more 0

copy_out-append :
    (n : Node) (more : List ℕ) (npos size : ℕ)
    → npos + size ≤ length n
    → copy_out n npos size ≡ slice npos size (n ++ more)
copy_out-append n more npos size h =
    rw (drop-append_le npos n more (omega arith))
      (sym (take-append_le size (drop npos n) more (omega (arith, length-drop npos n))))

after_read-IsRead :
    (base : ℕ) (n : Node) (rest : List Node) (npos ncap size cur pos : ℕ)
    (r : Result (List ℕ × ℕ × ℕ))
    → length n ≡ base
    → npos + ncap ≡ base
    → ncap < size
    → IsRead base rest 0 (size - ncap) (cur + 1) (pos + ncap) r
    → IsRead base (n ∷ rest) npos size cur pos (after_read (copy_out n npos ncap) r)
after_read-IsRead base n rest npos ncap size cur pos (ok (out, c, p)) hn hc lt w = record {
  bytes =
      ap (λ x. copy_out n npos ncap ++ x) w.bytes
      ∙ copy_out_over n (flat rest) npos ncap size (omega arith) (omega arith);
  moved = omega (arith, w.moved);
  cur_lo = omega (arith, w.cur_lo);
  cur_hi = omega (arith, w.cur_hi);
}
after_read-IsRead base n rest npos ncap size cur pos (err e) hn hc lt w = w

-- A loop over a chain that holds the bytes asked for never follows a null pointer.
pub read_loop-IsRead :
    (base : ℕ) (tail : List Node) (npos ncap size cur pos : ℕ)
    → All (IsNode base) tail
    → ncap ≡ head_size tail - npos
    → npos < base
    → npos + size ≤ length tail * base
    → 0 < size
    → pos + size < 2 ^ 64
    → base < 2 ^ 64
    → IsRead base tail npos size cur pos (read_loop tail npos ncap size cur pos)
unfolding read_loop
read_loop-IsRead base [] npos ncap size cur pos h e lt room some_left small bs =
    absurd (omega arith)
read_loop-IsRead base (n ∷ rest) npos ncap size cur pos (hn, hr) e lt room some_left small bs =
    elim (Bool-cases (leb size ncap)) [
      | inl fits ↦
          rw (nonzero, fits)
            (record {
              bytes = copy_out-append n (flat rest) npos size (omega (arith, fit fits));
              moved = omega arith;
              cur_lo = (next fits).0;
              cur_hi = (next fits).1;
            })
      | inr over ↦
          rw (nonzero, over, wraps (leb→lt _ _ over))
            (after_read-IsRead base n rest npos ncap size cur pos _ hn (omega arith)
              (leb→lt _ _ over)
              (read_loop-IsRead base rest 0 (head_size rest) (size - ncap) (cur + 1) (pos + ncap) hr
                (omega arith) (omega arith) (omega (arith, leb→lt _ _ over))
                (omega (arith, leb→lt _ _ over)) (omega (arith, leb→lt _ _ over)) bs))
    ]
  where
    nonzero : (size == 0) ≡ false
    nonzero = ground arith

    fit : leb size ncap ≡ true → size ≤ ncap
    fit = leb→le size ncap

    wraps : ncap < size → add64 pos ncap ≡ pos + ncap
    wraps h = omega arith

    next :
        leb size ncap ≡ true
        → ((if length n == add64 npos size then cur + 1 else cur) * base ≤ cur * base + npos + size)
          × (cur * base + npos + size
              < (if length n == add64 npos size then cur + 1 else cur) * base + base)
    next fits =
        next_bounds base (length n) npos size cur hn (omega (arith, fit fits)) (omega arith) bs

pub read_loop_nothing :
    (tail : List Node) (npos ncap cur pos : ℕ)
    → read_loop tail npos ncap 0 cur pos ≡ ok ([], cur, pos)
unfolding read_loop
read_loop_nothing [] npos ncap cur pos = refl
read_loop_nothing (n ∷ rest) npos ncap cur pos = refl
