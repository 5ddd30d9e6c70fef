-- ===== src/ByteArray/Codec/Stream.antt =====
-- Writers that put known bytes at the position, readers that take known bytes from it, and their
-- composition: the interface through which the codecs use the buffer.
use hpgs.Prelude.{ℕ, ◌+◌, ◌-◌, ◌^◌, ◌≤◌, ◌<◌, ◌≡◌, refl, ap, ap₂, sym, ◌∙◌, arith, inl}
use hpgs.Prelude.{List, [], ◌++◌, length, take, drop, replicate, append_assoc}
use hpgs.Prelude.{
  length-append, length-take, length-drop, replicate-add, length-replicate, append_parts,
}
use hpgs.Prelude.{take_add, drop-drop, drop-append_le, take-append_le}
use hpgs.ByteArray.{ByteArray, Endian, ok, M, write, read, pure, ◌>>=◌, ◌>>◌}
use hpgs.ByteArray.Inv.{IsValid, flat, splice, slice, length-flat, splice-append}
use hpgs.ByteArray.Write.{IsWritten, write-IsWritten}
use hpgs.ByteArray.Read.{IsTaken, read-IsTaken, IsTaken-nothing}
use hpgs.ByteArray.RoundTrip.{>>=-ok}

-- In byte order `e` the writer puts `bytes` at the position, where they fit.
abbrev pub Encodes : ℕ → Endian → M (Unit {0}) → List ℕ → Type 0
Encodes fill e m bytes =
    (s : ByteArray)
    → IsValid s
    → s.endian ≡ e
    → s.position + length bytes + s.base_size ≤ 2 ^ 64
    → length bytes < 2 ^ 53
    → ((m s).0 ≡ ok tt) × IsWritten fill bytes s (m s).1

-- The bytes from the position on.
pub record Ahead (s : ByteArray) (bytes : List ℕ) : Type 0 where
  pub there : s.position + length bytes ≤ s.size
  pub bytes_eq : slice s.position (length bytes) (flat s.nodes) ≡ bytes

-- In byte order `e` the reader returns `a` and moves behind `bytes`, where those are ahead.
abbrev pub Decodes : {A : Type 0} → Endian → M A → List ℕ → A → Type 0
Decodes e m bytes a =
    (s : ByteArray)
    → IsValid s
    → s.endian ≡ e
    → Ahead s bytes
    → ((m s).0 ≡ ok a) × IsTaken (length bytes) s (m s).1

pub Encodes-write :
    (fill : ℕ) (e : Endian) (bytes : List ℕ) → Encodes fill e (write fill bytes) bytes
Encodes-write fill e bytes s v he fits exact = write-IsWritten fill bytes s v fits exact

splice-splice :
    (i : ℕ) (xs ys zs more : List ℕ)
    → i + length xs ≤ length zs
    → splice (i + length xs) ys (splice i xs zs ++ more) ≡ splice i (xs ++ ys) (zs ++ more)
splice-splice i xs ys zs more h =
    ap₂ (λ k l. splice k ys l) at regroup
    ∙ splice-append (front ++ xs) (back ++ more) ys 0
    ∙ append_assoc front xs (ys ++ drop (0 + length ys) (back ++ more))
    ∙ ap₂ (λ x y. x ++ (xs ++ y)) (sym (take-append_le i zs more (omega arith))) tail
    ∙ ap (λ x. take i (zs ++ more) ++ x)
        (sym (append_assoc xs ys (drop (i + length (xs ++ ys)) (zs ++ more))))
  where
    front : List ℕ
    front = take i zs

    back : List ℕ
    back = drop (i + length xs) zs

    at : i + length xs ≡ length (front ++ xs) + 0
    at = omega (arith, length-append front xs, length-take i zs)

    regroup : splice i xs zs ++ more ≡ (front ++ xs) ++ (back ++ more)
    regroup =
        append_assoc front (xs ++ back) more
        ∙ ap (λ x. front ++ x) (append_assoc xs back more)
        ∙ sym (append_assoc front xs (back ++ more))

    tail :
        ys ++ drop (0 + length ys) (back ++ more) ≡ ys ++ drop (i + length (xs ++ ys)) (zs ++ more)
    tail =
        ap (λ x. ys ++ drop (0 + length ys) x) (sym (drop-append_le (i + length xs) zs more h))
        ∙ ap (λ x. ys ++ x) (drop-drop (0 + length ys) (i + length xs) (zs ++ more))
        ∙ ap (λ k. ys ++ drop k (zs ++ more)) {y = i + length (xs ++ ys)}
            (omega (arith, length-append xs ys))

-- Two writes in a row are one write of both.
IsWritten-trans :
    (fill : ℕ) (xs ys : List ℕ) (s t u : ByteArray)
    → IsValid s
    → IsWritten fill xs s t
    → IsWritten fill ys t u
    → IsWritten fill (xs ++ ys) s u
IsWritten-trans fill xs ys s t u v w w' = record {
  valid = w'.valid;
  bytes =
      w'.bytes
      ∙ ap₂ (λ i x. splice i ys (x ++ replicate (u.capacity - t.capacity) fill)) w.position w.bytes
      ∙ splice-splice s.position xs ys grown (replicate (u.capacity - t.capacity) fill) (
          omega (
            arith,
            length-append (flat s.nodes) (replicate (t.capacity - s.capacity) fill),
            length-flat s.base_size s.nodes v.chunks,
            length-replicate (t.capacity - s.capacity) fill,
            v.cap_eq,
            w.grows,
            w.position,
            w.valid.pos_le,
            w.valid.size_le,
          ))
      ∙ ap (splice s.position (xs ++ ys)) fresh;
  position = omega (arith, w.position, w'.position, length-append xs ys);
  size = omega (arith, w.size, w'.size, w.position, length-append xs ys);
  grows = omega (arith, w.grows, w'.grows);
  same_endian = w'.same_endian ∙ w.same_endian;
  same_base = w'.same_base ∙ w.same_base;
}
  where
    grown : List ℕ
    grown = flat s.nodes ++ replicate (t.capacity - s.capacity) fill

    fresh :
        grown ++ replicate (u.capacity - t.capacity) fill
        ≡ flat s.nodes ++ replicate (u.capacity - s.capacity) fill
    fresh =
        append_assoc (flat s.nodes) _ _
        ∙ ap (λ x. flat s.nodes ++ x)
            (sym (replicate-add (t.capacity - s.capacity) (u.capacity - t.capacity) fill))
        ∙ ap (λ k. flat s.nodes ++ replicate k fill) {y = u.capacity - s.capacity}
            (omega (arith, w.grows, w'.grows))

pub Encodes->> :
    (fill : ℕ) (e : Endian) (m k : M (Unit {0})) (xs ys : List ℕ)
    → Encodes fill e m xs
    → Encodes fill e k ys
    → Encodes fill e (m >> k) (xs ++ ys)
Encodes->> fill e m k xs ys hm hk s v he fits exact =
    let (done, w) =
      hm s v he (omega (arith, length-append xs ys)) (omega (arith, length-append xs ys)) in
    let (done', w') =
      hk (m s).1 w.valid (w.same_endian ∙ he)
        (omega (arith, w.position, w.same_base, length-append xs ys))
        (omega (arith, length-append xs ys)) in
    rw (>>=-ok m (λ _. k) s done) (done', IsWritten-trans fill xs ys s (m s).1 _ v w w')

-- The bytes ahead in two parts.
Ahead-append :
    (s : ByteArray) (xs ys : List ℕ)
    → IsValid s
    → Ahead s (xs ++ ys)
    → Ahead s xs × ((t : ByteArray) → IsTaken (length xs) s t → Ahead t ys)
Ahead-append s xs ys v h = (
  record { there = omega (arith, h.there, length-append xs ys); bytes_eq = first },
  λ t k. record {
    there = omega (arith, h.there, length-append xs ys, k.position, k.same_size);
    bytes_eq =
        ap₂ (λ i n. slice i (length ys) (flat n)) k.position k.same_nodes
        ∙ ap (take (length ys)) (sym (drop-drop (length xs) s.position (flat s.nodes)))
        ∙ second;
  },
)
  where
    rest : List ℕ
    rest = drop s.position (flat s.nodes)

    both : take (length xs) rest ++ take (length ys) (drop (length xs) rest) ≡ xs ++ ys
    both =
        sym (take_add (length xs) (length ys) rest)
        ∙ ap (λ k. take k rest) (sym (length-append xs ys))
        ∙ h.bytes_eq

    long : length (take (length xs) rest) ≡ length xs
    long = omega (
      arith,
      length-take (length xs) rest,
      length-drop s.position (flat s.nodes),
      length-flat s.base_size s.nodes v.chunks,
      v.cap_eq,
      v.size_le,
      h.there,
      length-append xs ys,
    )

    first : take (length xs) rest ≡ xs
    first = (append_parts (take (length xs) rest) xs _ _ long both).0

    second : take (length ys) (drop (length xs) rest) ≡ ys
    second = (append_parts (take (length xs) rest) xs _ _ long both).1

IsTaken-trans : (m n : ℕ) (s t u : ByteArray) → IsTaken m s t → IsTaken n t u → IsTaken (m + n) s u
IsTaken-trans m n s t u a b = record {
  valid = b.valid;
  position = omega (arith, a.position, b.position);
  same_nodes = b.same_nodes ∙ a.same_nodes;
  same_size = b.same_size ∙ a.same_size;
  same_capacity = b.same_capacity ∙ a.same_capacity;
  same_endian = b.same_endian ∙ a.same_endian;
  same_base = b.same_base ∙ a.same_base;
}

pub Decodes->>= :
    {A B : Type 0} (e : Endian) (m : M A) (k : A → M B) (xs ys : List ℕ) (a : A) (b : B)
    → Decodes e m xs a
    → Decodes e (k a) ys b
    → Decodes e (m >>= k) (xs ++ ys) b
Decodes->>= e m k xs ys a b hm hk s v he h =
    let (one, two) = Ahead-append s xs ys v h in
    let (done, taken) = hm s v he one in
    let (done', taken') = hk (m s).1 taken.valid (taken.same_endian ∙ he) (two _ taken) in
    rw (>>=-ok m k s done, length-append xs ys)
      (done', IsTaken-trans (length xs) (length ys) s (m s).1 _ taken taken')

pub Decodes-pure :
    {A B : Type 0} (e : Endian) (m : M A) (f : A → B) (xs : List ℕ) (a : A)
    → Decodes e m xs a
    → Decodes e (m >>= λ x. pure (f x)) xs (f a)
Decodes-pure e m f xs a hm s v he h =
    let (done, taken) = hm s v he h in rw (>>=-ok m (λ x. pure (f x)) s done) (refl, taken)

pub Decodes-nothing : {A : Type 0} (e : Endian) (a : A) → Decodes e (pure a) [] a
Decodes-nothing e a s v he h = (refl, IsTaken-nothing s v)

pub Decodes-read :
    (e : Endian) (bytes : List ℕ) → 0 < length bytes → Decodes e (read (length bytes)) bytes bytes
Decodes-read e bytes some_left s v he h =
    let (done, taken) = read-IsTaken (length bytes) s v h.there (inl some_left) in
    (done ∙ ap ok h.bytes_eq, taken)
