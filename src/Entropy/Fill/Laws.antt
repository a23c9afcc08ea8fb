-- ===== src/Entropy/Fill/Laws.antt =====
-- The loop that fills a buffer gives the first bytes of its blocks, one after another.
use qu_mail.Prelude.{
  ℕ, zero, suc, ◌+◌, ◌-◌, ◌*◌, ◌≤◌, ◌<◌, min, [], ◌∷◌, ◌++◌, Bytes, some, true, length, take, drop,
  replicate, ltb, ◌≡◌, refl, arith, ap, ap₂, sym, ◌∙◌, length-drop, length-take, length-append,
  append_assoc, lt→ltb, le→ltb, length-replicate, take-append_self, drop-append_self, drop-add,
}
use native.Mathlib.Nat.{suc-mul}
use qu_mail.Entropy.Fill.{put_slice, fill, filled, blocks, after}

take-append : (n : ℕ) (xs ys : Bytes) → take n (xs ++ ys) ≡ take n xs ++ take (n - length xs) ys
take-append zero [] ys = refl
take-append zero (x ∷ xs) ys = let e : 0 - suc (length xs) ≡ 0 = omega arith in rw e refl
take-append (suc n) [] ys = let e : suc n - 0 ≡ suc n = omega arith in rw e refl
take-append (suc n) (x ∷ xs) ys =
    let e : suc n - suc (length xs) ≡ n - length xs = omega arith in
    rw e (ap (◌∷◌ x) (take-append n xs ys))

take-nil : (n : ℕ) → ◌≡◌ {A = Bytes} (take n []) []
take-nil zero = refl
take-nil (suc n) = refl

take-take : (n m : ℕ) (xs : Bytes) → take n (take m xs) ≡ take (min n m) xs
take-take zero m xs = let e : min 0 m ≡ 0 = omega arith in rw e refl
take-take (suc n) zero xs = let e : min (suc n) 0 ≡ 0 = omega arith in rw e refl
take-take (suc n) (suc m) [] = sym (take-nil (min (suc n) (suc m)))
take-take (suc n) (suc m) (x ∷ xs) =
    let e : min (suc n) (suc m) ≡ suc (min n m) = omega arith in
    rw e (ap (◌∷◌ x) (take-take n m xs))

-- A chunk is written behind the part that is done.
put_slice_lem :
    (offset chunk_size : ℕ) (bs part rest : Bytes)
    → length part ≡ offset
    → put_slice offset chunk_size bs (part ++ rest) ≡ (part ++ bs) ++ drop chunk_size rest
unfolding put_slice
put_slice_lem offset chunk_size bs part rest h =
    ap₂ ◌++◌ (take-append_self offset part rest h) (
      ap (◌++◌ bs) (
        drop-add offset chunk_size (part ++ rest)
        ∙ ap (drop chunk_size) (drop-append_self offset part rest h)))
    ∙ sym (append_assoc part bs (drop chunk_size rest))

module _ {S : Type 0} (width : ℕ) (block_of : S → Bytes) (next : S → S) (wide : 0 < width)
    (large : (s : S) → width ≤ length (block_of s)) where
  -- One chunk, and what the later blocks add, are what the blocks together give.
  chunk-append :
      (n : ℕ) (s : S) (more : Bytes)
      → take (min width n) (block_of s) ++ take (n - min width n) more
        ≡ take n (take width (block_of s) ++ more)
  chunk-append n s more =
      let e : n - length (take width (block_of s)) ≡ n - min width n =
        omega (arith, length-take width (block_of s), large s) in
      let same : min n width ≡ min width n = omega arith in
      sym (
        take-append n (take width (block_of s)) more
        ∙ ap₂ ◌++◌ (take-take n width (block_of s) ∙ ap (λ k. take k (block_of s)) same)
            (ap (λ k. take k more) e))

  pub length-blocks : (k : ℕ) (s : S) → length (blocks width block_of next k s) ≡ k * width
  unfolding blocks
  length-blocks zero s = omega arith
  length-blocks (suc k) s = omega (
    arith,
    length-append (take width (block_of s)) (blocks width block_of next k (next s)),
    length-take width (block_of s),
    large s,
    length-blocks k (next s),
    suc-mul k width,
  )

  fill_lem :
      (k fuel size offset : ℕ) (part rest : Bytes) (s : S)
      → k < fuel
      → length part ≡ offset
      → offset + length rest ≡ size
      → length rest ≤ k * width
      → k * width < length rest + width
      → fill width block_of next fuel size (part ++ rest) offset s
        ≡ some (
          part ++ take (length rest) (blocks width block_of next k s),
          after width block_of next k s,
        )
  unfolding fill blocks after
  fill_lem k zero size offset part rest s enough done all lo hi = absurd (omega arith)
  fill_lem zero (suc fuel) size offset part [] s enough done all lo hi =
      rw (le→ltb offset size (omega arith), fill) refl
  fill_lem zero (suc fuel) size offset part (x ∷ rest) s enough done all lo hi =
      absurd (omega arith)
  fill_lem (suc k) (suc fuel) size offset part rest s enough done all lo hi =
      let some_left : 0 < length rest = omega (arith, suc-mul k width) in
      let here : ltb offset size ≡ true = lt→ltb offset size (omega arith) in
      let amount : size - offset ≡ length rest = omega arith in
      let chunk_size : ℕ = min width (length rest) in
      let chunk : Bytes = take chunk_size (block_of s) in
      let left = length-drop chunk_size rest in
      rw (here, fill)
        (rw amount (
          rw (put_slice_lem offset chunk_size chunk part rest done) (
            fill_lem k fuel size (offset + chunk_size) (part ++ chunk) (drop chunk_size rest)
              (next s) (omega arith)
              (omega
                (arith, length-append part chunk, length-take chunk_size (block_of s), large s))
              (omega (arith, left)) (omega (arith, left, suc-mul k width))
              (omega (arith, left, suc-mul k width))
            ∙ ap (λ bs. some (bs, after width block_of next k (next s)))
                (append_assoc part chunk _
                  ∙ ap (◌++◌ part) (
                      ap (λ n. chunk ++ take n (blocks width block_of next k (next s))) left
                      ∙ chunk-append (length rest) s (blocks width block_of next k (next s)))))))

  rounds_fit : (k size : ℕ) → k * width < size + width → k ≤ size
  rounds_fit zero size h = omega arith
  rounds_fit (suc k) size h =
      let e : k ≤ k * width = grind arith in omega (arith, e, suc-mul k width)

  -- A buffer that takes `k` rounds holds the first bytes of `k` blocks: the fuel is enough.
  pub filled_lem :
      (k size : ℕ) (s : S)
      → size ≤ k * width
      → k * width < size + width
      → filled width block_of next size s
        ≡ some (take size (blocks width block_of next k s), after width block_of next k s)
  unfolding filled
  filled_lem k size s lo hi =
      let len : length {A = ℕ} (replicate size 0) ≡ size = length-replicate size 0 in
      fill_lem k (size + 1) size 0 [] (replicate size 0) s (omega (arith, rounds_fit k size hi))
        refl (omega (arith, len)) (omega (arith, len)) (omega (arith, len))
      ∙ ap (λ n. some (take n (blocks width block_of next k s), after width block_of next k s)) len
