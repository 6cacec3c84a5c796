-- ===== src/Utils/Chunks/Laws.antt =====
-- Splitting into chunks and joining, of utils/utils.go.
use telegram_mcub_go.Base.{
  ℕ, zero, suc, ◌-◌, ◌≤◌, ◌<◌, List, [], ◌∷◌, ◌++◌, some, length, take, drop, arith, pos, ◌≡◌, refl,
  sym, ap, ◌∙◌, append_assoc, append-nil, length-append, length-take, length-drop, take-append-drop,
}
use telegram_mcub_go.Utils.Chunks.{end_of, chunk_loop, chunks, concat_loop, concat_bytes}

module _ {A : Type 0} where
  -- The chunks of a list whose chunks have the size `size`, but the last, which is not empty and
  -- not longer.
  pub data Split (size : ℕ) : List (List A) → Type 0 where
    nothing : Split size []
    last_chunk : (c : List A) → 1 ≤ length c → length c ≤ size → Split size (c ∷ [])
    full_chunk :
        (c d : List A) (cs : List (List A))
        → length c ≡ size
        → Split size (d ∷ cs)
        → Split size (c ∷ d ∷ cs)

  concat_loop-append :
      (slices : List (List A)) (out : List A)
      → concat_loop slices out ≡ out ++ concat_loop slices []
  unfolding concat_loop
  concat_loop-append [] out = sym (append-nil out)
  concat_loop-append (s ∷ slices) out =
      concat_loop-append slices (out ++ s)
      ∙ append_assoc out s _
      ∙ ap (λ xs. out ++ xs) (sym (concat_loop-append slices s))

  concat_bytes-cons :
      (s : List A) (slices : List (List A)) → concat_bytes (s ∷ slices) ≡ s ++ concat_bytes slices
  unfolding concat_bytes concat_loop
  concat_bytes-cons s slices = concat_loop-append slices s

  concat_bytes-Split :
      {size : ℕ} (c : List A) (cs : List (List A))
      → Split size (c ∷ cs)
      → 1 ≤ length (concat_bytes (c ∷ cs))
  concat_bytes-Split _ _ (last_chunk c h k) =
      rw (concat_bytes-cons c [], length-append c (concat_bytes [])) (omega arith)
  concat_bytes-Split _ _ (full_chunk c d cs h s) =
      rw (concat_bytes-cons c (d ∷ cs), length-append c (concat_bytes (d ∷ cs)))
        (let k = concat_bytes-Split d cs s in omega arith)

  Split-cons :
      {size : ℕ} (c : List A) (cs : List (List A))
      → 1 ≤ length c
      → length c ≤ size
      → (1 ≤ length (concat_bytes cs) → length c ≡ size)
      → Split size cs
      → Split size (c ∷ cs)
  Split-cons c [] h k full s = last_chunk c h k
  Split-cons c (d ∷ cs) h k full s = full_chunk c d cs (full (concat_bytes-Split d cs s)) s

  end_of-bounds :
      (size : ℕ) (a : A) (items : List A)
      → 1 ≤ size
      → (1 ≤ end_of size (a ∷ items))
        × (end_of size (a ∷ items) ≤ size)
        × (end_of size (a ∷ items) ≤ suc (length items))
        × (1 ≤ suc (length items) - end_of size (a ∷ items) → end_of size (a ∷ items) ≡ size)
  end_of-bounds size a items h = ground arith

  -- The chunks that the loop appends.
  abbrev Splits : ℕ → List A → List (List A) → List (List A) → Type 0
  Splits size items done cs =
      (more : List (List A)) × (cs ≡ done ++ more) × (concat_bytes more ≡ items) × Split size more

  Splits-cons :
      (size : ℕ) (done : List (List A)) (n : ℕ) (items : List A) {cs : List (List A)}
      (more : List (List A))
      → 1 ≤ n
      → n ≤ size
      → n ≤ length items
      → (1 ≤ length items - n → n ≡ size)
      → concat_bytes more ≡ drop n items
      → Split size more
      → cs ≡ (done ++ take n items ∷ []) ++ more
      → Splits size items done cs
  Splits-cons size done n items more h k within full joined split parts = (
    take n items ∷ more,
    parts ∙ append_assoc done (take n items ∷ []) more,
    concat_bytes-cons (take n items) more
        ∙ ap (λ xs. take n items ++ xs) joined
        ∙ take-append-drop n items,
    Split-cons (take n items) more (rw (length-take n items) (ground arith))
        (rw (length-take n items) (ground arith))
        (λ some_left.
          rw (length-take n items)
            (let left = rw (joined, length-drop n items) at some_left in ground arith))
        split,
  )

  chunk_loop-Splits :
      (fuel size : ℕ) (items : List A) (done : List (List A))
      → 1 ≤ size
      → length items < fuel
      → (cs : List (List A)) × (chunk_loop fuel size items done ≡ some cs)
        × Splits size items done cs
  unfolding chunk_loop concat_bytes concat_loop
  chunk_loop-Splits zero size items done h few = absurd (omega arith)
  chunk_loop-Splits (suc fuel) size [] done h few =
      (done, refl, ([], sym (append-nil done), refl, nothing))
  chunk_loop-Splits (suc fuel) size (a ∷ items) done h few =
      let (some_items, at_most, within, full) = end_of-bounds size a items h in
      let (cs, e, (more, parts, joined, split)) =
        chunk_loop-Splits fuel size (drop (end_of size (a ∷ items)) (a ∷ items))
          (done ++ take (end_of size (a ∷ items)) (a ∷ items) ∷ []) h
          (rw (length-drop (end_of size (a ∷ items)) (a ∷ items)) (omega arith)) in
      (
        cs,
        e,
        Splits-cons size done (end_of size (a ∷ items)) (a ∷ items) more some_items at_most within
            full joined split parts,
      )

  -- With a positive size `Chunks` returns chunks which joined give the items, and of which each has
  -- the size, but the last, which has at least one item and at most the size.
  pub chunks-Split :
      (items : List A) (n : ℕ)
      → (cs : List (List A)) × (chunks items (pos (suc n)) ≡ some cs)
        × (concat_bytes cs ≡ items)
        × Split (suc n) cs
  unfolding chunks
  chunks-Split items n =
      let (cs, e, (more, parts, joined, split)) =
        chunk_loop-Splits (suc (length items)) (suc n) items [] (omega arith) (omega arith) in
      (more, e ∙ ap some parts, joined, split)
