-- ===== src/Client/Upload/Parts.antt =====
-- Which parts an upload sends, to a server that accepts them.
use telegram_mcub_go.Base.{
  ℕ, zero, suc, ◌+◌, ◌*◌, ◌≤◌, ◌<◌, ◌≡◌, refl, sym, ap, ap₂, ◌∙◌, subst, ◌⊎◌, inl, inr, List, [],
  ◌∷◌, ◌++◌, append_assoc, append-nil, arith, length, take, drop, length-drop, Bool, true, Option,
  none, some, leb, leb→le, Bool-cases, ℤ,
}
use native.Mathlib.Nat.{mul-suc, mul_comm}
use telegram_mcub_go.Helpers.Strip.Units.{drop-add}
use telegram_mcub_go.Client.Upload.{
  PartRequest, part_request, Upload, uploaded, finished_file, UploadState, Progress, upload_loop,
  upload_file, advance, last_part, Source, part_size, is_big, resumable, start, file_id_of,
  complete, completed_upload,
}

-- A server that accepts every part and keeps the requests.
abbrev pub accepts : {Err : Type 0} → PartRequest → List PartRequest → Option Err × List PartRequest
accepts r w = (none, w ++ r ∷ [])

module _ (big : Bool) (file_id size : ℕ) (content : List ℕ) where
  -- Part `i` of the content.
  abbrev pub part : ℕ → PartRequest
  part i = part_request big file_id i (take size (drop (i * size) content))

  -- `n` parts from part `i` on.
  abbrev pub parts : ℕ → ℕ → List PartRequest
  parts i zero = []
  parts i (suc n) = part i ∷ parts (suc i) n

  take-all : (n : ℕ) (xs : List ℕ) → length xs ≤ n → take n xs ≡ xs
  take-all zero [] h = refl
  take-all zero (x ∷ xs) h = absurd (omega arith)
  take-all (suc n) [] h = refl
  take-all (suc n) (x ∷ xs) h = ap (◌∷◌ x) (take-all n xs (omega arith))

  suc_mul : (i : ℕ) → suc i * size ≡ i * size + size
  suc_mul i = mul_comm (suc i) size ∙ (mul-suc size i ∙ ap (λ m. m + size) (mul_comm size i))

  -- The loop sends the parts from `i` on, as many as the rest of the content needs.
  abbrev Sends :
      {Err : Type 0}
      → ℕ
      → ℕ
      → List ℕ
      → List PartRequest
      → Option (Upload Err × Progress × List PartRequest)
      → Type 0
  Sends {Err = Err} i n rest w result =
      (p : Progress) × (result
        ≡ some (uploaded (finished_file big file_id (i + n)), p, w ++ parts i n))
      × (length rest ≤ n * size)
      × ((n ≡ 0) ⊎ (n * size < length rest + size))

  last_part-Sends :
      {Err : Type 0} (i total : ℕ) (rest : List ℕ) (saved : Option (Option UploadState))
      (w : List PartRequest)
      → 1 ≤ size
      → rest ≡ drop (i * size) content
      → length rest < size
      → (n : ℕ) × Sends {Err = Err} i n rest w (
          last_part {Err = Err} accepts big file_id size none rest none
            (record { rest = rest; part_index = i; total_uploaded = total; saved = saved })
            w)
  last_part-Sends i total [] saved w h e l = (
    0,
    (
      record { rest = []; part_index = i; total_uploaded = total; saved = saved },
      ap₂
          (λ j (v : List PartRequest). some (
            uploaded (finished_file big file_id j),
            record { rest = []; part_index = i; total_uploaded = total; saved = saved },
            v,
          ))
          (omega arith) (sym (append-nil w)),
      omega arith,
      inl refl,
    ),
  )
  last_part-Sends i total (b ∷ rest) saved w h e l =
      let p =
        advance file_id (b ∷ rest) []
          (record { rest = b ∷ rest; part_index = i; total_uploaded = total; saved = saved }) in
      let chunk : part_request big file_id i (b ∷ rest) ≡ part i =
        ap (part_request big file_id i)
          (sym (take-all size (b ∷ rest) (omega arith)) ∙ ap (take size) e) in
      let one : 1 * size ≡ size = omega arith in
      (
        1,
        (
          p,
          ap₂ (λ j r. some (uploaded (finished_file big file_id j), p, w ++ r ∷ [])) (omega arith)
              chunk,
          omega arith,
          inr (omega arith),
        ),
      )

  upload_loop-Sends :
      {Err : Type 0} (fuel i total : ℕ) (rest : List ℕ) (saved : Option (Option UploadState))
      (w : List PartRequest)
      → 1 ≤ size
      → rest ≡ drop (i * size) content
      → length rest < fuel
      → (n : ℕ) × Sends {Err = Err} i n rest w (
          upload_loop {Err = Err} accepts big file_id size none fuel
            (record { rest = rest; part_index = i; total_uploaded = total; saved = saved })
            w)
  unfolding upload_loop
  upload_loop-Sends {Err = Err} zero i total rest saved w h e l = absurd (omega arith)
  upload_loop-Sends {Err = Err} (suc fuel) i total rest saved w h e l =
      elim (Bool-cases (leb size (length rest))) [
        | inl full ↦
            let fits = leb→le size (length rest) full in
            let d : drop size rest ≡ drop (suc i * size) content =
              ap (drop size) e
              ∙ (sym (drop-add (i * size) size content)
                  ∙ ap (λ m. drop m content) (sym (suc_mul i))) in
            let short = length-drop size rest in
            let less : length (drop size rest) < fuel = omega arith in
            let q =
              advance file_id (take size rest) (drop size rest)
                (record { rest = rest; part_index = i; total_uploaded = total; saved = saved }) in
            let chunk : part_request big file_id i (take size rest) ≡ part i =
              ap (λ v. part_request big file_id i (take size v)) e in
            let (n, (p, sent, enough, tight)) =
              upload_loop-Sends {Err = Err} fuel (suc i) q.total_uploaded (drop size rest) q.saved
                (w ++ part_request big file_id i (take size rest) ∷ []) h d less in
            let m = suc_mul n in
            let bound : suc n * size < length rest + size = elim tight [
              | inl z ↦ let zs : n * size ≡ 0 = ap (λ j. j * size) z ∙ omega arith in omega arith
              | inr less ↦ omega arith
            ] in
            (
              suc n,
              (
                p,
                rw full (
                    sent
                    ∙ ap₂
                        (λ j (v : List PartRequest).
                          some (uploaded (finished_file big file_id j), p, v))
                        (omega arith)
                        (append_assoc w (part_request big file_id i (take size rest) ∷ [])
                            (parts (suc i) n)
                          ∙ ap (λ r. w ++ r ∷ parts (suc i) n) chunk)),
                omega arith,
                inr bound,
              ),
            )
        | inr last ↦ rw last (last_part-Sends i total rest saved w h e (ground arith))
      ]

-- A file that is read to its end.
abbrev pub file : {Err : Type 0} → List ℕ → ℕ → Source Err
file content n = record { content = content; end = none; seekable = true; size = n }

-- The part to begin with.
abbrev pub first_part : Option UploadState → ℕ
first_part none = 0
first_part (some state) = state.parts_done

part_size-positive : (n : ℤ) → 1 ≤ part_size n
unfolding part_size
part_size-positive n = ground arith

started :
    {Err : Type 0} (big : Bool) (id size fuel n : ℕ) (content : List ℕ)
    (saved : Option (Option UploadState)) (state : Option UploadState) (w : List PartRequest)
    → 1 ≤ size
    → length content < fuel
    → (k : ℕ) × Sends big id size content {Err = Err}
        (first_part state)
        k
        (drop (first_part state * size) content)
        w
        (upload_loop {Err = Err} accepts big id size none fuel
          (start {Err = Err} size (file content n) saved state)
          w)
started {Err = Err} big id size fuel n content saved none w h l =
    let zero_size : 0 ≡ 0 * size = omega arith in
    let z : content ≡ drop (0 * size) content = ap (λ m. drop m content) zero_size in
    subst
      (λ (v : List ℕ).
        (k : ℕ) × Sends big id size content {Err = Err} 0 k v w (
          upload_loop {Err = Err} accepts big id size none fuel
            (start {Err = Err} size (file content n) saved none) w))
      z (upload_loop-Sends big id size content {Err = Err} fuel 0 0 content saved w h z l)
started {Err = Err} big id size fuel n content saved (some state) w h l =
    let less : length (drop (state.parts_done * size) content) < fuel =
      omega (arith, length-drop (state.parts_done * size) content) in
    upload_loop-Sends big id size content {Err = Err} fuel state.parts_done
      (state.parts_done * size) (drop (state.parts_done * size) content) saved w h refl less

-- To a server that accepts every part, an upload of a file sends the parts of its content in order, each
-- with its number, from the first one on or from the one after those of the saved state, exactly as many
-- as the rest of the content needs, and names their number; so it does with any store and part size.
pub upload_file-parts :
    {Err : Type 0} (fuel : ℕ) (requested : ℤ) (resume : Bool) (fresh n : ℕ) (content : List ℕ)
    (saved : Option (Option UploadState)) (w : List PartRequest)
    → length content < fuel
    → let state = resumable resume saved in
      let id = file_id_of fresh state in
      let size = part_size requested in
      let i = first_part state in
      let rest = length (drop (i * size) content) in
      (k : ℕ) × (p : Progress) × (upload_file {Err = Err} accepts fuel requested resume fresh
          (file content n)
          saved
          w
        ≡ some (
          uploaded (finished_file (is_big n) id (i + k)),
          p,
          w ++ parts (is_big n) id size content i k,
        ))
      × (rest ≤ k * size)
      × ((k ≡ 0) ⊎ (k * size < rest + size))
unfolding upload_file
upload_file-parts {Err = Err} fuel requested resume fresh n content saved w l =
    let state = resumable resume saved in
    let (k, (p, sent, enough, tight)) =
      started {Err = Err} (is_big n) (file_id_of fresh state) (part_size requested) fuel n content
        saved state w (part_size-positive requested) l in
    let result : Upload Err =
      uploaded (finished_file (is_big n) (file_id_of fresh state) (first_part state + k)) in
    (k, complete result p, ap completed_upload sent, enough, tight)
