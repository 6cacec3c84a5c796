-- ===== src/Client/Download/Slices.antt =====
-- The chunks of a file's bytes that a download asks for one after the other.
use telegram_mcub_go.Base.{
  ℕ, zero, suc, ◌+◌, ◌-◌, ◌≤◌, ◌<◌, [], ◌∷◌, ◌++◌, length, take, drop, arith, ◌≡◌, refl, sym, ap,
  ◌∙◌, length-take, length-drop, length-append,
}
use telegram_mcub_go.Client.Download.{Bytes}

take-nil : (n : ℕ) → take {A = ℕ} n [] ≡ []
take-nil zero = refl
take-nil (suc n) = refl

pub take_eq : {m n : ℕ} (xs : Bytes) → m ≡ n → take m xs ≡ take n xs
take_eq xs e = ap (λ m. take m xs) e

take-take-drop : (n k : ℕ) (xs : Bytes) → take n xs ++ take k (drop n xs) ≡ take (n + k) xs
take-take-drop zero k xs = take_eq {m = k} xs (omega arith)
take-take-drop (suc n) zero [] = sym (take-nil (suc n + zero))
take-take-drop (suc n) (suc k) [] = sym (take-nil (suc n + suc k))
take-take-drop (suc n) k (x ∷ xs) =
    ap (λ ys. x ∷ ys) (take-take-drop n k xs) ∙ take_eq {m = suc (n + k)} (x ∷ xs) (omega arith)

pub take-all : (n : ℕ) (xs : Bytes) → length xs ≤ n → take n xs ≡ xs
take-all zero [] h = refl
take-all zero (x ∷ xs) h = absurd (omega arith)
take-all (suc n) [] h = refl
take-all (suc n) (x ∷ xs) h = ap (λ ys. x ∷ ys) (take-all n xs (omega arith))

take-length-take : (k : ℕ) (xs : Bytes) → take (length (take k xs)) xs ≡ take k xs
take-length-take zero xs = refl
take-length-take (suc k) [] = refl
take-length-take (suc k) (x ∷ xs) = ap (λ ys. x ∷ ys) (take-length-take k xs)

pub take-next :
    (offset limit : ℕ) (content : Bytes)
    → take offset content ++ take limit (drop offset content)
      ≡ take (offset + length (take limit (drop offset content))) content
take-next offset limit content =
    ap (λ bytes. take offset content ++ bytes) (sym (take-length-take limit (drop offset content)))
    ∙ take-take-drop offset (length (take limit (drop offset content))) content

pub length-chunk :
    (offset limit : ℕ) (content : Bytes)
    → (length (take limit (drop offset content)) ≤ limit)
      × (length (take limit (drop offset content)) ≤ length content - offset)
      × ((length (take limit (drop offset content)) < limit)
          → length (take limit (drop offset content)) ≡ length content - offset)
length-chunk offset limit content =
    rw (length-take limit (drop offset content), length-drop offset content) (ground arith)

take-take : (n k : ℕ) (xs : Bytes) → take n (take k xs) ≡ take (length (take n (take k xs))) xs
take-take zero k xs = refl
take-take (suc n) zero xs = refl
take-take (suc n) (suc k) [] = refl
take-take (suc n) (suc k) (x ∷ xs) = ap (λ ys. x ∷ ys) (take-take n k xs)

pub length-take-le : (n : ℕ) (xs : Bytes) → n ≤ length xs → length (take n xs) ≡ n
length-take-le zero xs h = refl
length-take-le (suc n) [] h = absurd (omega arith)
length-take-le (suc n) (x ∷ xs) h = ap suc (length-take-le n xs (omega arith))

-- A part of the next chunk makes a longer beginning of the content.
pub take-part :
    (offset limit n : ℕ) (content : Bytes)
    → offset ≤ length content
    → let part = take offset content ++ take n (take limit (drop offset content)) in
      part ≡ take (length part) content
take-part offset limit n content within =
    let chunk = take n (take limit (drop offset content)) in
    let l = length-append (take offset content) chunk in
    let m = length-take-le offset content within in
    ap (λ ys. take offset content ++ ys) (take-take n limit (drop offset content))
    ∙ take-take-drop offset (length chunk) content
    ∙ take_eq content (omega arith)
