-- ===== src/Extensions/Markdown/Links.antt =====
-- The link pattern and the search for a position in ParseMarkdown: what they find.
use mathlib.Core.Option
use telegram_mcub_go.Base.{
  ℕ, zero, suc, ◌==◌, ◌≤◌, ◌<◌, ◌≡◌, refl, ap, ap₂, ◌∙◌, [], ◌∷◌, ◌++◌, arith, take, Bool, true,
  false, Option, none, some, if◌then◌else◌, ==_iff, leb, leb→le,
}
use telegram_mcub_go.Helpers.Utf16.{Text, utf16_len}
use telegram_mcub_go.Helpers.Utf16.Decoding.{utf16_len-narrow, utf16_len-wide}
use telegram_mcub_go.Extensions.Markdown.{
  utf16_pos_to_byte_off, cut_at, cut_first, link_from, default_url_re,
}

-- What a string is that is cut at a `c`.
abbrev Cut : ℕ → Text → Option (Text × Text) → Type 0
Cut c s none = Unit
Cut c s (some (before, after)) = s ≡ before ++ c ∷ after

cut_first-Cut :
    (c r : ℕ) (s : Text) (o : Option (Text × Text))
    → Cut c s o
    → Cut c (r ∷ s) (Option.map (cut_first r) o)
cut_first-Cut c r s none h = tt
cut_first-Cut c r s (some (before, after)) h = ap (◌∷◌ r) h

cut_at-Cut : (c : ℕ) (s : Text) → Cut c s (cut_at c s)
unfolding cut_at
cut_at-Cut c [] = tt
cut_at-Cut c (r ∷ s) =
    cut_found (r == c) refl (Option.map (cut_first r) (cut_at c s))
      (cut_first-Cut c r s (cut_at c s) (cut_at-Cut c s))
  where
    cut_found :
        (b : Bool)
        → (r == c) ≡ b
        → (o : Option (Text × Text)) → Cut c (r ∷ s) o
        → Cut c (r ∷ s) (if b then some ([], s) else o)
    cut_found true e o h = ap (λ x. x ∷ s) ((==_iff r c).0 e)
    cut_found false e o h = h

-- What a string is that starts with a link.
abbrev pub IsLink : Text → Option (Text × Text × Text) → Type 0
IsLink t none = Unit
IsLink t (some (link_text, link_url, rest)) =
    t ≡ 0x5b ∷ (link_text ++ (0x5d ∷ 0x28 ∷ (link_url ++ (0x29 ∷ rest))))

pub choose :
    {A : Type 0} (P : A → Type 0) {x y : A} (b : Bool)
    → (b ≡ true → P x)
    → (b ≡ false → P y)
    → P (if b then x else y)
choose P true h k = h refl
choose P false h k = k refl

if_some :
    {A : Type 0} (P : Option A → Type 0)
    → P none
    → (b : Bool) (o : Option A) → (b ≡ true → P o)
    → P (if b then o else none)
if_some P n b o h = choose P b h (λ e. n)

target-IsLink :
    (r q : ℕ) (s a t : Text)
    → r ≡ 0x5b
    → s ≡ a ++ 0x5d ∷ q ∷ t
    → q ≡ 0x28
    → (o : Option (Text × Text)) → Cut 0x29 t o
    → IsLink (r ∷ s) (Option.map (λ p. (a, p.0, p.1)) o)
target-IsLink r q s a t e f g none h = tt
target-IsLink r q s a t e f g (some (link_url, rest)) h =
    ap₂ ◌∷◌ e (f ∙ ap (λ w. a ++ 0x5d ∷ w) (ap₂ ◌∷◌ g h))

link_from-IsLink :
    (r : ℕ) (s : Text) (o : Option (Text × Text))
    → r ≡ 0x5b
    → Cut 0x5d s o
    → IsLink (r ∷ s) (link_from o)
link_from-IsLink r s none e h = tt
link_from-IsLink r s (some (a, [])) e h = tt
link_from-IsLink r s (some (a, q ∷ t)) e h =
    if_some (IsLink (r ∷ s)) tt (q == 0x28) (Option.map (λ p. (a, p.0, p.1)) (cut_at 0x29 t))
      (λ f. target-IsLink r q s a t e h ((==_iff q 0x28).0 f) (cut_at 0x29 t) (cut_at-Cut 0x29 t))

pub default_url_re-IsLink : (t : Text) → IsLink t (default_url_re t)
unfolding default_url_re
default_url_re-IsLink [] = tt
default_url_re-IsLink (r ∷ s) =
    if_some (IsLink (r ∷ s)) tt (r == 0x5b) (link_from (cut_at 0x5d s))
      (λ e. link_from-IsLink r s (cut_at 0x5d s) ((==_iff r 0x5b).0 e) (cut_at-Cut 0x5d s))

-- An offset stands at the position that it was searched for.
abbrev pub StandsAt : Text → ℕ → Option ℕ → Type 0
StandsAt s n none = Unit
StandsAt s n (some off) = utf16_len (take off s) ≡ n

StandsAt-narrow :
    (r : ℕ) (s : Text) (n : ℕ) (o : Option ℕ)
    → r < 0x10000
    → StandsAt s n o
    → StandsAt (r ∷ s) (suc n) (Option.map suc o)
StandsAt-narrow r s n none h k = tt
StandsAt-narrow r s n (some off) h k = utf16_len-narrow r (take off s) h ∙ ap suc k

StandsAt-wide :
    (r : ℕ) (s : Text) (n : ℕ) (o : Option ℕ)
    → 0x10000 ≤ r
    → StandsAt s n o
    → StandsAt (r ∷ s) (suc (suc n)) (Option.map suc o)
StandsAt-wide r s n none h k = tt
StandsAt-wide r s n (some off) h k = utf16_len-wide r (take off s) h ∙ ap (λ m. suc (suc m)) k

pub utf16_pos_to_byte_off-StandsAt : (s : Text) (n : ℕ) → StandsAt s n (utf16_pos_to_byte_off s n)
unfolding utf16_pos_to_byte_off
utf16_pos_to_byte_off-StandsAt s zero = unfold utf16_len in refl
utf16_pos_to_byte_off-StandsAt [] (suc n) = tt
utf16_pos_to_byte_off-StandsAt (r ∷ s) (suc zero) =
    choose (StandsAt (r ∷ s) 1) (leb 0x10000 r) (λ e. tt)
      (λ e.
        StandsAt-narrow r s 0 (utf16_pos_to_byte_off s 0) (ground arith)
          (utf16_pos_to_byte_off-StandsAt s 0))
utf16_pos_to_byte_off-StandsAt (r ∷ s) (suc (suc n)) =
    choose (StandsAt (r ∷ s) (suc (suc n))) (leb 0x10000 r)
      (λ e.
        StandsAt-wide r s n (utf16_pos_to_byte_off s n) (leb→le 0x10000 r e)
          (utf16_pos_to_byte_off-StandsAt s n))
      (λ e.
        StandsAt-narrow r s (suc n) (utf16_pos_to_byte_off s (suc n)) (ground arith)
          (utf16_pos_to_byte_off-StandsAt s (suc n)))
