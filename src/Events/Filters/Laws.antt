-- ===== src/Events/Filters/Laws.antt =====
-- What the filters of events/common.go accept.
use telegram_mcub_go.Base.{
  ◌==◌, ==_iff, List, [], ◌∷◌, ◌++◌, Bool, true, ◌&&◌, ◌||◌, arith, map, ◌≡◌, refl, sym, ap₂, ◌∙◌,
  ◌↔◌, ◌⊎◌, inl, inr, Bool-cases, append_assoc,
}
use telegram_mcub_go.Helpers.Utf16.{Text}
use telegram_mcub_go.Events.Event.{NewMessage, Event, new_message, text}
use telegram_mcub_go.Events.Filters.{
  Filter, eqb_text, has_prefix, command_filter, and_filter, or_filter, not_filter,
}

-- The negation of a conjunction of filters accepts what the disjunction of their negations accepts,
-- and the negation of a disjunction what the conjunction of the negations accepts.
pub not_filter-and_filter :
    (filters : List Filter) (e : Event)
    → (not_filter (and_filter filters) e ≡ or_filter (map not_filter filters) e)
      × (not_filter (or_filter filters) e ≡ and_filter (map not_filter filters) e)
not_filter-and_filter [] e = (refl, refl)
not_filter-and_filter (f ∷ filters) e =
    let (h, k) = not_filter-and_filter filters e in
    elim (Bool-cases (f e)) [ inl t ↦ rw t (h, refl) | inr t ↦ rw t (refl, k) ]

both : (a b : Bool) → a && b ≡ true → (a ≡ true) × (b ≡ true)
both a b h = ground arith

eqb_text_eq : (s t : Text) → eqb_text s t ≡ true → s ≡ t
eqb_text_eq [] [] h = refl
eqb_text_eq [] (d ∷ t) h = absurd (ground arith)
eqb_text_eq (c ∷ s) [] h = absurd (ground arith)
eqb_text_eq (c ∷ s) (d ∷ t) h =
    let (k, l) = both (c == d) _ h in ap₂ (λ x y. x ∷ y) ((==_iff c d).0 k) (eqb_text_eq s t l)

eqb_text_refl : (s : Text) → eqb_text s s ≡ true
eqb_text_refl [] = refl
eqb_text_refl (c ∷ s) = rw (eqb_text_refl s) (ground arith)

has_prefix_eq : (s t : Text) → has_prefix s t ≡ true → (rest : Text) × (s ≡ t ++ rest)
has_prefix_eq s [] h = (s, refl)
has_prefix_eq [] (d ∷ t) h = absurd (ground arith)
has_prefix_eq (c ∷ s) (d ∷ t) h =
    let (k, l) = both (c == d) _ h in
    let (rest, e) = has_prefix_eq s t l in (rest, ap₂ (λ x y. x ∷ y) ((==_iff c d).0 k) e)

has_prefix_append : (t rest : Text) → has_prefix (t ++ rest) t ≡ true
has_prefix_append [] rest = refl
has_prefix_append (d ∷ t) rest = rw (has_prefix_append t rest) (ground arith)

either : (a b : Bool) → a || b ≡ true → (a ≡ true) ⊎ (b ≡ true)
either a b h = ground arith

-- A command filter accepts a new message exactly if its text is the prefix and the command, alone
-- or followed by a space and any text.
pub command_filter_iff :
    (prefix command : Text) (nm : NewMessage)
    → (command_filter prefix command (new_message nm) ≡ true) ↔ (
        (text nm ≡ prefix ++ command)
        ⊎ ((arguments : Text) × (text nm ≡ (prefix ++ command) ++ 0x20 ∷ arguments)))
command_filter_iff prefix command nm = (
  λ h. elim (either (eqb_text (text nm) (prefix ++ command)) _ h) [
    | inl k ↦ inl (eqb_text_eq _ _ k)
    | inr k ↦
        let (rest, e) = has_prefix_eq _ _ k in
        inr (rest, e ∙ append_assoc (prefix ++ command) (0x20 ∷ []) rest)
  ],
  λ h. elim h [
    | inl e ↦ rw (e, eqb_text_refl (prefix ++ command)) refl
    | inr (arguments, e) ↦
        rw
          (
            e,
            sym (append_assoc (prefix ++ command) (0x20 ∷ []) arguments),
            has_prefix_append ((prefix ++ command) ++ 0x20 ∷ []) arguments,
          )
          (ground arith)
  ],
)
