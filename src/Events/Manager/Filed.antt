-- ===== src/Events/Manager/Filed.antt =====
-- Every conversation is filed under its own chat, so that taking it out of that list is enough.
use mathlib.Core.List.{concat-ne-nil}
use mathlib.Core.Bool.{false≢true}
use telegram_mcub_go.Base.{
  ℕ, zero, suc, ◌==◌, ==_iff, List, [], ◌∷◌, ◌++◌, Bool, false, not, if◌then◌else◌, keep, length, ℤ,
  eqb_ℤ, eqb_ℤ_iff, ◌≡◌, ◌≢◌, refl, sym, ap, ◌∙◌, arith, Bool-cases, inl, inr, All, All-append,
  subst,
}
use telegram_mcub_go.Types.Conversation.{Message, Conversation}
use telegram_mcub_go.Types.Conversation
use telegram_mcub_go.Types.Conversation.Invariant.{deliver-chat_id}
use telegram_mcub_go.Events.Manager.{
  Convs, ConversationManager, read, write, delete, new_conversation_manager, register, unregister,
  deliver,
}
use telegram_mcub_go.Events.Manager.Routing.{read-register, deliver-iterate, count, iterate}

-- No list is empty, and a conversation stands only in the list of its chat.
abbrev pub Filed : (ℕ → Conversation) → Convs → Type 0
Filed heap = All (λ entry. (entry.1 ≢ []) × All (λ p. (heap p).chat_id ≡ entry.0) entry.1)

module _ (heap : ℕ → Conversation) where
  At : ℤ → List ℕ → Type 0
  At k = All (λ p. (heap p).chat_id ≡ k)

  read-At : (m : Convs) (k : ℤ) → Filed heap m → All (λ p. (heap p).chat_id ≡ k) (read m k)
  unfolding read
  read-At [] k h = tt
  read-At ((j, list) ∷ m) k h = elim (Bool-cases (eqb_ℤ j k)) [
    | inl e ↦ rw e (subst (λ i. All (λ p. (heap p).chat_id ≡ i) list) ((eqb_ℤ_iff j k).0 e) h.0.1)
    | inr e ↦ rw e (read-At m k h.1)
  ]

  write-Filed :
      (m : Convs) (k : ℤ) (list : List ℕ)
      → Filed heap m
      → list ≢ []
      → All (λ p. (heap p).chat_id ≡ k) list
      → Filed heap (write m k list)
  unfolding write
  write-Filed [] k list h ne a = ((ne, a), tt)
  write-Filed ((j, old) ∷ m) k list h ne a = elim (Bool-cases (eqb_ℤ j k)) [
    | inl e ↦ rw e ((ne, a), h.1)
    | inr e ↦ rw e (h.0, write-Filed m k list h.1 ne a)
  ]

  delete-Filed : (m : Convs) (k : ℤ) → Filed heap m → Filed heap (delete m k)
  unfolding delete
  delete-Filed [] k h = tt
  delete-Filed ((j, old) ∷ m) k h = elim (Bool-cases (eqb_ℤ j k)) [
    | inl e ↦ rw e (delete-Filed m k h.1)
    | inr e ↦ rw e (h.0, delete-Filed m k h.1)
  ]

  keep-All :
      (test : ℕ → Bool) (k : ℤ) (list : List ℕ)
      → All (λ p. (heap p).chat_id ≡ k) list
      → All (λ p. (heap p).chat_id ≡ k) (keep test list)
  keep-All test k [] h = tt
  keep-All test k (p ∷ list) h = elim (Bool-cases (test p)) [
    | inl e ↦ rw e (h.0, keep-All test k list h.1)
    | inr e ↦ rw e (keep-All test k list h.1)
  ]

  store-Filed :
      (m : Convs) (k : ℤ) (list : List ℕ)
      → Filed heap m
      → All (λ p. (heap p).chat_id ≡ k) list
      → Filed heap (if length list == 0 then delete m k else write m k list)
  store-Filed m k [] h a = delete-Filed m k h
  store-Filed m k (p ∷ list) h a =
      let e : (suc (length list) == 0) ≡ false = ground arith in
      rw e (write-Filed m k (p ∷ list) h (λ e. cc) a)

Filed-heap :
    (heap heap' : ℕ → Conversation) (m : Convs)
    → ((q : ℕ) → (heap' q).chat_id ≡ (heap q).chat_id)
    → Filed heap m
    → Filed heap' m
Filed-heap heap heap' [] same h = tt
Filed-heap heap heap' ((k, list) ∷ m) same h =
    ((h.0.0, go list h.0.1), Filed-heap heap heap' m same h.1)
  where
    go : (l : List ℕ) → All (λ p. (heap p).chat_id ≡ k) l → All (λ p. (heap' p).chat_id ≡ k) l
    go [] a = tt
    go (p ∷ l) a = (same p ∙ a.0, go l a.1)

iterate-chat_id :
    (n : ℕ) (f : Conversation → Conversation) (c : Conversation)
    → ((c : Conversation) → (f c).chat_id ≡ c.chat_id)
    → (iterate n f c).chat_id ≡ c.chat_id
iterate-chat_id zero f c h = refl
iterate-chat_id (suc n) f c h = iterate-chat_id n f (f c) h ∙ h c

-- In every state in which each conversation stands only in the list of its own chat and no list is
-- empty, registering, unregistering and delivering keep that so; a new manager is such a state.
pub step-Filed :
    (cm : ConversationManager) (p : ℕ) (chat_id : ℤ) (msg : Message)
    → Filed cm.heap cm.convs
    → Filed cm.heap (new_conversation_manager cm.heap).convs
      × Filed (register cm p).heap (register cm p).convs
      × Filed (unregister cm p).heap (unregister cm p).convs
      × Filed (deliver cm chat_id msg).heap (deliver cm chat_id msg).convs
unfolding new_conversation_manager register unregister deliver
step-Filed cm p chat_id msg h =
    let k = (cm.heap p).chat_id in
    let list = read cm.convs k in
    let a = read-At cm.heap cm.convs k h in
    (
      tt,
      write-Filed cm.heap cm.convs k (list ++ p ∷ []) h (concat-ne-nil p list)
          (All-append _ list (p ∷ []) a (refl, tt)),
      store-Filed cm.heap cm.convs k _ h (keep-All cm.heap _ k list a),
      Filed-heap cm.heap (deliver cm chat_id msg).heap cm.convs
          (λ q.
            ap (λ c. c.chat_id) (deliver-iterate cm chat_id msg chat_id q).0
            ∙ iterate-chat_id (count q (read cm.convs chat_id)) (λ c. Conversation.deliver c msg)
                (cm.heap q) (λ c. deliver-chat_id c msg))
          h,
    )

count-keep : (p : ℕ) (list : List ℕ) → count p (keep (λ c. not (c == p)) list) ≡ 0
count-keep p [] = refl
count-keep p (q ∷ list) = ground (arith, count-keep p list)

count-absent :
    (heap : ℕ → Conversation) (p : ℕ) (k : ℤ) (list : List ℕ)
    → (heap p).chat_id ≢ k
    → All (λ q. (heap q).chat_id ≡ k) list
    → count p list ≡ 0
count-absent heap p k [] ne a = refl
count-absent heap p k (q ∷ list) ne a = elim (Bool-cases (q == p)) [
  | inl e ↦ absurd (ne (ap (λ r. (heap r).chat_id) (sym ((==_iff q p).0 e)) ∙ a.0))
  | inr e ↦ rw e (count-absent heap p k list ne a.1)
]

unregistered :
    (cm : ConversationManager) (p : ℕ) (k : ℤ)
    → Filed cm.heap cm.convs
    → count p (read (unregister cm p).convs k) ≡ 0
unregistered cm p k h = elim (Bool-cases (eqb_ℤ (cm.heap p).chat_id k)) [
  | inl e ↦ rw ((read-register cm p k).1, e) (count-keep p (read cm.convs k))
  | inr e ↦
      rw ((read-register cm p k).1, e)
        (count-absent cm.heap p k (read cm.convs k)
          (λ same. false≢true (sym e ∙ (eqb_ℤ_iff (cm.heap p).chat_id k).1 same))
          (read-At cm.heap cm.convs k h))
]

-- In every state in which each conversation stands only in the list of its own chat and no list is
-- empty, a conversation that has been unregistered receives no message for any chat.
pub unregister_silences :
    (cm : ConversationManager) (p : ℕ) (chat_id : ℤ) (msg : Message)
    → Filed cm.heap cm.convs
    → (deliver (unregister cm p) chat_id msg).heap p ≡ cm.heap p
unregister_silences cm p chat_id msg h =
    (deliver-iterate (unregister cm p) chat_id msg chat_id p).0
    ∙ (ap (λ n. iterate n (λ c. Conversation.deliver c msg) ((unregister cm p).heap p))
          (unregistered cm p chat_id h)
        ∙ ap (λ heap. heap p) (read-register cm p chat_id).3)
