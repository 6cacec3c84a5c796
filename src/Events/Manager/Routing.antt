-- ===== src/Events/Manager/Routing.antt =====
-- Which conversations a registered list routes a message to, and how often.
use telegram_mcub_go.Base.{
  ℕ, zero, suc, ◌==◌, ==_iff, List, [], ◌∷◌, ◌++◌, Bool, true, false, not, if◌then◌else◌, keep,
  length, ℤ, eqb_ℤ, eqb_ℤ_iff, ◌≡◌, refl, ap, subst, ◌∙◌, arith, Bool-cases, inl, inr, ◌⊎◌,
}
use telegram_mcub_go.Types.Conversation.{Message, Conversation}
use telegram_mcub_go.Types.Conversation
use telegram_mcub_go.Events.Manager.{
  Convs, ConversationManager, read, write, delete, register, unregister, update, each, deliver,
  deliver_edit, deliver_read,
}

read-write :
    (m : Convs) (k j : ℤ) (v : List ℕ) → read (write m k v) j ≡ (if eqb_ℤ k j then v else read m j)
unfolding read write
read-write [] k j v = refl
read-write ((i, w) ∷ m) k j v =
    ground (arith, eqb_ℤ_iff i k, eqb_ℤ_iff k j, eqb_ℤ_iff i j, read-write m k j v)

if_same : (b : Bool) → ◌≡◌ {A = List ℕ} [] (if b then [] else [])
if_same true = refl
if_same false = refl

read-delete : (m : Convs) (k j : ℤ) → read (delete m k) j ≡ (if eqb_ℤ k j then [] else read m j)
unfolding read delete
read-delete [] k j = if_same (eqb_ℤ k j)
read-delete ((i, w) ∷ m) k j =
    ground (arith, eqb_ℤ_iff i k, eqb_ℤ_iff k j, eqb_ℤ_iff i j, read-delete m k j)

if_key :
    (f : ℤ → List ℕ) (c k : ℤ) (other : List ℕ)
    → (if eqb_ℤ c k then f c else other) ≡ (if eqb_ℤ c k then f k else other)
if_key f c k other = elim (Bool-cases (eqb_ℤ c k)) [
  | inl e ↦ rw e (ap f ((eqb_ℤ_iff c k).0 e))
  | inr e ↦ rw e
]

read-store :
    (m : Convs) (c k : ℤ) (list : List ℕ)
    → read (if length list == 0 then delete m c else write m c list) k
      ≡ (if eqb_ℤ c k then list else read m k)
read-store m c k [] = read-delete m c k
read-store m c k (p ∷ list) =
    let e : (suc (length list) == 0) ≡ false = ground arith in rw e (read-write m c k (p ∷ list))

-- `Register` adds the conversation at the end of the list of its chat; `Unregister` takes every
-- entry of it out of that list; both leave the lists of all other chats and all conversations alone.
pub read-register :
    (cm : ConversationManager) (p : ℕ) (k : ℤ)
    → (read (register cm p).convs k
        ≡ (if eqb_ℤ (cm.heap p).chat_id k then read cm.convs k ++ p ∷ [] else read cm.convs k))
      × (read (unregister cm p).convs k ≡ (
          if eqb_ℤ (cm.heap p).chat_id k
          then keep (λ c. not (c == p)) (read cm.convs k)
          else read cm.convs k))
      × ((register cm p).heap ≡ cm.heap)
      × ((unregister cm p).heap ≡ cm.heap)
unfolding register unregister
read-register cm p k =
    let chat_id = (cm.heap p).chat_id in
    let kept = keep (λ c. not (c == p)) (read cm.convs chat_id) in
    (
      read-write cm.convs chat_id k _ ∙ if_key (λ j. read cm.convs j ++ p ∷ []) chat_id k _,
      read-store cm.convs chat_id k kept
          ∙ if_key (λ j. keep (λ c. not (c == p)) (read cm.convs j)) chat_id k _,
      refl,
      refl,
    )

abbrev pub count : ℕ → List ℕ → ℕ
count q [] = 0
count q (p ∷ ps) = if p == q then suc (count q ps) else count q ps

abbrev pub iterate : ℕ → (Conversation → Conversation) → Conversation → Conversation
iterate zero f c = c
iterate (suc n) f c = iterate n f (f c)

each-iterate :
    (f : Conversation → Conversation) (ps : List ℕ) (heap : ℕ → Conversation) (q : ℕ)
    → each f ps heap q ≡ iterate (count q ps) f (heap q)
unfolding each
each-iterate f [] heap q = refl
each-iterate f (p ∷ ps) heap q =
    each-iterate f ps (update heap p (f (heap p))) q ∙ at_head (Bool-cases (p == q))
  where
    at_head :
        ((p == q) ≡ true) ⊎ ((p == q) ≡ false)
        → iterate (count q ps) f (update heap p (f (heap p)) q)
          ≡ iterate (count q (p ∷ ps)) f (heap q)
    at_head (inl e) =
        subst
          (λ r.
            iterate (count r ps) f (update heap p (f (heap p)) r)
            ≡ iterate (count r (p ∷ ps)) f (heap r))
          ((==_iff p q).0 e) (rw ((==_iff p p).1 refl) refl)
    at_head (inr e) = ground arith

-- `Deliver` hands the message to each conversation as often as the conversation is registered for
-- the chat, and to no other conversation; so do `DeliverEdit` and `DeliverRead`. The registered
-- lists do not change.
pub deliver-iterate :
    (cm : ConversationManager) (chat_id : ℤ) (msg : Message) (max_id : ℤ) (q : ℕ)
    → let n = count q (read cm.convs chat_id) in
      ((deliver cm chat_id msg).heap q ≡ iterate n (λ c. Conversation.deliver c msg) (cm.heap q))
      × ((deliver_edit cm chat_id msg).heap q
          ≡ iterate n (λ c. Conversation.deliver_edit c msg) (cm.heap q))
      × ((deliver_read cm chat_id max_id).heap q
          ≡ iterate n (λ c. Conversation.deliver_read c max_id) (cm.heap q))
      × ((deliver cm chat_id msg).convs ≡ cm.convs)
unfolding deliver deliver_edit deliver_read
deliver-iterate cm chat_id msg max_id q =
    let list = read cm.convs chat_id in
    (
      each-iterate (λ c. Conversation.deliver c msg) list cm.heap q,
      each-iterate (λ c. Conversation.deliver_edit c msg) list cm.heap q,
      each-iterate (λ c. Conversation.deliver_read c max_id) list cm.heap q,
      refl,
    )
