-- ===== src/Client/MessageIter/Histories.antt =====
-- Collect of a MessageIterator against a server that keeps a history.
use telegram_mcub_go.Base.{
  ℕ, zero, suc, ◌+◌, ◌<◌, ◌≡◌, refl, sym, ap, ◌∙◌, subst, List, [], ◌∷◌, ◌++◌, append_assoc,
  append-nil, map, arith, All, All-suffix, length, length-append, take, drop, take-append-drop,
  get_elem?, keep, true, false, Option, none, some, if◌then◌else◌, ℤ, pos, pos_part, ◌≤ℤ◌, ◌<ℤ◌,
  ltb_ℤ, leb_ℤ, eqb_ℤ,
}
use telegram_mcub_go.Events.Update.{RawMessage, message}
use telegram_mcub_go.Client.MessageIter.{
  IterMessagesParams, MessageIterator, iter_messages, Request, get_history, messages,
  extract_messages, keep_messages, last_id, Reply, replied, request, batch_limit, take_batch,
  on_reply, serve, on_batch, fetch_batch, fetch_resolved, Batch, next_from, next, gather, collect,
  item,
}

-- The messages that are older than `o`; all of them, if `o` is 0.
abbrev pub older : ℤ → List RawMessage → List RawMessage
older o h = if eqb_ℤ o (pos 0) then h else keep (λ m. ltb_ℤ m.id o) h

-- A history, with the newest message first and positive identifiers.
abbrev pub IsHistory : List RawMessage → Type 0
IsHistory [] = Unit
IsHistory (m ∷ h) = (pos 0 <ℤ m.id) × All (λ n. n.id <ℤ m.id) h × IsHistory h

-- The server answers a request for history without bounds with the newest messages before the offset,
-- as many as are asked for.
abbrev pub Answers : {W Err : Type 0} → (Request → W → Reply Err × W) → List RawMessage → Type 0
Answers {W} {Err} api h =
    (limit o : ℤ) (w : W)
    → api
        (get_history (record { limit = limit; offset_id = o; max_id = pos 0; min_id = pos 0 })
          (pos 0))
        w
      ≡ (replied (messages (map message (take (pos_part limit) (older o h)))), w)

-- Parameters that ask for the whole history, in batches of `n`.
abbrev pub whole : ℤ → ℕ → IterMessagesParams
whole peer_id n = record {
  peer_id = peer_id;
  limit = pos 0;
  offset_id = pos 0;
  max_id = pos 0;
  min_id = pos 0;
  search = [];
  from_user_id = pos 0;
  reverse = false;
  batch_size = pos n;
}

keep_messages-map : (msgs : List RawMessage) → keep_messages (map message msgs) ≡ msgs
unfolding keep_messages
keep_messages-map [] = refl
keep_messages-map (m ∷ msgs) = ap (◌∷◌ m) (keep_messages-map msgs)

abbrev head? : List RawMessage → Option RawMessage
head? [] = none
head? (m ∷ msgs) = some m

IsHistory-suffix : (xs ys : List RawMessage) → IsHistory (xs ++ ys) → IsHistory ys
IsHistory-suffix [] ys h = h
IsHistory-suffix (x ∷ xs) ys h = IsHistory-suffix xs ys h.2

keep-none :
    (o : ℤ) (ws : List RawMessage) → All (λ n. n.id <ℤ o) ws → keep (λ m. ltb_ℤ m.id o) ws ≡ ws
keep-none o [] h = refl
keep-none o (w ∷ ws) h =
    let e : ltb_ℤ w.id o ≡ true = ground arith in rw e (ap (◌∷◌ w) (keep-none o ws h.1))

keep-suffix :
    (o : ℤ) (us ws : List RawMessage)
    → All (λ n. o ≤ℤ n.id) us
    → All (λ n. n.id <ℤ o) ws
    → keep (λ m. ltb_ℤ m.id o) (us ++ ws) ≡ ws
keep-suffix o [] ws h k = keep-none o ws k
keep-suffix o (u ∷ us) ws h k =
    let e : ltb_ℤ u.id o ≡ false = ground arith in rw e (keep-suffix o us ws h.1 k)

-- The last message of a part of a history has the least identifier, and one above those behind.
last_id-least :
    (y : RawMessage) (zs ws : List RawMessage)
    → IsHistory (y ∷ zs ++ ws)
    → (pos 0 <ℤ last_id y zs)
      × (last_id y zs ≤ℤ y.id)
      × All (λ n. last_id y zs ≤ℤ n.id) zs
      × All (λ n. n.id <ℤ last_id y zs) ws
unfolding last_id
last_id-least y [] ws h = (h.0, omega arith, tt, h.1)
last_id-least y (z ∷ zs) ws h =
    let (p, l, least, above) = last_id-least z zs ws h.2 in
    let first = h.1.0 in (p, omega arith, (l, least), above)

older-last_id :
    (xs : List RawMessage) (y : RawMessage) (zs ws : List RawMessage)
    → IsHistory (xs ++ (y ∷ zs ++ ws))
    → keep (λ m. ltb_ℤ m.id (last_id y zs)) (xs ++ (y ∷ zs ++ ws)) ≡ ws
older-last_id [] y zs ws h =
    let (p, l, least, above) = last_id-least y zs ws h in
    keep-suffix (last_id y zs) (y ∷ zs) ws (l, least) above
older-last_id (x ∷ xs) y zs ws h =
    let (p, l, least, above) = last_id-least y zs ws (IsHistory-suffix xs (y ∷ zs ++ ws) h.2) in
    let first = (All-suffix (λ n. n.id <ℤ x.id) xs (y ∷ zs ++ ws) h.1).0 in
    let e : ltb_ℤ x.id (last_id y zs) ≡ false = ground arith in rw e (older-last_id xs y zs ws h.2)

drop-get_elem? :
    (p : ℕ) (buf : List RawMessage) (m : RawMessage) (rest : List RawMessage)
    → drop p buf ≡ m ∷ rest
    → (get_elem? buf p ≡ some m) × (drop (suc p) buf ≡ rest)
drop-get_elem? zero [] m rest e =
    let k : 0 ≡ suc (length rest) = ap length e in absurd (omega arith)
drop-get_elem? zero (b ∷ buf) m rest e = (ap head? e, ap (drop 1) e)
drop-get_elem? (suc p) [] m rest e =
    let k : 0 ≡ suc (length rest) = ap length e in absurd (omega arith)
drop-get_elem? (suc p) (b ∷ buf) m rest e = drop-get_elem? p buf m rest e

drop-end : (p : ℕ) (buf : List RawMessage) → drop p buf ≡ [] → get_elem? buf p ≡ none
drop-end p [] e = refl
drop-end zero (b ∷ buf) e = let k : suc (length buf) ≡ 0 = ap length e in absurd (omega arith)
drop-end (suc p) (b ∷ buf) e = drop-end p buf e

module _ {W Err : Type 0} (resolve_peer : ℤ → Option Err) (api : Request → W → Reply Err × W)
    (h : List RawMessage) (peer_id : ℤ) (k : ℕ) (resolves : resolve_peer peer_id ≡ none)
    (answers : Answers api h) (history : IsHistory h) where
  -- An iterator within the run.
  abbrev running : List RawMessage → ℕ → ℕ → ℤ → MessageIterator
  running buf p f o = record {
    params = whole peer_id (suc k);
    buf = buf;
    buf_pos = p;
    done = false;
    fetched = f;
    offset_id = o;
  }

  next-buffered :
      (buf : List RawMessage) (p f : ℕ) (o : ℤ) (m : RawMessage) (w : W)
      → get_elem? buf p ≡ some m
      → next resolve_peer api (running buf p f o) w ≡ ((item m, running buf (suc p) (suc f) o), w)
  unfolding next serve
  next-buffered buf p f o m w e = ap (next_from resolve_peer api (running buf p f o) w) e

  fetch_batch-running :
      (buf ys : List RawMessage) (p f : ℕ) (o : ℤ) (w : W)
      → older o h ≡ ys
      → fetch_batch resolve_peer api (running buf p f o) w
        ≡ (take_batch (running buf p f o) (take (suc k) ys), w)
  unfolding fetch_batch request batch_limit on_reply eqb_ℤ extract_messages
  fetch_batch-running buf ys p f o w e =
      let it = running buf p f o in
      ap (fetch_resolved resolve_peer api it w) resolves
      ∙ (ap (λ (a : Reply Err × W). (on_reply it a.0, a.1)) (answers (pos (suc k)) o w)
          ∙ ap (λ (msgs : List RawMessage). (take_batch it msgs, w))
              (keep_messages-map (take (suc k) (older o h)) ∙ ap (take (suc k)) e))

  next-fetched :
      (buf ys : List RawMessage) (p f : ℕ) (o : ℤ) (w : W)
      → get_elem? buf p ≡ none
      → older o h ≡ ys
      → next resolve_peer api (running buf p f o) w ≡ (
        on_batch
            (take_batch {Err = Err} (running buf p f o) (take (suc k) ys)).0
            (take_batch {Err = Err} (running buf p f o) (take (suc k) ys)).1,
        w,
      )
  unfolding next
  next-fetched buf ys p f o w e g =
      ap (next_from resolve_peer api (running buf p f o) w) e
      ∙ ap (λ (r : (Batch Err × MessageIterator) × W). (on_batch r.0.0 r.0.1, r.1))
          (fetch_batch-running buf ys p f o w g)

  later :
      (xs : List RawMessage) (y : RawMessage) (ys : List RawMessage)
      → h ≡ xs ++ y ∷ ys
      → (h ≡ (xs ++ y ∷ take k ys) ++ drop k ys) × (older (last_id y (take k ys)) h ≡ drop k ys)
  unfolding eqb_ℤ
  later xs y ys e =
      let split = ap (λ v. xs ++ y ∷ v) (sym (take-append-drop k ys)) in
      let whole_history = subst IsHistory (e ∙ split) history in
      let (p, l, least, above) =
        last_id-least y (take k ys) (drop k ys)
          (IsHistory-suffix xs (y ∷ take k ys ++ drop k ys) whole_history) in
      let positive : eqb_ℤ (last_id y (take k ys)) (pos 0) ≡ false = ground arith in
      (
        e ∙ (split ∙ sym (append_assoc xs (y ∷ take k ys) (drop k ys))),
        rw positive (
            ap (keep (λ m. ltb_ℤ m.id (last_id y (take k ys)))) (e ∙ split)
            ∙ older-last_id xs y (take k ys) (drop k ys) whole_history),
      )

  collect-running :
      (fuel : ℕ) (buf xs rest ys out : List RawMessage) (p f : ℕ) (o : ℤ) (w : W)
      → drop p buf ≡ rest
      → h ≡ xs ++ ys
      → older o h ≡ ys
      → length rest + length ys < fuel
      → collect resolve_peer api fuel (pos 0) (running buf p f o) out w
        ≡ some (out ++ (rest ++ ys), none)
  unfolding collect take_batch serve
  collect-running zero buf xs rest ys out p f o w d e g l = absurd (omega arith)
  collect-running (suc fuel) buf xs (m ∷ rest) ys out p f o w d e g l =
      let (at_p, left) = drop-get_elem? p buf m rest d in
      ap (gather (collect resolve_peer api fuel (pos 0)) (pos 0) out)
        (next-buffered buf p f o m w at_p)
      ∙ (collect-running fuel buf xs rest ys (out ++ m ∷ []) (suc p) (suc f) o w left e g
            (omega arith)
          ∙ ap (λ (v : List RawMessage). some (v, none)) (append_assoc out (m ∷ []) (rest ++ ys)))
  collect-running (suc fuel) buf xs [] [] out p f o w d e g l =
      ap (gather (collect resolve_peer api fuel (pos 0)) (pos 0) out)
        (next-fetched buf [] p f o w (drop-end p buf d) g)
      ∙ ap (λ (v : List RawMessage). some (v, none)) (sym (append-nil out))
  collect-running (suc fuel) buf xs [] (y ∷ ys) out p f o w d e g l =
      let (split, left) = later xs y ys e in
      let sum : length (take k ys) + length (drop k ys) ≡ length ys =
        sym (length-append (take k ys) (drop k ys)) ∙ ap length (take-append-drop k ys) in
      ap (gather (collect resolve_peer api fuel (pos 0)) (pos 0) out)
        (next-fetched buf (y ∷ ys) p f o w (drop-end p buf d) g)
      ∙ (collect-running fuel (y ∷ take k ys) (xs ++ y ∷ take k ys) (take k ys) (drop k ys)
            (out ++ y ∷ []) 1 (suc f) (last_id y (take k ys)) w refl split left (omega arith)
          ∙ ap (λ (v : List RawMessage). some (v, none))
              (append_assoc out (y ∷ []) (take k ys ++ drop k ys)
                ∙ ap (λ (v : List RawMessage). out ++ y ∷ v) (take-append-drop k ys)))

-- When the peer is resolved and the server keeps a history of ordinary messages and answers by it,
-- Collect without limits returns the whole history, newest first, each message once, in batches of
-- any positive size, with more fuel than the history has messages.
pub collect-history :
    {W Err : Type 0} (resolve_peer : ℤ → Option Err) (api : Request → W → Reply Err × W)
    (h : List RawMessage) (peer_id : ℤ) (k fuel : ℕ) (w : W)
    → resolve_peer peer_id ≡ none
    → Answers api h
    → IsHistory h
    → length h < fuel
    → collect resolve_peer api fuel (pos 0) (iter_messages (whole peer_id (suc k))) [] w
      ≡ some (h, none)
unfolding iter_messages eqb_ℤ
collect-history resolve_peer api h peer_id k fuel w resolves answers history l =
    let positive : leb_ℤ (pos (suc k)) (pos 0) ≡ false = ground arith in
    rw positive (
      collect-running resolve_peer api h peer_id k resolves answers history fuel [] [] [] h [] 0 0
        (pos 0) w refl refl refl (omega arith))
