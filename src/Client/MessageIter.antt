-- ===== src/Client/MessageIter.antt =====
-- client/iter.go, and extractMessages of client/messages.go. The peer resolution and the two methods of
-- gotd are parameters, over any world; a message is one of Events/Update.
pub mod Histories
mod Tests
use telegram_mcub_go.Base.{
  ℕ, zero, suc, ◌+◌, List, [], ◌∷◌, ◌++◌, length, get_elem?, Bool, true, false, not, ◌&&◌, ◌||◌,
  Option, none, some, if◌then◌else◌, ltb, ℤ, pos, ◌+ℤ◌, ◌-ℤ◌, leb_ℤ, ltb_ℤ, eqb_ℤ,
}
use telegram_mcub_go.Helpers.Utf16.{Text}
use telegram_mcub_go.Events.Update.{RawMessage, MessageClass, message, service, empty}

pub record IterMessagesParams : Type 0 where
  pub peer_id : ℤ
  pub limit : ℤ
  pub offset_id : ℤ
  pub max_id : ℤ
  pub min_id : ℤ
  pub search : Text
  pub from_user_id : ℤ
  pub reverse : Bool
  pub batch_size : ℤ

pub record MessageIterator : Type 0 where
  pub params : IterMessagesParams
  pub buf : List RawMessage
  pub buf_pos : ℕ
  pub done : Bool
  pub fetched : ℕ
  pub offset_id : ℤ

unfoldable pub iter_messages : IterMessagesParams → MessageIterator
iter_messages params = record {
  params = record params {
    batch_size = if leb_ℤ params.batch_size (pos 0) then pos 100 else params.batch_size;
  };
  buf = [];
  buf_pos = 0;
  done = false;
  fetched = 0;
  offset_id = params.offset_id;
}

-- What the two requests have in common.
pub record Range : Type 0 where
  pub limit : ℤ
  pub offset_id : ℤ
  pub max_id : ℤ
  pub min_id : ℤ

-- `MessagesGetHistoryRequest` and `MessagesSearchRequest`, the latter with the sender, if there is one.
pub data Request : Type 0 where
  get_history : Range → (add_offset : ℤ) → Request
  search_messages : Range → Text → Option ℤ → Request

-- `tg.MessagesMessagesClass`: the three classes with messages, and the others.
pub data Messages : Type 0 where
  messages messages_slice channel_messages : List MessageClass → Messages
  messages_not_modified : Messages

unfoldable pub keep_messages : List MessageClass → List RawMessage
keep_messages [] = []
keep_messages (message m ∷ msgs) = m ∷ keep_messages msgs
keep_messages (service s ∷ msgs) = keep_messages msgs
keep_messages (empty ∷ msgs) = keep_messages msgs

unfoldable pub extract_messages : Messages → List RawMessage
extract_messages (messages msgs) = keep_messages msgs
extract_messages (messages_slice msgs) = keep_messages msgs
extract_messages (channel_messages msgs) = keep_messages msgs
extract_messages messages_not_modified = []

-- The swaps of the reverse iteration.
unfoldable pub reversed : List RawMessage → List RawMessage
reversed [] = []
reversed (m ∷ msgs) = reversed msgs ++ m ∷ []

-- The identifier of the last message, of some.
unfoldable pub last_id : RawMessage → List RawMessage → ℤ
last_id m [] = m.id
last_id m (n ∷ msgs) = last_id n msgs

abbrev is_filtered : Text → ℤ → Bool
is_filtered [] from_user_id = not (eqb_ℤ from_user_id (pos 0))
is_filtered (r ∷ search) from_user_id = true

-- How many messages the next request asks for.
unfoldable pub batch_limit : MessageIterator → ℤ
batch_limit it =
    let remaining = it.params.limit -ℤ pos it.fetched in
    if ltb_ℤ (pos 0) it.params.limit && ltb_ℤ remaining it.params.batch_size
    then remaining
    else it.params.batch_size

unfoldable pub request : MessageIterator → Request
unfolding batch_limit
request it =
    let size = batch_limit it in
    let range : Range = record {
      limit = size;
      offset_id = it.offset_id;
      max_id = it.params.max_id;
      min_id = it.params.min_id;
    } in
    let from = if eqb_ℤ it.params.from_user_id (pos 0) then none else some it.params.from_user_id in
    if is_filtered it.params.search it.params.from_user_id
    then search_messages range it.params.search from
    else get_history range (if it.params.reverse then pos 0 -ℤ size else pos 0)

-- What gotd returns for a request.
pub data Reply (Err : Type 0) : Type 0 where
  refused : Err → Reply Err
  replied : Messages → Reply Err

-- What `fetchBatch` returns.
pub data Batch (Err : Type 0) : Type 0 where
  batch_failed : Err → Batch Err
  batch : List RawMessage → Batch Err

-- What `Next` returns.
pub data Step (Err : Type 0) : Type 0 where
  item : RawMessage → Step Err
  exhausted : Step Err
  failed : Err → Step Err

module _ {Err : Type 0} where
  -- The messages of a reply in the order of the iteration, and the offset of the next request.
  unfoldable pub take_batch : MessageIterator → List RawMessage → Batch Err × MessageIterator
  take_batch it [] = (batch [], it)
  take_batch it (m ∷ msgs) =
      if it.params.reverse
      then (batch (reversed (m ∷ msgs)), record it { offset_id = m.id +ℤ pos 1 })
      else (batch (m ∷ msgs), record it { offset_id = last_id m msgs })

  unfoldable pub on_reply : MessageIterator → Reply Err → Batch Err × MessageIterator
  on_reply it (refused e) = (batch_failed e, it)
  on_reply it (replied result) = take_batch it (extract_messages result)

  -- Serving a message of the buffer.
  unfoldable pub serve : MessageIterator → RawMessage → Step Err × MessageIterator
  serve it m =
      let fetched = suc it.fetched in
      let reached = ltb_ℤ (pos 0) it.params.limit && leb_ℤ it.params.limit (pos fetched) in
      (item m, record it { buf_pos = suc it.buf_pos; fetched = fetched; done = reached || it.done })

  abbrev pub finish : MessageIterator → Step Err × MessageIterator
  finish it = (exhausted, record it { done = true })

  -- `Next` on what `fetchBatch` returned; its call of itself serves the first message.
  abbrev pub on_batch : Batch Err → MessageIterator → Step Err × MessageIterator
  on_batch (batch_failed e) it = (failed e, it)
  on_batch (batch []) it = finish it
  on_batch (batch (m ∷ msgs)) it = serve (record it { buf = m ∷ msgs; buf_pos = 0 }) m

module _ {W Err : Type 0} where
  -- The loop of `Collect` on what `Next` returned.
  abbrev pub gather :
      (MessageIterator → List RawMessage → W → Option (List RawMessage × Option Err))
      → ℤ
      → List RawMessage
      → (Step Err × MessageIterator) × W
      → Option (List RawMessage × Option Err)
  gather more limit out ((failed e, it), w) = some (out, some e)
  gather more limit out ((exhausted, it), w) = some (out, none)
  gather more limit out ((item m, it), w) =
      let rest = more it (out ++ m ∷ []) w in
      if ltb_ℤ (pos 0) limit && leb_ℤ limit (pos (length (out ++ m ∷ [])))
      then some (out ++ m ∷ [], none)
      else rest

module _ {W Err : Type 0} (resolve_peer : ℤ → Option Err) (api : Request → W → Reply Err × W) where
  -- `none` is a peer that is resolved.
  abbrev pub fetch_resolved : MessageIterator → W → Option Err → (Batch Err × MessageIterator) × W
  fetch_resolved it w (some e) = ((batch_failed e, it), w)
  fetch_resolved it w none = let answer = api (request it) w in (on_reply it answer.0, answer.1)

  unfoldable pub fetch_batch : MessageIterator → W → (Batch Err × MessageIterator) × W
  fetch_batch it w = fetch_resolved it w (resolve_peer it.params.peer_id)

  -- `Next` with a message left in the buffer, or with none.
  abbrev pub next_from : MessageIterator → W → Option RawMessage → (Step Err × MessageIterator) × W
  next_from it w (some m) = (serve it m, w)
  next_from it w none =
      let fetch = fetch_batch it w in
      if ltb_ℤ (pos 0) it.params.limit && leb_ℤ it.params.limit (pos it.fetched)
      then (finish it, w)
      else (on_batch fetch.0.0 fetch.0.1, fetch.1)

  unfoldable pub next : MessageIterator → W → (Step Err × MessageIterator) × W
  next it w = if it.done then ((exhausted, it), w) else next_from it w (get_elem? it.buf it.buf_pos)

  -- `none` is a loop that has not ended within the fuel.
  unfoldable pub collect :
      ℕ → ℤ → MessageIterator → List RawMessage → W → Option (List RawMessage × Option Err)
  collect zero limit it out w = none
  collect (suc fuel) limit it out w = gather (collect fuel limit) limit out (next it w)
