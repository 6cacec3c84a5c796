-- ===== src/Lib.antt =====
-- Verification of the core logic of telegram-mcub-go, a Telegram client library on top of gotd/td. The
-- API wrappers of the repository fill request records and call gotd; what is modelled is the logic
-- that the library adds to that.
--
-- The program's parts and the modules that model them:
-- - helpers/helpers.go: Helpers/Utf16 (UTF16Len, ToUTF16, FromUTF16, WithinSurrogate), Helpers/Entity
--   (the accessors of message entities) and Helpers/Strip (StripText, whose loop body is `clip`).
-- - types/conversation.go: Types/Conversation holds the state and the methods, Types/Conversation/Wait
--   the waits. A buffered channel is a list of at most 64 values; a wait is a loop over what its select
--   sees, in which calls of other goroutines may come in between.
-- - types/participant_permissions.go: Types/Permissions. types/protection.go: Types/Protection.
-- - events/events.go: Events/Dispatcher (handlers, filters, the middleware chain; a handler is a
--   function of the event and the world) and Events/Manager (ConversationManager, whose lists hold
--   addresses of conversations in a heap, since they are shared). Events/Update holds the classes of
--   gotd that the package reads, Events/Event the event types of the package's other files,
--   Events/Converters their FromUpdate functions, and Events/Updates HandleUpdatesClass and
--   HandleUpdate, which convert an update and dispatch the event. events/common.go: Events/Filters.
-- - client/extensions/markdown.go: Extensions/Markdown. One round of ParseMarkdown's loop is `step`, on a
--   state of the units, the entities and the position; Extensions/Markdown/Mention is parseTGMention of
--   client/extensions/html.go, and Extensions/Markdown/Unparse is UnparseMarkdown. An offset into a
--   string counts code points where the source counts bytes.
-- - client/protection.go and client/middleware.go: Client/FloodWait reads the wait from an error's text,
--   Client/Retry is the loop of both retry middlewares over any invoker and timer, which are
--   parameters, Client/RateLimit the turns that the rate limiter hands out, and Client/Metrics the
--   MetricsCollector.
-- - client/requestiter.go: Client/RequestIter, with any page loader.
-- - client/iter.go and extractMessages of client/messages.go: Client/MessageIter, over any peer resolution
--   and any server, which are parameters.
-- - client/downloads.go, DownloadFile: Client/Download, with Save and Load of session/session.go's
--   StateStore. The calls of gotd and of the operating system, with their errors, are a parameter;
--   the file and the stored state are a record.
-- - client/uploads.go, uploadFile: Client/Upload, with the server calls as a parameter.
-- - utils/utils.go: Utils/Chunks, and Utils/Peers together with types/hints.go and the peer resolution
--   of client/messages.go, which must agree on how a peer is a number.
-- - session/session.go, MemorySessionStorage and CachedSessionStorage: Session/Cache, over any storage.
--   StringSession: Session/Strings, with base64 written out and package net as a parameter.
-- - crypto/srp.go: Crypto/Srp, with SHA-256, PBKDF2 and the random bytes as parameters.
-- The manager delivers to the conversations of Types/Conversation; the client's retry middleware
-- reads the policies of Types/Protection and the texts of Client/FloodWait; the dispatcher gets the
-- events of the converters, whose peer numbers the peer resolution of Utils/Peers reads back; the
-- Markdown parser ends with StripText. Base and its children hold what all modules share: lists and
-- signed integers over the native numbers. Modules named Tests hold concrete inputs.
--
-- Bounds and fuel. Integers of 64 bits are unbounded: their wrap-around is not modelled, except in
-- the two readings of a flood wait. Loops without an evident end run on fuel, and `none` is that it
-- ran out: `Chunks` gets one round more than it has items, and both `Collect` functions,
-- `uploadFile` and `DownloadFile` take the fuel as an argument that is more than the number of
-- items or bytes, since each round but the last takes one at least. `ParseMarkdown` gets one round
-- more than the text has UTF-16 units, since each round leaves fewer units from the position on.
-- The search for a random secret runs over the list of the random draws.
--
-- Not modelled: gotd itself, files and databases, the interleaving of goroutines inside a critical
-- section, the methods of events that call the client, the HTML parser, and the paging loops of dialogs
-- and history exports.
pub mod Base
pub mod Helpers
pub mod Types
pub mod Events
pub mod Extensions
pub mod Client
pub mod Utils
pub mod Session
pub mod Crypto
