-- ===== src/Lib.antt =====
-- Nuco messenger: the app's own logic, modelled and proved.
--
-- The app talks end to end encrypted through a relay. The parts modelled here, each in the tree of
-- modules named for it:
-- * calls (src/calls/types.ts, src/calls/controller.ts), in Call. Types and State have the data: a
--   Controller is the fields of `CallController`, an ActiveCall its call object. Objects are compared
--   by reference, so each has a number, `ref`. What a method calls in its dependencies goes to the
--   field `trace`, newest first. A timer remembers the call object that its callback closed over;
--   one that is assigned over while it runs would go to `orphans`. An asynchronous method is cut at
--   its awaits into parts (`place_call`, `place_turn`, `place_sdp`, `place_sent` for `placeCall`;
--   `answer`, `answer_turn`, `answer_sdp`, `answer_sent` for `answer`; `lock_task`, `lock_signal`,
--   `lock_row`, `lock_teardown` for `onAppLocking`), each with the outcome of the promise as an
--   argument; `awaiting` says which promise the live call's method awaits. Teardown, Outgoing,
--   Incoming, Media, Signals and Ends have the methods under their own names (`decline` is
--   `decline_call`). Machine makes them one step function on events, in any order. Invariant states
--   what holds in every state, and its children prove it; Laws has the rest.
--   Times are milliseconds; `now() - sentAt >= staleOfferMs` is written `sentAt + stale <= now`, and
--   `Math.round(ms / 1000)` as (ms + 500) / 1000. A row's body keeps the duration as a number.
--   `callOfferWins` of the protocol package is a parameter, `wins`. An engine is taken not to throw
--   when it is created, and `withTimeout` is the outcome of its promise as a Bool. `lock_teardown` reads
--   the engine of a call that was replaced during its awaits as it was when it was captured.
-- * the app lock (src/lock/lock-controller.ts, src/db/client.ts and the lockout record of
--   src/crypto/secure-storage.ts), in AppLock. State has the module's variables as a record, Lock, with
--   what secure storage keeps across restarts; Unlock has `unlockWithPin`, `unlockWithBiometrics` and
--   `lock`; Gate has `onAppStateChange`. What the key store and SQLite answer is an argument. A save of
--   the lockout record is taken to succeed, and attempts run one after another. Guesses, Opening and
--   Away have the properties; Away composes the lock with the call controller as src/services/calls.ts
--   does.
-- * chat locks (src/lock/chat-locks.ts), in ChatLock. ChatLocks holds the module's maps, the keystore's
--   items and index, and the two tables that it changes; Custody has the keys and the unlocks, History
--   the two passes over a chat's messages, Switch what turns a lock on and off. The loops of the passes
--   run on fuel: one more than the rows they have to do is enough (Passes, Unsealing), and the
--   operations give them that much. The ciphers of src/crypto/chat-lock.ts are a record of functions,
--   Ciphers, without laws: that a sealed body opens again is a hypothesis of Intact and RoundTrip, and
--   `reading` is what a row shows with the chat's key, where any sealing parameters are taken to parse.
--   Enabling and Ready have lemmas for them, Index and Indexing for Wiping, and CodeGuesses is about the
--   lockout of a chat's code.
--   Conversations of Db is src/db/repos/conversations.ts.
-- * the repositories (src/db/repos), in Db: a table is the list of its rows in the order of insertion,
--   and a query a function on it. Messages, Pending and Previews are src/db/repos/messages.ts;
--   Integrity, Counts, Newest and OneEach have their properties. Where a query leaves the order of equal keys
--   open, they keep the order of insertion. A string that is parsed only elsewhere stays a string.
-- * images (src/services/image-codec.ts, src/db/repos/image-transfers.ts and the branches `image` and
--   `image/chunk` of `doReceiveEnvelope` in src/services/messaging.ts), in Images and Db.Transfers. A
--   base64 text is the list of its characters. The digest, the protocol's sizes and the JSON of a row's
--   layout are arguments. The loop of `splitB64` has a round for every character as fuel.
-- * negotiations (src/services/messaging.ts, the request and accept flows of retention and screenshot
--   protection), in Negotiation. A Device is the two tables and what was sent; Retention and Screenshot
--   have the operations and the receive branches, Agreement and Protection what two devices come to. A
--   fresh row id is an argument, and so is `String` of a number.
-- * messaging (src/services/messaging.ts and src/services/verification.ts, on src/db/repos/contacts.ts),
--   in Messaging and Db.Contacts. Store is what the two services work on, World what stands outside of
--   them: ids, the relay's answers, hashes, printers, ciphers. Gate, Sending, SendingImages and Resending
--   are the way out, Receiving is `doReceiveEnvelope`, Confirms the mutual verification. What a Signal
--   session makes of an envelope is an argument. Gated is about the gates of the way in; Controls,
--   Redelivery, AtLeastOnce, Delivered and Harmless are about envelopes that come twice, Handshake and
--   Pairing about two devices, Sent about a text that leaves, Resent, Statuses and Outcomes about the resend
--   after an app kill.
-- * the relay client (src/transport/relay.ts), in Relay: State is the fields of RelayClient, Machine its
--   step on whatever the socket, the timers, the attestation provider and the callers do. An async
--   function is cut at its awaits, and a request carries who awaits it. Queue, Connection, Requests and
--   Handshake are its methods; Flights, Serving, Flushing, Replies and Serial lead up to
--   Fifo; Overlap is about two flushes at once, Backoff about the delays. Sending a frame on an open socket
--   is taken not to throw.
-- Prelude has what the parts share: tests on numbers, lists over the native numbers, and sets of
-- keys in insertion order (the Set and Map of the source).
--
-- Not modelled: the screens, the translations, the adapters of native modules (audio, WebRTC,
-- CallKit, libsignal, SQLite, push), and the vendored protocol package, which are platform code or
-- another project's; and, of the app's own code, the Signal sessions and the texts that a verification
-- shows (src/crypto), the settings table, the migrations, and the rest of src/services.
mod Prelude
pub mod Call
pub mod AppLock
pub mod ChatLock
pub mod Db
pub mod Images
pub mod Negotiation
pub mod Messaging
pub mod Relay
