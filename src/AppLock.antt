-- ===== src/AppLock.antt =====
-- src/lock/lock-controller.ts: the app lock, with the connection of src/db/client.ts that it opens and
-- closes and the lockout record that src/crypto/secure-storage.ts keeps.
--
-- The module's variables are the fields of Lock, and `stored` is what secure storage holds, which a
-- restart of the process does not change (a save is taken to succeed). What the key store and SQLite
-- answer is an argument.
pub mod State
pub mod Unlock
pub mod Gate
pub mod Guesses
pub mod Opening
pub mod Away
mod Tests
