-- ===== src/Lib.antt =====
-- NurChat: an end-to-end encrypted messenger. This library models the services of its client, which
-- keep the secrets and the state of a device, and proves what makes each of them correct.
--
-- Parts and files. Paths are from the root of the repository; S stands for frontend/src/services.
-- - Prelude, Text, Assoc and Exec: native numbers and lists, strings and byte arrays as lists of code
--   units, maps as lists of entries in their order, methods that change an object and may throw.
-- - Ratchet: S/doubleRatchet.ts, the sessions between two users, with its hex coding from
--   S/cryptoAdapter.ts. `Kdf` has the key derivation, `Session` the fields and the associated data,
--   `Handshake` X3DH and the two ways to start, `Steps` the ratchet steps (dhRatchetSend and
--   dhRatchetRecv), `Messages` encryptMessage and decryptMessage, `Stored` serialize and deserialize;
--   the other modules have the properties, `Refusal` those of a message that does not open.
-- - SecureStorage: S/secureStorage.ts, the encrypted records of IndexedDB: the file itself has the state,
--   the wrapping key and the encryption at rest, `Records` the records by their kinds, `Rewrap` the change
--   of the passphrase, `Namespaces` the records of one account; `Coherent`, `Secret`, `Reads`, `Boxes`,
--   `Rewrapped`, `Unreadable` and `Others` have what the calls keep. `Toy` is a cipher for the tests.
-- - E2e: S/e2e.ts, the sessions of the chats of two and their messages: `Payload` the sessions at rest,
--   `Sessions` their making and dropping, `Messages` encryptMessage and decryptMessage, `Keys` the keys and
--   prekeys of the device; `Calls`, `Exchange` and
--   `FirstMessage` follow a text from one side to the other, `Prekeys` is on setupPreKeys, `Cached` and
--   `Invalidation` on the caches, `Restore` and `Reload` on a page that is loaded again, `Keeps` on what stays in memory.
-- - Padding: padBytes and unpadBytes of S/e2e.ts, which S/groupE2E.ts repeats and the group ratchet uses.
-- - Group: S/groupE2E.ts, the ratchet of a group chat: `Group` the store of its states and the sender,
--   `Group.Receive` the receiver, `Group.Delivery` one state of each, `Group.Messages`
--   the two calls on their stores, `Group.Keys` the group key that is sent to each member and the messages
--   of groups without a ratchet.
-- - FileE2e: S/fileE2E.ts, the frame and the encryption of a file and the wrapping of its key, which is
--   that of `Group.Keys`; `FileE2e.Delivery` is on a file from one user to another.
-- - CallE2e: S/callE2E.ts, the sealing of the messages by which a call is set up, with what JSON and the
--   values do in the record `Values`; `CallE2e.Unsealed` is on a message that is sealed and unsealed.
-- - TokenVault: S/tokenVault.ts, the tokens of a session; PinLock: S/pinLock.ts, the PIN and its
--   lockout; RefreshSync: S/refreshSync.ts, the lock by which one tab refreshes the tokens.
-- - KeyVerification: S/keyVerification.ts; Outbox: S/outbox.ts; PlaintextCache: S/plaintextCache.ts;
--   BlobManager: S/blobManager.ts; Profiles: S/profiles.ts; SafetyNumber:
--   generateSafetyNumber of S/e2e.ts.
--
-- How the code is read. A method of an object is a function from its state to a result and a new state,
-- which comes back beside an error too. What the program calls and does not implement (the curve, the
-- cipher, hashes, base64, UTF-8) is the record `Ratchet.Primitives`, and `AreLawful` its documented
-- behaviour; a test double that has it is `Ratchet.Toy`. Randomness is a count of draws, time an
-- argument. The browser's PBKDF2 and AES-GCM are the record `SecureStorage.Aes`, the signatures `E2e.Signatures`,
-- JSON `Json` and `E2e.Codecs`. Secure storage is seen by the vault and the PIN through the interfaces
-- `Wrapping`, which `TokenVault.Secured` fills from SecureStorage, and `Keystore`. A call of S/e2e.ts runs to
-- its end before the next one; the relay's answer to a request for prekeys is an argument.
--
-- Bounds and fuel. The loops over steps run for the difference of two steps, which is their number of
-- rounds; the chunks of base64 and of the key derivation run for the number of blocks. Numbers of steps
-- are naturals, with the 32 bits of the group envelope written out.
--
-- Writes and tabs. The database of secure storage may not open, or open and refuse every put and the
-- transaction of a change of the passphrase; deletions end well once it opens. Between the steps of an
-- acquisition of the refresh lock other tabs may come, as localStorage has no atomic operations; a release
-- is one step.
--
-- Not modelled. Buffers that are wiped and not read again; calls for one chat that wait for each other,
-- which are steps in their order; a Uint8Array on a part of a larger buffer; header numbers that are no
-- naturals; parseInt on signs and spaces; the relay, the network and the user interface; the timer of the
-- automatic clearing; the reactions, the start of the application and the migration of old storage; the
-- transfer of a device.
mod Prelude
mod Text
mod Assoc
mod Exec
pub mod Ratchet
pub mod Padding
pub mod Group
pub mod KeyVerification
pub mod PlaintextCache
pub mod TokenVault
pub mod PinLock
pub mod RefreshSync
pub mod Outbox
pub mod BlobManager
pub mod Profiles
pub mod SafetyNumber
pub mod SecureStorage
pub mod CallE2e
pub mod E2e
pub mod FileE2e
