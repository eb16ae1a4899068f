-- ===== src/Lib.antt =====
-- CryptKeeper's background page: identities, hosts, credentials, proofs and requests to the user.
--
-- The extension keeps semaphore identities for the user. Its background page
-- (packages/app/src/background) answers messages of the popup and of web pages. A message passes the
-- handler (controllers/handler.ts), which checks the sender and runs the middlewares and the handler
-- that the controller (cryptKeeper.ts) has registered. The services keep their data in memory and,
-- encrypted, in the browser's storage; the key is the mnemonic, which itself is stored encrypted
-- under the password.
--
-- Shared:
--   Prelude, JsMap: tests, lists, pieces of strings, codecs, and JavaScript's Map
--   Types: packages/types/src and packages/app/src/types
--   Env: what the services call and the repository does not implement (crypto-js, bip39, ethers, the
--     semaphore identity, nanoid, the clock, JSON), as functions, and the laws relied on
--   State: the browser's storage, the memory of each service (each is a singleton), what was sent
--   Exec: a method is a function from the state to a result or an error, and a state; a method that
--     throws keeps the changes made before
--   Stored: what a service would load from its key, and when that agrees with its memory
-- Services of packages/app/src/background/services:
--   SimpleStorage (storage), Base (base), Crypto (crypto), Lock (lock), Approval (approval),
--   Connection (connection), ZkIdentity (zkIdentity), History (history), Wallet (wallet), Misc (misc);
--   Backupable holds the backup methods that several services write in the same way,
--   and ZkIdentity.Backup and Wallet.Backup those of two others;
--   ZkIdentitySemaphore is packages/zk/src/identity; Browser is controllers/browserUtils.ts and the
--   notification service
-- Requests, proofs and groups, also of packages/app/src/background/services unless said otherwise:
--   Requests: the types of packages/types/src/proof, request and group
--   RequestManager is controllers/requestManager.ts: a promise of newRequest is named by the id of its
--     request, and closing a window runs the listeners in the order in which they were added, also
--     where closePopup closes it (Browser); newRequest runs up to its promise with nothing in between,
--     except in RequestManager.Interleaving, which cuts it where it waits
--   Injector (injector) and Protocol (protocol, shared/utils.ts): a method that waits for the user
--     comes in two parts, begin up to the request and end from the answer on; the promises of
--     awaitUnlock cut checkUnlockStatus in the same way
--   Validation (validation), Bandada (bandada), Group (group)
--   ZkProof is packages/zk/src/proof/protocols and the handlers of packages/app/src/offscreen
--   Credentials (credentials), with Credentials.Backup, and Credentials.Format
--     (packages/app/src/util/credentials.ts): a credential stands as its canonical text
--   Backup (backup): the uploads of a Promise.all run in the order of the file, each to its end; after
--     the first that fails the rest run behind the rollback
--   BackupApi, CredentialApi, ZkApi, BrowserApi and BandadaApi are, like Env, what these call and the
--     repository does not implement: JSON, yup, SHA-256, the provers and Merkle trees, the browser's
--     offscreen pages, fetch
-- Calls:
--   Handler is controllers/handler.ts; Routes has the registrations and the access list of
--   cryptKeeper.ts; Session composes the services in the order of the chains of UNLOCK and LOCK
-- Pages and the popup:
--   Provider is packages/providers/src: what a page calls, its promises, and the window that all
--     providers of a page hear
--   Messages is background/contentScript.ts, the listener of background/backgroundPage.ts, for
--     requests without a `source`, and util/postMessage.ts
--   Store is ui/ducks and ui/store: the popup's store, its reducers and its thunks, which pass the
--     store on; the extension is unlocked there, so that `ensure` passes their calls, except for the
--     permission of a host, which has its `ensure`
--   Modals is ui/components/ConfirmRequestModal
--   Popup and Presenting are the hooks of ui/pages/Popup and ui/pages/PresentVerifiableCredential: a
--     hook's state is a record, its handlers pass it on
--   Entry is the hooks of Login, Onboarding, GenerateMnemonic, Recover and ResetPassword in ui/pages,
--     and Answering those of JoinGroup, GroupMerkleProof, RevealIdentityCommitment, ConnectIdentity,
--     AddVerifiableCredential and Identity; Creating is CreateIdentity, with ui/services/identity
--   The emitter of events of a page (nanoevents) and the origin of a url are parameters.
-- Tests has a concrete environment that satisfies the laws, and the theorems at concrete inputs.
--
-- Methods keep the names of the source, in snake case. Awaited promises run in order. No fuel is used:
-- all loops are over lists, and the digits of a number take at most as many steps as the number.
-- Random values and times are drawn by a counter in the state.
--
-- Not modelled: what React draws; the page that imports an identity, the settings and the backup
-- pages, the connectors of wallets and the table of chains, which mostly pass values on to
-- libraries; the schema of credentials, which is yup's; errors of the browser's own storage;
-- other orders of the uploads of one Promise.all; the demo and the tools.
pub mod Prelude
pub mod JsMap
pub mod Types
pub mod Requests
pub mod Env
pub mod State
pub mod Exec
pub mod SimpleStorage
pub mod Crypto
pub mod Base
pub mod Browser
pub mod History
pub mod Misc
pub mod Wallet
pub mod ZkIdentitySemaphore
pub mod ZkIdentity
pub mod Backupable
pub mod Approval
pub mod Connection
pub mod Lock
pub mod Stored
pub mod Handler
pub mod Routes
pub mod RequestManager
pub mod Credentials
pub mod Backup
pub mod Validation
pub mod ZkProof
pub mod Provider
pub mod Messages
pub mod Store
pub mod Modals
pub mod Popup
pub mod Presenting
pub mod Entry
pub mod Answering
pub mod Creating
pub mod Protocol
pub mod Bandada
pub mod Group
pub mod Injector
pub mod Session
mod Tests
