-- ===== src/ZkIdentity.antt =====
-- services/zkIdentity: the identities of the user, kept in memory and, encrypted, in storage.
pub mod Persist
pub mod Lookup
pub mod Unlock
pub mod Calls
pub mod Backup
pub mod Ellipsis
use crypt_keeper_extension.Prelude.{
  ℕ, String, Bool, true, false, Option, none, some, List, [], ◌∷◌, present, filter, leb, eqb, ◌&&◌,
  ◌-◌, if◌then◌else◌,
}
use crypt_keeper_extension.Prelude.Text.{◌⧺◌, decimal, take, drop}
use crypt_keeper_extension.Prelude.Text
use crypt_keeper_extension.Types
use crypt_keeper_extension.Types.{
  IdentityData, NewIdentityRequest, ImportIdentityArgs, CreateIdentityArgs, Wallet,
  cryptkeeper_wallet, eth_wallet,
}
use crypt_keeper_extension.JsMap
use crypt_keeper_extension.JsMap.{JsMap}
use crypt_keeper_extension.State
use crypt_keeper_extension.State.{set_identities, create_identity_page, import_identity_page}
use crypt_keeper_extension.Env.{Env}
use crypt_keeper_extension.Exec.{M, pure, lift, ◌>>=◌, ◌>>◌, gets, modify, require, or_throw, send}
use crypt_keeper_extension.SimpleStorage
use crypt_keeper_extension.SimpleStorage.{identities_key}
use crypt_keeper_extension.Crypto
use crypt_keeper_extension.Crypto.{mnemonic}
use crypt_keeper_extension.Base
use crypt_keeper_extension.Base.{identity}
use crypt_keeper_extension.Browser
use crypt_keeper_extension.History
use crypt_keeper_extension.Wallet
use crypt_keeper_extension.ZkIdentitySemaphore.{
  ZkIdentitySemaphore, update_name, gen_identity_commitment, serialize, gen_from_serialized,
  create_new_identity,
}

-- packages/app/src/util/account.ts, with the default `start` and `end`; texts without surrogate
-- pairs, as commitments are
unfoldable pub ellipsify : String → String
ellipsify text =
    let n = Text.size text in if leb n 10 then text else take 6 text ⧺ "..." ⧺ drop (n - 4) text

unfoldable pub get_identity_commitments : M (List String)
get_identity_commitments = gets (λ s. JsMap.keys s.identities)

unfoldable pub get_num_of_identities : M ℕ
get_num_of_identities = gets (λ s. JsMap.size s.identities)

-- `onClean`
unfoldable pub on_clean : M Unit
on_clean = modify (λ s. record s { identities = [] })

unfoldable pub lock : M Bool
unfolding on_clean
lock = Base.on_lock identity on_clean

unfoldable pub create_identity_request : String → M Unit
create_identity_request url_origin = do
  Browser.open_popup (create_identity_page url_origin)
  pure tt

-- `{ urlOrigin = "" }`
abbrev or_empty : Option String → String
or_empty none = ""
or_empty (some u) = u

unfoldable pub import_request : String → String → Option String → M Unit
import_request trapdoor nullifier url_origin = do
  Browser.open_popup (import_identity_page trapdoor nullifier (or_empty url_origin))
  pure tt

module _ (env : Env) where
  -- The data of the identities with these commitments; an identity that cannot be read throws.
  unfoldable pub describe : JsMap String → List String → M (List IdentityData)
  describe m [] = pure []
  describe m (commitment ∷ rest) = do
    serialized ← or_throw (JsMap.get commitment m) "undefined is not valid JSON"
    z ← lift (gen_from_serialized env serialized)
    others ← describe m rest
    pure (record { commitment = commitment; metadata = z.metadata } ∷ others)

  unfoldable pub get_identities : M (List IdentityData)
  unfolding get_identity_commitments
  get_identities = do
    commitments ← get_identity_commitments
    m ← gets (λ s. s.identities)
    describe m (filter (λ c. JsMap.has c m) commitments)

  read_identity : Option String → M (Option ZkIdentitySemaphore)
  read_identity none = pure none
  read_identity (some serialized) = do z ← lift (gen_from_serialized env serialized); pure (some z)

  unfoldable pub get_identity : String → M (Option ZkIdentitySemaphore)
  unfolding read_identity
  get_identity commitment = do
    found ← gets (λ s. present (JsMap.get commitment s.identities))
    read_identity found

  unfoldable pub write_identities : JsMap String → M Unit
  write_identities identities = do
    ciphertext ← Crypto.encrypt env (env.json_entries.stringify identities) none mnemonic
    SimpleStorage.set identities_key (some ciphertext)

  unfoldable pub refresh : M Unit
  refresh = do identities ← get_identities; send (set_identities identities)

  rename : String → String → Option String → M Bool
  rename commitment name none = pure false
  rename commitment name (some raw) = do
    z ← lift (gen_from_serialized env raw)
    modify (λ s. record s {
      identities = JsMap.set commitment (serialize env (update_name name z)) s.identities;
    })
    identities ← gets (λ s. s.identities)
    write_identities identities
    refresh
    pure true

  unfoldable pub set_identity_name : String → String → M Bool
  unfolding rename
  set_identity_name commitment name = do
    raw ← gets (λ s. present (JsMap.get commitment s.identities))
    rename commitment name raw

  load_from : Option String → M Unit
  load_from none = pure tt
  load_from (some encrypted) = do
    decrypted ← Crypto.decrypt env encrypted none mnemonic
    entries ← or_throw (env.json_entries.parse decrypted) "Unexpected token in JSON"
    modify (λ s. record s { identities = JsMap.of_entries entries })

  -- Without stored identities the memory stays as it is.
  unfoldable pub load_identities : M Unit
  unfolding load_from
  load_identities = do encrypted ← SimpleStorage.get identities_key; load_from (present encrypted)

  unfoldable pub unlock : M Bool
  unfolding load_identities
  unlock = do load_identities; Base.set_unlocked identity; Base.on_unlocked identity; pure true

  -- The messages after a new identity was stored.
  announce : String → ZkIdentitySemaphore → Option String → M Unit
  announce commitment z url_origin = do
    History.track_operation env
        (if z.metadata.is_imported then Types.import_identity else Types.create_identity)
        (record {
          identity = some (record { commitment = commitment; metadata = z.metadata });
          group = none;
        })
    Browser.notify
        (if z.metadata.is_imported
          then "New identity has been imported."
          else "New identity has been created.")
        ("Identity commitment: " ⧺ ellipsify commitment)
    Browser.push_event
        (if z.metadata.is_imported
          then State.import_identity z.metadata.name
          else State.create_identity z.metadata.name)
        url_origin

  insert_new : String → ZkIdentitySemaphore → Option String → M Bool
  unfolding announce
  insert_new commitment z url_origin = do
    modify (λ s. record s { identities = JsMap.set commitment (serialize env z) s.identities })
    identities ← gets (λ s. s.identities)
    write_identities identities
    refresh
    announce commitment z url_origin
    pure true

  unfoldable pub insert_identity : ZkIdentitySemaphore → Option String → M Bool
  unfolding insert_new
  insert_identity z url_origin = do
    exists ← gets (λ s. JsMap.has (gen_identity_commitment env z) s.identities)
    if exists then pure false else insert_new (gen_identity_commitment env z) z url_origin

  unfoldable pub import : ImportIdentityArgs → M String
  import args = do
    z ← create_new_identity env (record {
      name = args.name;
      groups = [];
      is_deterministic = false;
      is_imported = true;
      account = none;
      message_signature = some args.message_signature;
      nonce = none;
      trapdoor = some args.trapdoor;
      nullifier = some args.nullifier;
    })
    status ← insert_identity z args.url_origin
    require status "Identity is already imported"
    pure (gen_identity_commitment env z)

  -- `options.name || …`
  abbrev name_or : Option String → ℕ → String
  name_or name count = elim (present name) [ some n ↦ n | none ↦ "Account # " ⧺ decimal count ]

  abbrev is_cryptkeeper : Wallet → Bool
  is_cryptkeeper cryptkeeper_wallet = true
  is_cryptkeeper eth_wallet = false

  signature_for : NewIdentityRequest → M (Option String)
  signature_for r =
      if is_cryptkeeper r.wallet_type && r.is_deterministic
      then (do
        signature ← Wallet.sign_message env r.options.message r.options.account
        pure (some signature))
      else pure r.message_signature

  unfoldable pub create_identity : NewIdentityRequest → M String
  unfolding signature_for get_num_of_identities
  create_identity r = do
    count ← get_num_of_identities
    signature ← signature_for r
    z ← create_new_identity env (record {
      name = name_or r.options.name count;
      groups = r.groups;
      is_deterministic = r.is_deterministic;
      is_imported = false;
      account = some r.options.account;
      message_signature = signature;
      nonce = if r.is_deterministic then some r.options.nonce else none;
      trapdoor = none;
      nullifier = none;
    })
    status ← insert_identity z r.url_origin
    require status "Identity is already exist. Try to change nonce or identity data."
    pure (gen_identity_commitment env z)

  unfoldable pub delete_identity : String → M String
  delete_identity commitment = do
    found ← gets (λ s. present (JsMap.get commitment s.identities))
    serialized ← or_throw found "CryptKeeper: no identity found"
    modify (λ s. record s { identities = JsMap.delete commitment s.identities })
    identities ← gets (λ s. s.identities)
    write_identities identities
    z ← lift (gen_from_serialized env serialized)
    History.track_operation env Types.delete_identity (record {
      identity = some (record { commitment = commitment; metadata = z.metadata });
      group = none;
    })
    refresh
    pure commitment

  clear_all : M Bool
  clear_all = do
    on_clean
    SimpleStorage.clear identities_key
    send (set_identities [])
    History.track_operation env Types.delete_all_identities History.no_options
    Browser.notify "Identities removed" "Identity storage has been cleared"
    pure true

  unfoldable pub delete_all_identities : M Bool
  unfolding clear_all on_clean
  delete_all_identities = do
    count ← gets (λ s. JsMap.size s.identities)
    if eqb count 0 then pure false else clear_all
