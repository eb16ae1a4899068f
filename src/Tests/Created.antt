-- ===== src/Tests/Created.antt =====
-- The user creates an identity with MetaMask, in the sample state.
use crypt_keeper_extension.Prelude.{String, true, ◌≡◌, refl, Option, none, some}
use crypt_keeper_extension.Prelude.Text.{decimal}
use crypt_keeper_extension.Types.{eth_wallet}
use crypt_keeper_extension.Exec.{ok, ◌>>=◌, result, after}
use crypt_keeper_extension.JsMap
use crypt_keeper_extension.SimpleStorage
use crypt_keeper_extension.Crypto
use crypt_keeper_extension.Browser
use crypt_keeper_extension.History
use crypt_keeper_extension.ZkIdentity
use crypt_keeper_extension.ZkIdentitySemaphore
use crypt_keeper_extension.Store.Thunks.{post, close_popup}
use crypt_keeper_extension.Entry.{went}
use crypt_keeper_extension.Creating.{
  CreateForm, CreatePage, request_of, redirect_back, signed, create_new_identity,
}
use crypt_keeper_extension.Creating.Landing.{IsInside, message_of, create_new_identity-IsInside}
use crypt_keeper_extension.Tests.Sample.{sample}
use crypt_keeper_extension.Tests.States.{ready}

abbrev nothing : String → Option String
nothing name = none

abbrev page : CreatePage
page = record {
  back = some "/settings";
  origin_param = some "https://a.org";
  eth_address = "0xAB";
  account = "0xCD";
  signer = λ message. ok "signature";
  inherited = nothing;
}

abbrev form : CreateForm
form = record { nonce = 0; is_deterministic = true }

goes : result (create_new_identity sample page form eth_wallet) ready ≡ ok (went "/home")
unfolding create_new_identity redirect_back post close_popup ZkIdentity.create_identity
    ZkIdentity.insert_identity ZkIdentitySemaphore.create_new_identity JsMap.has JsMap.get
    SimpleStorage.set Crypto.encrypt Browser.push_event Browser.notify Browser.close_popup
    History.track_operation ◌>>=◌ ZkIdentitySemaphore.gen_identity_commitment
    ZkIdentity.write_identities ZkIdentity.refresh ZkIdentity.get_identities ZkIdentity.describe
    JsMap.set ZkIdentitySemaphore.gen_from_serialized ZkIdentitySemaphore.serialize decimal
goes = refl

own : (o : String) → page.back ≡ some o → page.inherited o ≡ none
own o named = refl

created_example :
    IsInside "/home" page
    × (signature : Option String) × (commitment : String) × (let creating =
          ZkIdentity.create_identity sample (request_of sample page form eth_wallet signature) in
        (result (signed page true eth_wallet (message_of sample page form eth_wallet)) ready
          ≡ ok signature)
        × (result creating ready ≡ ok commitment)
        × ((after (create_new_identity sample page form eth_wallet) ready).identities
            ≡ (after creating ready).identities))
created_example = create_new_identity-IsInside sample page form eth_wallet "/home" ready own goes
