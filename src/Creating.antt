-- ===== src/Creating.antt =====
-- ui/pages/CreateIdentity/useCreateIdentity.ts and ui/services/identity: the form that creates an
-- identity. The wallets have an address, and the signer of MetaMask is a parameter.
pub mod Landing
use crypt_keeper_extension.Prelude.{
  ℕ, String, Bool, true, not, eqb, ◌&&◌, Option, none, some, [], present, ◌==◌, if◌then◌else◌,
}
use crypt_keeper_extension.Prelude.Text.{◌⧺◌, decimal}
use crypt_keeper_extension.Types.{Wallet, cryptkeeper_wallet, eth_wallet, NewIdentityRequest}
use crypt_keeper_extension.Env.{Env}
use crypt_keeper_extension.Exec.{M, Result, pure, lift, catch, ◌>>=◌, ◌>>◌}
use crypt_keeper_extension.ZkIdentity
use crypt_keeper_extension.Store.Thunks.{post, close_popup}
use crypt_keeper_extension.Entry.{Outcome, went, failed}

-- `getMessageTemplate`; there is nothing to trim.
unfoldable pub get_message_template : String → ℕ → String
get_message_template account nonce =
    "Sign this message with account "
    ⧺ account
    ⧺ " to generate your Semaphore identity "
    ⧺ "with key nonce: "
    ⧺ decimal nonce

pub record CreateForm : Type 0 where
  pub nonce : ℕ
  pub is_deterministic : Bool

-- The parameters of the url and the wallets.
pub record CreatePage : Type 0 where
  pub back : Option String
  pub origin_param : Option String
  pub eth_address : String
  pub account : String
  pub signer : String → Result String
  -- what a plain object has of `Object.prototype` under a name, as the text that a template puts
  pub inherited : String → Option String

-- `REDIRECT_MAP`, a plain object; of what it inherits no text is empty.
unfoldable pub redirect_back : (String → Option String) → Option String → Option String
redirect_back inherited none = none
redirect_back inherited (some path) =
    if path == "/connect-identity" then some path else inherited path

-- A text of a template where `undefined` is put.
abbrev shown : Option String → String
shown none = "undefined"
shown (some text) = text

abbrev address_of : CreatePage → Wallet → String
address_of page eth_wallet = page.eth_address
address_of page cryptkeeper_wallet = page.account

unfoldable pub signed : CreatePage → Bool → Wallet → String → M (Option String)
signed page true eth_wallet message = do
  signature ← lift (page.signer message)
  pure (some signature)
signed page is_deterministic wallet message = pure none

module _ (env : Env) where
  -- The request that `createIdentity` posts.
  abbrev pub request_of : CreatePage → CreateForm → Wallet → Option String → NewIdentityRequest
  request_of page form wallet signature =
      let account = env.to_lower_case (address_of page wallet) in
      record {
        options = record {
          message = get_message_template account form.nonce;
          account = account;
          nonce = form.nonce;
          name = none;
        };
        wallet_type = wallet;
        groups = [];
        is_deterministic = form.is_deterministic;
        url_origin = present page.origin_param;
        message_signature = signature;
      }

  leave : Option String → Option String → M Outcome
  leave none url_origin = do close_popup; pure (went "/home")
  leave (some path) url_origin =
      pure (went (path ⧺ "?urlOrigin=" ⧺ shown url_origin ⧺ "&back=" ⧺ path))

  -- `createNewIdentity`
  unfoldable pub create_new_identity : CreatePage → CreateForm → Wallet → M Outcome
  unfolding signed leave redirect_back
  create_new_identity page form wallet =
      catch
        (do
          signature ←
              signed page form.is_deterministic wallet
                (get_message_template (env.to_lower_case (address_of page wallet)) form.nonce)
          post (ZkIdentity.create_identity env (request_of page form wallet signature))
          leave (redirect_back page.inherited page.back) (present page.origin_param))
        (λ e. pure (failed e))

  -- `onSign`, by the items of the menu; connecting MetaMask shows no page.
  unfoldable pub on_sign : Bool → Bool → ℕ → CreatePage → CreateForm → M (Option Outcome)
  unfolding create_new_identity
  on_sign is_active connects index page form =
      if eqb index 0
      then (do went_to ← create_new_identity page form cryptkeeper_wallet; pure (some went_to))
      else if eqb index 1 && is_active
      then (do went_to ← create_new_identity page form eth_wallet; pure (some went_to))
      else if eqb index 1 && not connects
      then pure (some (failed "Wallet connection error"))
      else pure none

abbrev or_empty : Option String → String
or_empty none = ""
or_empty (some text) = text

abbrev or_create : Option String → String
or_create none = "/create-identity"
or_create (some path) = path

-- `onGoToImportIdentity`
unfoldable pub go_to_import_identity : CreatePage → Outcome
unfolding redirect_back
go_to_import_identity page = went (
    "/import-identity?back="
    ⧺ or_create (redirect_back page.inherited page.back)
    ⧺ "&urlOrigin="
    ⧺ or_empty (present page.origin_param))
