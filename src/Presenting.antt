-- ===== src/Presenting.antt =====
-- packages/app/src/ui/pages/PresentVerifiableCredential/usePresentVerifiableCredential.ts: the user
-- chooses credentials and presents them to the page.
pub mod Choosing
use crypt_keeper_extension.Prelude.{
  ℕ, String, Bool, true, false, not, ◌&&◌, ◌||◌, Option, none, some, List, [], ◌∷◌, ◌++◌, map, any,
  filter, eqb, present, is_some, ◌==◌, if◌then◌else◌,
}
use crypt_keeper_extension.Requests
use crypt_keeper_extension.State.{Presentation, PresentationProof}
use crypt_keeper_extension.Env.{Env}
use crypt_keeper_extension.Exec.{M, Result, ok, err, pure, lift, draw, attempt, ◌>>=◌, ◌>>◌}
use crypt_keeper_extension.Credentials
use crypt_keeper_extension.Credentials.{
  CryptkeeperCredential, CredentialApi, presentation_of, serialize_presentation,
}
use crypt_keeper_extension.Store.Thunks.{post, close_popup}

-- The state of the hook: the request, the credentials of the store, read back, the hashes that are
-- selected, and the error.
pub record Presenting : Type 0 where
  pub request : Option String
  pub credentials : List CryptkeeperCredential
  pub selected : List String
  pub error : Option String

-- `useEthWallet` and `useCryptKeeperWallet`: their addresses in lower case, and the signer, whose
-- errors all give one message.
pub record Wallets : Type 0 where
  pub is_active : Bool
  pub is_injected : Bool
  pub eth_address : Option String
  pub signer : Option (String → Result String)
  pub connects : Bool
  pub account : Option String

abbrev pub is_empty : {A : Type 0} → List A → Bool
is_empty [] = true
is_empty (x ∷ xs) = false

abbrev pub includes : String → List String → Bool
includes hash hashes = any (λ h. h == hash) hashes

-- `onToggleSelectVerifiableCredential`
unfoldable pub toggle : String → Presenting → Presenting
toggle hash p = record p {
  error = none;
  selected =
      if includes hash p.selected
      then filter (λ h. not (h == hash)) p.selected
      else p.selected ++ hash ∷ [];
}

-- `checkDisabledItem`; the first item is MetaMask.
unfoldable pub check_disabled_item : Wallets → ℕ → Presenting → Bool
check_disabled_item wallets index p =
    is_empty p.selected || (eqb index 0 && not wallets.is_injected)

abbrev pub chosen : Presenting → Presentation
chosen p = presentation_of (
    map (λ c. c.verifiable_credential)
      (filter (λ c. includes c.metadata.hash p.selected) p.credentials))

-- `createVerifiablePresentationFromSelectedCredentials`: the presentation, if there is one.
unfoldable pub create : Presenting → Option Presentation
create p = if is_empty p.selected then none else some (chosen p)

abbrev pub with_error : String → Presenting → Presenting
with_error message p = record p { error = some message }

abbrev nothing_selected : String
nothing_selected = "Please select at least one credential."

-- `onConnectWallet`
unfoldable pub connect_wallet : Wallets → Presenting → M Presenting
connect_wallet wallets p =
    if wallets.connects then pure p else pure (with_error "Wallet connection error" p)

module _ (env : Env) (api : CredentialApi) (wallets : Wallets) where
  plain_from : Option Presentation → Presenting → M Presenting
  plain_from none p = pure (with_error nothing_selected p)
  plain_from (some presentation) p = do
    post (Credentials.generate_presentation env presentation)
    close_popup
    pure p

  -- `onSubmitVerifiablePresentationWithoutSignature`
  unfoldable pub submit_without_signature : Presenting → M Presenting
  unfolding plain_from
  submit_without_signature p = plain_from (create p) p

  account_from : Option Presentation → Option String → Presenting → M Presenting
  account_from none account p = pure (with_error nothing_selected p)
  account_from (some presentation) none p =
      pure (with_error "Could not connect to CryptKeeper account." p)
  account_from (some presentation) (some address) p = do
    post (Credentials.generate_signed_presentation env api presentation address none)
    close_popup
    pure p

  -- `onSubmitVerifiablePresentationWithCryptkeeper`
  unfoldable pub submit_with_crypt_keeper : Presenting → M Presenting
  unfolding account_from
  submit_with_crypt_keeper p = account_from (create p) (present wallets.account) p

  abbrev proof_of : String → String → String → PresentationProof
  proof_of address created signature = record {
    type = "EthereumEip712Signature2021" ∷ [];
    proof_purpose = "assertionMethod";
    verification_method = address;
    created = created;
    proof_value = signature;
  }

  -- The body of the `try`.
  sign_and_present : (String → Result String) → String → Presentation → M Unit
  sign_and_present signer address presentation = do
    signature ← lift (signer (serialize_presentation api presentation))
    n ← draw
    post (
        Credentials.generate_presentation env
          (record presentation { proof = some (proof_of address (env.iso_now n) signature ∷ []) }))
    close_popup
    pure tt

  signed_result : Presenting → Result Unit → Presenting
  signed_result p (ok done) = p
  signed_result p (err e) = with_error "Failed to sign Verifiable Presentation." p

  meta_mask_from :
      Option Presentation
      → Option String
      → Option (String → Result String)
      → Presenting
      → M Presenting
  unfolding sign_and_present signed_result
  meta_mask_from none address signer p = pure (with_error nothing_selected p)
  meta_mask_from (some presentation) (some address) (some signer) p = do
    r ← attempt (sign_and_present signer address presentation)
    pure (signed_result p r)
  meta_mask_from (some presentation) address signer p =
      pure (with_error "Could not connect to Ethereum account." p)

  -- `onSubmitVerifiablePresentationWithMetamask`
  unfoldable pub submit_with_meta_mask : Presenting → M Presenting
  unfolding meta_mask_from
  submit_with_meta_mask p = meta_mask_from (create p) (present wallets.eth_address) wallets.signer p

  -- `onSubmitVerifiablePresentation`, by the items of the menu
  unfoldable pub submit : ℕ → Presenting → M Presenting
  unfolding connect_wallet submit_with_meta_mask submit_with_crypt_keeper submit_without_signature
  submit index p =
      if eqb index 0
      then (if wallets.is_active then submit_with_meta_mask p else connect_wallet wallets p)
      else if eqb index 1
      then submit_with_crypt_keeper p
      else if eqb index 2
      then submit_without_signature p
      else pure (with_error "Invalid menu index." p)
