-- ===== src/Creating/Landing.antt =====
-- Where the form goes after an identity is created.
use crypt_keeper_extension.Prelude.{
  String, Bool, true, false, ◌≡◌, refl, ap, sym, subst, ◌∙◌, Option, none, some, present, arith,
  ◌⊎◌, inl, inr, ◌==◌, eq_iff, Bool-cases,
}
use crypt_keeper_extension.Prelude.Text.{◌⧺◌}
use crypt_keeper_extension.Types.{Wallet, eth_wallet, cryptkeeper_wallet}
use crypt_keeper_extension.State.{Ext}
use crypt_keeper_extension.Env.{Env}
use crypt_keeper_extension.Exec.{
  M, after, ok, pure, catch, ◌>>=◌, >>=-eq-ok, >>=_of_ok, Result, result, Result-cases,
}
use crypt_keeper_extension.ZkIdentity
use crypt_keeper_extension.Browser.Closing.{close_popup_ok, close_popup_keeps}
use crypt_keeper_extension.Modals.Answers.{closed_lem}
use crypt_keeper_extension.Store.Thunks.{post, close_popup}
use crypt_keeper_extension.Entry.{Outcome, went, failed}
use crypt_keeper_extension.Creating.{
  CreateForm, CreatePage, redirect_back, shown, request_of, leave, create_new_identity, signed,
  get_message_template, address_of,
}

-- The only paths that the form goes to.
abbrev pub IsInside : String → CreatePage → Type 0
IsInside path page =
    (path ≡ "/home")
    ⊎ (path
        ≡ "/connect-identity"
          ⧺ "?urlOrigin="
          ⧺ shown (present page.origin_param)
          ⧺ "&back="
          ⧺ "/connect-identity")

caught_went :
    (m : M Outcome) (s : Ext) (path : String)
    → result (catch m (λ e. pure (failed e))) s ≡ ok (went path)
    → (result m s ≡ ok (went path)) × (after (catch m (λ e. pure (failed e))) s ≡ after m s)
unfolding ◌>>=◌
caught_went m s path goes = elim (Result-cases (result m s)) [
  | inl (e, thrown) ↦ absurd (ground (arith, thrown, goes))
  | inr (a, made) ↦ (ground (arith, made, goes), ground (arith, made))
]

post_made :
    {A : Type 0} (m : M A) (s : Ext) (a : A)
    → result (post m) s ≡ ok a
    → (result m s ≡ ok a) × (after (post m) s ≡ after m s)
unfolding post ◌>>=◌
post_made m s a made = elim (Result-cases (result m s)) [
  | inl (e, thrown) ↦ absurd (ground (arith, thrown, made))
  | inr (b, got) ↦ (ground (arith, got, made), ground (arith, got))
]

-- Signing changes nothing.
signed_made :
    (page : CreatePage) (is_deterministic : Bool) (wallet : Wallet) (message : String) (s : Ext)
    → signed page is_deterministic wallet message s
      ≡ (result (signed page is_deterministic wallet message) s, s)
unfolding signed ◌>>=◌
signed_made page true eth_wallet message s = elim (Result-cases (page.signer message)) [
  | inl (e, refused) ↦ rw refused refl
  | inr (t, given) ↦ rw given refl
]
signed_made page false eth_wallet message s = refl
signed_made page true cryptkeeper_wallet message s = refl
signed_made page false cryptkeeper_wallet message s = refl

went_injective : {a b : String} → ok (went a) ≡ ok (went b) → a ≡ b
went_injective h = cc

redirect_back_lem :
    (inherited : String → Option String) (back : Option String)
    → ((o : String) → back ≡ some o → inherited o ≡ none)
    → (redirect_back inherited back ≡ none)
      ⊎ (redirect_back inherited back ≡ some "/connect-identity")
unfolding redirect_back
redirect_back_lem inherited none own = inl refl
redirect_back_lem inherited (some to) own = elim (Bool-cases (to == "/connect-identity")) [
  | inl same ↦
      let e : to ≡ "/connect-identity" = ground (arith, eq_iff to "/connect-identity", same) in
      inr (rw same (ap some e))
  | inr other ↦ inl (rw other (own to refl))
]

module _ (env : Env) where
  leave-IsInside :
      (page : CreatePage) (redirect : Option String) (path : String) (s : Ext)
      → (redirect ≡ none) ⊎ (redirect ≡ some "/connect-identity")
      → result (leave env redirect (present page.origin_param)) s ≡ ok (went path)
      → IsInside path page
  unfolding leave close_popup post ◌>>=◌
  leave-IsInside page none path s known goes = inl (ground (arith, closed_lem s, goes))
  leave-IsInside page (some to) path s (inl missing) goes = absurd (ground (arith, missing))
  leave-IsInside page (some to) path s (inr found) goes =
      let e : to ≡ "/connect-identity" = ground (arith, found) in
      inr (
        sym (went_injective goes)
        ∙ ap (λ (p : String). p ⧺ "?urlOrigin=" ⧺ shown (present page.origin_param) ⧺ "&back=" ⧺ p)
            e)

  -- Closing the popup, or not, leaves the identities alone.
  leave_identities :
      (redirect url_origin : Option String) (s : Ext)
      → (after (leave env redirect url_origin) s).identities ≡ s.identities
  unfolding leave close_popup post ◌>>=◌
  leave_identities none url_origin s =
      ground (arith, close_popup_ok s, close_popup_keeps (λ t. t.identities) (λ p q w e t. refl) s)
  leave_identities (some to) url_origin s = refl

  -- The text that the wallet is asked to sign.
  abbrev pub message_of : CreatePage → CreateForm → Wallet → String
  message_of page form wallet =
      get_message_template (env.to_lower_case (address_of page wallet)) form.nonce

  -- Where the form that creates an identity goes to a page: the wallet has given its signature, or
  -- none was asked for; the background page, in the state in which the form was sent, has created the
  -- identity that was asked for with that signature and the account in lower case, and its identities
  -- are those that this has left; and the page is the home page or that for connecting identities. The
  -- url does not name a member that every object inherits.
  pub create_new_identity-IsInside :
      (page : CreatePage) (form : CreateForm) (wallet : Wallet) (path : String) (s : Ext)
      → ((o : String) → page.back ≡ some o → page.inherited o ≡ none)
      → result (create_new_identity env page form wallet) s ≡ ok (went path)
      → IsInside path page
        × (signature : Option String) × (commitment : String) × (let creating =
              ZkIdentity.create_identity env (request_of env page form wallet signature) in
            (result (signed page form.is_deterministic wallet (message_of page form wallet)) s
              ≡ ok signature)
            × (result creating s ≡ ok commitment)
            × ((after (create_new_identity env page form wallet) s).identities
                ≡ (after creating s).identities))
  unfolding create_new_identity
  create_new_identity-IsInside page form wallet path s own goes =
      let redirect = redirect_back page.inherited page.back in
      let left = leave env redirect (present page.origin_param) in
      let (run, kept) = caught_went _ s path goes in
      let (signature, given, rest) = >>=-eq-ok _ _ s run in
      let creating = ZkIdentity.create_identity env (request_of env page form wallet signature) in
      let same : after (signed page form.is_deterministic wallet (message_of page form wallet)) s
          ≡ s =
        ap (λ (r : Result (Option String) × Ext). r.1)
          (signed_made page form.is_deterministic wallet (message_of page form wallet) s) in
      let (commitment, made, last) =
        >>=-eq-ok (post creating) (λ c. left) s
          (subst (λ (t : Ext). result (post creating >>= λ c. left) t ≡ ok (went path)) same
            rest) in
      let (created, moved) = post_made creating s commitment made in
      (
        leave-IsInside page redirect path _ (redirect_back_lem page.inherited page.back own) last,
        signature,
        commitment,
        (
          given,
          created,
          ap (λ (t : Ext). t.identities) kept
              ∙ ap (λ (r : Result Outcome × Ext). r.1.identities) (>>=_of_ok _ _ s signature given)
              ∙ ap (λ (t : Ext). (after (post creating >>= λ c. left) t).identities) same
              ∙ ap (λ (r : Result Outcome × Ext). r.1.identities)
                  (>>=_of_ok (post creating) (λ c. left) s commitment made)
              ∙ leave_identities redirect (present page.origin_param) (after (post creating) s)
              ∙ ap (λ (t : Ext). t.identities) moved,
        ),
      )
