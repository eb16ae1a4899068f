-- ===== src/Answering/Connecting.antt =====
-- The user connects an identity to a page.
use crypt_keeper_extension.Prelude.{
  String, ◌≡◌, refl, ap, ◌∙◌, some, arith, ◌==◌, if◌then◌else◌, inl, inr,
}
use crypt_keeper_extension.State.{Ext}
use crypt_keeper_extension.Env.{Env}
use crypt_keeper_extension.Exec.{ok, ◌>>=◌, after, result, Result-cases}
use crypt_keeper_extension.Browser
use crypt_keeper_extension.Browser.Closing.{close_popup_keeps}
use crypt_keeper_extension.ZkIdentity.{get_identity}
use crypt_keeper_extension.ZkIdentitySemaphore.{ZkIdentitySemaphore}
use crypt_keeper_extension.Connection.{connect, get_connected_identity}
use crypt_keeper_extension.Connection.Connected.{
  get_connected_identity-connect, get_connected_identity-same,
}
use crypt_keeper_extension.Store.Thunks.{post, close_popup}
use crypt_keeper_extension.Entry.{went}
use crypt_keeper_extension.Modals.Answers.{closed_lem}
use crypt_keeper_extension.Answering.{on_connect}

module _ (env : Env) where
  connects_lem :
      (c origin : String) (s : Ext)
      → result (on_connect env c origin) s ≡ ok (went "/home")
      → (result (connect env c (some origin)) s ≡ ok tt)
        × (after (on_connect env c origin) s
            ≡ after Browser.close_popup (after (connect env c (some origin)) s))
  unfolding on_connect post close_popup ◌>>=◌
  connects_lem c origin s home = elim (Result-cases (result (connect env c (some origin)) s)) [
    | inl (e, thrown) ↦ absurd (ground (arith, thrown, home))
    | inr (u, made) ↦
        let t = after (connect env c (some origin)) s in (made, ground (arith, made, closed_lem t))
  ]

  -- Where the form that connects an identity goes home, the page's origin is connected to the identity
  -- that the user has chosen, and every other origin has the identity that it had.
  pub on_connect-get_connected_identity :
      (c origin j : String) (z : ZkIdentitySemaphore) (s : Ext)
      → result (get_identity env c) s ≡ ok (some z)
      → result (on_connect env c origin) s ≡ ok (went "/home")
      → result (get_connected_identity env (some j)) (after (on_connect env c origin) s)
        ≡ (if origin == j then ok (some z) else result (get_connected_identity env (some j)) s)
  on_connect-get_connected_identity c origin j z s found home =
      let (made, state) = connects_lem c origin s home in
      let t = after (connect env c (some origin)) s in
      ap (result (get_connected_identity env (some j))) state
      ∙ close_popup_keeps (λ u. result (get_connected_identity env (some j)) u)
          (λ p q w e u. get_connected_identity-same env j u _ refl refl) t
      ∙ get_connected_identity-connect env c origin j z s found made
