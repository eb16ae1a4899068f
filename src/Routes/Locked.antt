-- ===== src/Routes/Locked.antt =====
-- Calls while the extension is locked.
use crypt_keeper_extension.Prelude.{String, false, ◌≡◌, refl, Option, some, [], ◌∷◌, ap, ◌∙◌}
use crypt_keeper_extension.JsMap
use crypt_keeper_extension.State.{Ext}
use crypt_keeper_extension.Exec.{M, ok, ◌>>=◌}
use crypt_keeper_extension.Lock
use crypt_keeper_extension.Handler.{Chain, Request, run_chain, run_middlewares, get_url_origin}
use crypt_keeper_extension.Handler.Sender.{handle_own}
use crypt_keeper_extension.Routes.{
  HandlerName, lock_ensure, history_clear, history_remove_operation, approval_remove,
  approval_set_permission, initialize, handle,
}
use crypt_keeper_extension.Routes.Guards.{dispatch, ensured}

-- Some of the methods that `ensure` alone guards.
pub data EnsuredMethod : Type 0 where
  delete_history delete_operation remove_host set_host_permissions : EnsuredMethod

abbrev pub ensured_text : EnsuredMethod → String
ensured_text delete_history = "rpc/identity/deleteHistory"
ensured_text delete_operation = "rpc/identity/deleteHistoryOperation"
ensured_text remove_host = "rpc/hosts/remove"
ensured_text set_host_permissions = "rpc/hosts/setHostPermissions"

abbrev pub ensured_handler : EnsuredMethod → HandlerName
ensured_handler delete_history = history_clear
ensured_handler delete_operation = history_remove_operation
ensured_handler remove_host = approval_remove
ensured_handler set_host_permissions = approval_set_permission

abbrev ensured_chain : HandlerName → Chain HandlerName
ensured_chain h = record { middlewares = lock_ensure ∷ []; handler = h }

registered :
    (m : EnsuredMethod)
    → JsMap.get (ensured_text m) (initialize []) ≡ some (ensured_chain (ensured_handler m))
unfolding initialize JsMap.get
registered delete_history = refl
registered delete_operation = refl
registered remove_host = refl
registered set_host_permissions = refl

module _ {P : Type 0} (falsy : P) (other : HandlerName → P → Option String → M P) where
  not_a_guard :
      (m : EnsuredMethod) (p : P) (meta : Option String)
      → dispatch falsy other (ensured_handler m) p meta ≡ other (ensured_handler m) p meta
  unfolding dispatch
  not_a_guard delete_history p meta = refl
  not_a_guard delete_operation p meta = refl
  not_a_guard remove_host p meta = refl
  not_a_guard set_host_permissions p meta = refl

  ensured-locked :
      (p : P) (s : Ext) → s.locker.is_unlocked ≡ false → ensured falsy p s ≡ (ok falsy, s)
  unfolding ensured Lock.ensure ◌>>=◌
  ensured-locked p s locked = rw locked refl

  chain-locked :
      (h : HandlerName) (p : P) (meta : Option String) (s : Ext)
      → s.locker.is_unlocked ≡ false
      → run_chain (dispatch falsy other) (ensured_chain h) p meta s
        ≡ dispatch falsy other h falsy meta s
  unfolding run_chain run_middlewares dispatch ◌>>=◌
  chain-locked h p meta s locked = rw (ensured-locked p s locked) refl

  -- While the extension is locked, a call from the popup of one of these methods, which `ensure`
  -- guards, runs the handler all the same, with the payload `false` in place of its own.
  pub locked_call_runs :
      (origin : String → Option String) (extension_url : String) (m : EnsuredMethod)
      (request : Request P) (sender : Option String) (s : Ext) (a : String)
      → request.method ≡ ensured_text m
      → get_url_origin origin sender s ≡ (ok a, s)
      → get_url_origin origin (some extension_url) s ≡ (ok a, s)
      → s.locker.is_unlocked ≡ false
      → handle (dispatch falsy other) origin extension_url request sender s
        ≡ other (ensured_handler m) falsy request.meta s
  unfolding handle
  locked_call_runs origin extension_url m request sender s a named ea eb locked =
      handle_own (dispatch falsy other) origin extension_url (initialize []) request sender s
        (ensured_chain (ensured_handler m)) _ a
        (ap (λ t. JsMap.get t (initialize [])) named ∙ registered m) ea eb
      ∙ chain-locked (ensured_handler m) request.payload request.meta s locked
      ∙ ap (λ (f : M P). f s) (not_a_guard m falsy request.meta)
