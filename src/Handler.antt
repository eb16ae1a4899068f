-- ===== src/Handler.antt =====
-- controllers/handler: the middlewares and the handler of each method, and the check of the sender.
pub mod Sender
use crypt_keeper_extension.Prelude.{
  String, Bool, true, false, ◌||◌, Option, none, some, List, [], ◌∷◌, present, ◌==◌, if◌then◌else◌,
}
use crypt_keeper_extension.Prelude.Text.{◌⧺◌}
use crypt_keeper_extension.JsMap
use crypt_keeper_extension.JsMap.{JsMap}
use crypt_keeper_extension.Exec.{M, pure, throw, ◌>>=◌, ◌>>◌, require, or_throw}

-- The names stand for functions; `H` is the type of the names.
pub record Chain (H : Type 0) : Type 0 where
  pub middlewares : List H
  pub handler : H

-- `{ method, payload, meta }`
pub record Request (P : Type 0) : Type 0 where
  pub method : String
  pub payload : P
  pub meta : Option String

-- `args[args.length - 1]` and `args.slice(0, args.length - 1)`, of a list that is not empty: its
-- first element is given apart.
unfoldable pub split_last : {H : Type 0} → H → List H → Chain H
split_last h [] = record { middlewares = []; handler = h }
split_last h (g ∷ gs) =
    let rest = split_last g gs in
    record { middlewares = h ∷ rest.middlewares; handler = rest.handler }

unfoldable pub add : {H : Type 0} → String → H → List H → JsMap (Chain H) → JsMap (Chain H)
unfolding split_last
add method h hs handlers = JsMap.set method (split_last h hs) handlers

-- `getUrlOrigin(url)`, where the origin of a url that is not empty is computed by `URL`
unfoldable pub get_url_origin : (String → Option String) → Option String → M String
get_url_origin origin url = elim (present url) [
  | none ↦ pure ""
  | some u ↦ or_throw (origin u) "Invalid URL"
]

module _ {H P : Type 0} (call : H → P → Option String → M P) where
  -- Each middleware may change the payload, or throw.
  unfoldable pub run_middlewares : List H → P → Option String → M P
  run_middlewares [] payload meta = pure payload
  run_middlewares (h ∷ hs) payload meta = do
    enhanced ← call h payload meta
    run_middlewares hs enhanced meta

  unfoldable pub run_chain : Chain H → P → Option String → M P
  unfolding run_middlewares
  run_chain c payload meta = do
    enhanced ← run_middlewares c.middlewares payload meta
    call c.handler enhanced meta

  -- `sender_url` is that of the message's sender, `extension_url` that of the extension.
  unfoldable pub handle :
      (String → Option String) → String → JsMap (Chain H) → Request P → Option String → Bool → M P
  unfolding get_url_origin run_chain
  handle origin extension_url handlers request sender_url bypass = do
    chain ←
        or_throw (JsMap.get request.method handlers)
          ("method: " ⧺ request.method ⧺ " is not detected")
    source ← get_url_origin origin sender_url
    own ← get_url_origin origin (some extension_url)
    require (source == own || bypass)
        ("Method " ⧺ request.method ⧺ " is not allowed to be called outside")
    run_chain chain request.payload request.meta
