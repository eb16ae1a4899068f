-- ===== src/Store/Origins.antt =====
-- The origin that the popup shows for an identity.
use crypt_keeper_extension.Prelude.{
  String, ◌≡◌, refl, Option, none, some, [], ◌∷◌, arith, ◌==◌, is_some, if◌then◌else◌,
}
use crypt_keeper_extension.JsMap
use crypt_keeper_extension.JsMap.{JsMap}
use crypt_keeper_extension.JsMap.Laws.{get-set}
use crypt_keeper_extension.Types.{IdentityConnection}
use crypt_keeper_extension.Store.{Store, origins_from, use_connected_origins}

-- The origin of the last connection of an identity.
abbrev pub last_origin : String → JsMap IdentityConnection → Option String
last_origin commitment [] = none
last_origin commitment ((url_origin, connection) ∷ rest) =
    let later = last_origin commitment rest in
    if is_some later
    then later
    else if connection.commitment == commitment
    then some url_origin
    else none

get-origins_from :
    (c : String) (acc : JsMap String) (m : JsMap IdentityConnection)
    → JsMap.get c (origins_from acc m)
      ≡ (if is_some (last_origin c m) then last_origin c m else JsMap.get c acc)
unfolding origins_from
get-origins_from c acc [] = refl
get-origins_from c acc ((o, connection) ∷ m) = ground (
  arith,
  get-origins_from c (JsMap.set connection.commitment o acc) m,
  get-set connection.commitment c o acc,
)

-- The popup shows for each identity the origin of its last connection, and none for an identity that
-- is not connected; the other origins of an identity are not shown.
pub get-use_connected_origins :
    (commitment : String) (store : Store)
    → JsMap.get commitment (use_connected_origins store) ≡ last_origin commitment store.connections
unfolding use_connected_origins JsMap.get
get-use_connected_origins commitment store =
    ground (arith, get-origins_from commitment [] store.connections)
