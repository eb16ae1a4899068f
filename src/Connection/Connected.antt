-- ===== src/Connection/Connected.antt =====
-- Which identity is connected to an origin.
use crypt_keeper_extension.Prelude.{
  String, true, ◌≡◌, ◌≢◌, refl, ap, sym, ◌∙◌, ◌⊎◌, inl, inr, Option, none, some, arith, ◌==◌,
  eq_iff, if◌then◌else◌, Option-cases,
}
use crypt_keeper_extension.JsMap
use crypt_keeper_extension.JsMap.Laws.{IsMap, get-set, get-delete}
use crypt_keeper_extension.Types.{IdentityConnection}
use crypt_keeper_extension.State.{Ext}
use crypt_keeper_extension.Env.{Env}
use crypt_keeper_extension.Exec.{Result, ok, ◌>>=◌, after, result}
use crypt_keeper_extension.SimpleStorage
use crypt_keeper_extension.Crypto.{encrypt}
use crypt_keeper_extension.Browser
use crypt_keeper_extension.ZkIdentity.{get_identity}
use crypt_keeper_extension.ZkIdentity.Lookup.{get_identity-reads, get_identity-same}
use crypt_keeper_extension.ZkIdentitySemaphore.{ZkIdentitySemaphore}
use crypt_keeper_extension.Connection.{
  save, connect, disconnect, connection_of, is_origin_connected, get_connected_identity,
}

module _ (env : Env) where
  -- The connection that `connect` makes.
  abbrev made : String → String → ZkIdentitySemaphore → IdentityConnection
  made c origin z = record { commitment = c; name = z.metadata.name; url_origin = origin }

  connect_memory :
      (c origin : String) (z : ZkIdentitySemaphore) (s : Ext)
      → result (get_identity env c) s ≡ ok (some z)
      → result (connect env c (some origin)) s ≡ ok tt
      → ((after (connect env c (some origin)) s).connections
          ≡ JsMap.set origin (made c origin z) s.connections)
        × ((after (connect env c (some origin)) s).identities ≡ s.identities)
  unfolding connect save SimpleStorage.set encrypt Browser.push_event ◌>>=◌
  connect_memory c origin z s found h = ground (arith, get_identity-reads env c s)

  -- The identity of a connection.
  answer : Option IdentityConnection → Ext → Result (Option ZkIdentitySemaphore)
  answer none s = ok none
  answer (some k) s = result (get_identity env k.commitment) s

  answer-same :
      (o : Option IdentityConnection) (s t : Ext)
      → t.identities ≡ s.identities
      → answer o t ≡ answer o s
  unfolding answer
  answer-same none s t e = refl
  answer-same (some k) s t e = get_identity-same env k.commitment s t e

  connected_identity_lem :
      (o : String) (s : Ext)
      → result (get_connected_identity env (some o)) s ≡ answer (JsMap.get o s.connections) s
  unfolding answer get_connected_identity ◌>>=◌
  connected_identity_lem o s = ground arith

  -- The identity of an origin depends on the connections and the identities in memory alone.
  pub get_connected_identity-same :
      (o : String) (s t : Ext)
      → t.connections ≡ s.connections
      → t.identities ≡ s.identities
      → result (get_connected_identity env (some o)) t
        ≡ result (get_connected_identity env (some o)) s
  get_connected_identity-same o s t links ids =
      connected_identity_lem o t
      ∙ answer-same (JsMap.get o t.connections) s t ids
      ∙ ap (λ m. answer (JsMap.get o m) s) links
      ∙ sym (connected_identity_lem o s)

  -- When `connect` returns, the origin is connected to the identity with the given commitment, and
  -- every other origin has the identity that it had.
  pub get_connected_identity-connect :
      (c origin j : String) (z : ZkIdentitySemaphore) (s : Ext)
      → result (get_identity env c) s ≡ ok (some z)
      → result (connect env c (some origin)) s ≡ ok tt
      → result (get_connected_identity env (some j)) (after (connect env c (some origin)) s)
        ≡ (if origin == j then ok (some z) else result (get_connected_identity env (some j)) s)
  unfolding answer
  get_connected_identity-connect c origin j z s found h =
      let t = after (connect env c (some origin)) s in
      let (links, ids) = connect_memory c origin z s found h in
      ground (
        arith,
        links,
        found,
        connected_identity_lem j t,
        connected_identity_lem j s,
        get-set origin j (made c origin z) s.connections,
        get_identity-same env c s t ids,
        answer-same (JsMap.get j s.connections) s t ids,
      )

  -- `disconnect` with an origin removes its connection; with an identity it removes one.
  disconnect_memory :
      (c o : Option String) (s : Ext)
      → result (disconnect env c o) s ≡ ok true
      → (k : IdentityConnection) × (connection_of o c s.connections ≡ some k)
        × (JsMap.has k.url_origin s.connections ≡ true)
        × ((after (disconnect env c o) s).connections ≡ JsMap.delete k.url_origin s.connections)
        × ((after (disconnect env c o) s).identities ≡ s.identities)
  unfolding disconnect is_origin_connected save SimpleStorage.set encrypt Browser.push_event ◌>>=◌
  disconnect_memory c o s h = elim (Option-cases (connection_of o c s.connections)) [
    | inl missing ↦ absurd (ground arith)
    | inr (k, found) ↦ (k, found, ground arith, ground arith, ground arith)
  ]

  -- When `disconnect` returns true, one connection is gone: that of the given origin or, where the
  -- origin has none, the first of the given identity. Its origin has no identity any more, and every
  -- other origin has the identity that it had. No origin is listed twice before.
  pub get_connected_identity-disconnect :
      (c o : Option String) (j : String) (s : Ext)
      → IsMap s.connections
      → result (disconnect env c o) s ≡ ok true
      → (k : IdentityConnection) × (connection_of o c s.connections ≡ some k)
        × (result (get_connected_identity env (some j)) (after (disconnect env c o) s) ≡ (
            if k.url_origin == j then ok none else result (get_connected_identity env (some j)) s))
  unfolding answer
  get_connected_identity-disconnect c o j s map h =
      let t = after (disconnect env c o) s in
      let (k, found, there, links, ids) = disconnect_memory c o s h in
      (
        k,
        found,
        ground (
          arith,
          links,
          connected_identity_lem j t,
          connected_identity_lem j s,
          get-delete k.url_origin j s.connections map,
          answer-same (JsMap.get j s.connections) s t ids,
        ),
      )

  deleted_at : Option IdentityConnection → String
  deleted_at none = ""
  deleted_at (some k) = k.url_origin

  disconnect_at_most_one :
      (c o : Option String) (s : Ext)
      → ((after (disconnect env c o) s).connections ≡ s.connections)
        ⊎ ((after (disconnect env c o) s).connections
            ≡ JsMap.delete (deleted_at (connection_of o c s.connections)) s.connections)
  unfolding deleted_at disconnect is_origin_connected save SimpleStorage.set encrypt
      Browser.push_event ◌>>=◌
  disconnect_at_most_one c o s = ground arith

  -- Of two origins, `disconnect` leaves the connection of at least one as it was, also where both are
  -- connected to the identity that is to be disconnected. No origin is listed twice before.
  pub disconnect_leaves_one :
      (c o : Option String) (a b : String) (s : Ext)
      → IsMap s.connections
      → a ≢ b
      → (JsMap.get a (after (disconnect env c o) s).connections ≡ JsMap.get a s.connections)
        ⊎ (JsMap.get b (after (disconnect env c o) s).connections ≡ JsMap.get b s.connections)
  disconnect_leaves_one c o a b s map ne =
      let k = deleted_at (connection_of o c s.connections) in
      ground (
        arith,
        disconnect_at_most_one c o s,
        get-delete k a s.connections map,
        get-delete k b s.connections map,
        eq_iff k a,
        eq_iff k b,
      )
