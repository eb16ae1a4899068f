-- ===== src/Routes/Guards.antt =====
-- What the middlewares and the check of the sender guarantee.
use crypt_keeper_extension.Prelude.{
  String, Bool, true, false, ◌≡◌, ◌≢◌, refl, Option, none, some, List, [], ◌∷◌, arith, truthy,
  Option-cases, inl, inr, subst, ◌∙◌, sym, ap,
}
use crypt_keeper_extension.JsMap
use crypt_keeper_extension.JsMap.{JsMap}
use crypt_keeper_extension.State.{Ext}
use crypt_keeper_extension.Exec.{M, ok, pure, ◌>>=◌, >>=-eq-ok, after, result}
use crypt_keeper_extension.Lock
use crypt_keeper_extension.Approval
use crypt_keeper_extension.Connection
use crypt_keeper_extension.Handler.{Chain, Request, run_chain, run_middlewares, get_url_origin}
use crypt_keeper_extension.Handler.Sender.{handle_ok, handle_outside}
use crypt_keeper_extension.Routes.{
  HandlerName, lock_ensure, approval_is_origin_approved, connection_is_origin_connected,
  protocol_generate_semaphore_proof, protocol_generate_rlnproof,
  connection_reveal_connected_identity_commitment_request, group_join_group_request,
  group_generate_group_merkle_proof_request, zk_identity_import_request, initialize,
  rpc_method_access, handle, or_false,
}

-- The payload `false` in place of none.
abbrev or_value : {P : Type 0} → P → Option P → P
or_value falsy none = falsy
or_value falsy (some p) = p

-- `ensure`, with its payload of one type.
unfoldable pub ensured : {P : Type 0} → P → P → M P
ensured falsy p = do kept ← Lock.ensure p; pure (or_value falsy kept)

-- The functions that are registered: the three guards, and the others as given. `falsy` is the
-- payload `false`.
unfoldable pub dispatch :
    {P : Type 0}
    → P
    → (HandlerName → P → Option String → M P)
    → HandlerName
    → P
    → Option String
    → M P
dispatch falsy other lock_ensure p o = ensured falsy p
dispatch falsy other approval_is_origin_approved p o = Approval.is_origin_approved p o
dispatch falsy other connection_is_origin_connected p o = Connection.is_origin_connected p o
dispatch falsy other h p o = other h p o

-- The methods that a page may call once it is approved and connected.
pub data PageMethod : Type 0 where
  semaphore_proof rln_proof reveal_commitment join_group group_merkle_proof import_identity :
      PageMethod

abbrev pub method_text : PageMethod → String
method_text semaphore_proof = "rpc/injector/proofs/generateSemaphoreProof"
method_text rln_proof = "rpc/injector/proofs/generateRlnProof"
method_text reveal_commitment = "rpc/injector/identity/revealConnectedIdentityCommitment"
method_text join_group = "rpc/injector/group/join"
method_text group_merkle_proof = "rpc/injector/groups/generateGroupMerkleProof"
method_text import_identity = "rpc/injector/identity/import"

abbrev pub handler_of : PageMethod → HandlerName
handler_of semaphore_proof = protocol_generate_semaphore_proof
handler_of rln_proof = protocol_generate_rlnproof
handler_of reveal_commitment = connection_reveal_connected_identity_commitment_request
handler_of join_group = group_join_group_request
handler_of group_merkle_proof = group_generate_group_merkle_proof_request
handler_of import_identity = zk_identity_import_request

abbrev guards : List HandlerName
guards = lock_ensure ∷ approval_is_origin_approved ∷ connection_is_origin_connected ∷ []

abbrev guarded_chain : HandlerName → Chain HandlerName
guarded_chain h = record { middlewares = guards; handler = h }

registered :
    (m : PageMethod)
    → JsMap.get (method_text m) (initialize []) ≡ some (guarded_chain (handler_of m))
unfolding initialize JsMap.get
registered semaphore_proof = refl
registered rln_proof = refl
registered reveal_commitment = refl
registered join_group = refl
registered group_merkle_proof = refl
registered import_identity = refl

pub or_false-false : (o : Option Bool) → o ≢ some true → or_false o ≡ false
or_false-false none h = refl
or_false-false (some b) h = ground arith

same_chain : {c d : Chain HandlerName} → some c ≡ some d → c ≡ d
same_chain e = cc

module _ {P : Type 0} (falsy : P) (other : HandlerName → P → Option String → M P) where
  -- The page that asks is approved and connected.
  pub record IsAdmitted (meta : Option String) (s : Ext) : Type 0 where
    pub url_origin : String
    pub given : meta ≡ some url_origin
    pub named : truthy url_origin ≡ true
    pub approved : JsMap.has url_origin s.allowed_hosts ≡ true
    pub connected : JsMap.has url_origin s.connections ≡ true

  -- The three guards in a row.
  guard_steps : P → Option String → M P
  guard_steps p meta = do
    e ← ensured falsy p
    a ← Approval.is_origin_approved e meta
    c ← Connection.is_origin_connected a meta
    pure c

  guards_lem :
      (p : P) (meta : Option String)
      → run_middlewares (dispatch falsy other) guards p meta ≡ guard_steps p meta
  unfolding run_middlewares dispatch guard_steps
  guards_lem p meta = refl

  ensured-stays : (p : P) (s : Ext) → after (ensured falsy p) s ≡ s
  unfolding ensured Lock.ensure ◌>>=◌
  ensured-stays p s = ground arith

  is_origin_approved_ok :
      (p v : P) (meta : Option String) (s : Ext)
      → result (Approval.is_origin_approved p meta) s ≡ ok v
      → (o : String) × (meta ≡ some o)
        × (truthy o ≡ true)
        × (JsMap.has o s.allowed_hosts ≡ true)
        × (after (Approval.is_origin_approved p meta) s ≡ s)
  unfolding Approval.is_origin_approved ◌>>=◌
  is_origin_approved_ok p v meta s e = elim (Option-cases meta) [
    | inl missing ↦ absurd (ground arith)
    | inr (o, is) ↦ (o, is, ground arith, ground arith, ground arith)
  ]

  is_origin_connected_ok :
      (p v : P) (meta : Option String) (o : String) (s : Ext)
      → meta ≡ some o
      → truthy o ≡ true
      → result (Connection.is_origin_connected p meta) s ≡ ok v
      → JsMap.has o s.connections ≡ true
  unfolding Connection.is_origin_connected ◌>>=◌
  is_origin_connected_ok p v meta o s given full e = ground arith

  -- What the three guards let pass comes from an admitted page.
  guard_steps-IsAdmitted :
      (p v : P) (meta : Option String) (s : Ext)
      → result (guard_steps p meta) s ≡ ok v
      → IsAdmitted meta s
  unfolding guard_steps
  guard_steps-IsAdmitted p v meta s e =
      let (w, _, e1) = >>=-eq-ok _ _ s e in
      let (x, approved, e2) = >>=-eq-ok _ _ _ e1 in
      let (o, given, named, known, stays) = is_origin_approved_ok w x meta _ approved in
      let (y, connected, _) = >>=-eq-ok _ _ _ e2 in
      let linked = is_origin_connected_ok x y meta o _ given named connected in
      record {
        url_origin = o;
        given = given;
        named = named;
        approved = subst (λ t. JsMap.has o t.allowed_hosts ≡ true) (ensured-stays p s) known;
        connected =
            subst (λ t. JsMap.has o t.connections ≡ true) (stays ∙ ensured-stays p s) linked;
      }

  guarded_chain-IsAdmitted :
      (h : HandlerName) (p v : P) (meta : Option String) (s : Ext)
      → result (run_chain (dispatch falsy other) (guarded_chain h) p meta) s ≡ ok v
      → IsAdmitted meta s
  unfolding run_chain
  guarded_chain-IsAdmitted h p v meta s e =
      let (w, passed, _) = >>=-eq-ok _ _ s e in
      guard_steps-IsAdmitted p w meta s
        (subst (λ (k : M P). result k s ≡ ok w) (guards_lem p meta) passed)

  -- A call of one of the six page methods that use an identity returns only if the page that the
  -- request names is an approved host and has an identity connected to it.
  pub page_method-IsAdmitted :
      (origin : String → Option String) (extension_url : String) (m : PageMethod)
      (request : Request P) (sender : Option String) (s : Ext) (v : P)
      → request.method ≡ method_text m
      → result (handle (dispatch falsy other) origin extension_url request sender) s ≡ ok v
      → IsAdmitted request.meta s
  unfolding handle
  page_method-IsAdmitted origin extension_url m request sender s v named e =
      let (c, known, returned) =
        handle_ok (dispatch falsy other) origin extension_url (initialize []) request sender s _ v
          e in
      let same : c ≡ guarded_chain (handler_of m) =
        same_chain (sym known ∙ ap (λ t. JsMap.get t (initialize [])) named ∙ registered m) in
      guarded_chain-IsAdmitted (handler_of m) request.payload v request.meta s (
        subst
          (λ k. result (run_chain (dispatch falsy other) k request.payload request.meta) s ≡ ok v)
          same returned)

-- From another origin than the extension's own, only the methods of the access list can be called:
-- any other call throws and changes nothing, whatever the handlers do.
pub outside_call_rejected :
    {P : Type 0} (call : HandlerName → P → Option String → M P) (origin : String → Option String)
    (extension_url : String) (request : Request P) (sender : Option String) (s : Ext) (a b : String)
    (v : P)
    → get_url_origin origin sender s ≡ (ok a, s)
    → get_url_origin origin (some extension_url) s ≡ (ok b, s)
    → a ≢ b
    → JsMap.get request.method rpc_method_access ≢ some true
    → (result (handle call origin extension_url request sender) s ≢ ok v)
      × (after (handle call origin extension_url request sender) s ≡ s)
unfolding handle
outside_call_rejected call origin extension_url request sender s a b v ea eb ne hidden =
    let closed : or_false (JsMap.get request.method rpc_method_access) ≡ false =
      or_false-false (JsMap.get request.method rpc_method_access) hidden in
    rw closed
      (handle_outside call origin extension_url (initialize []) request sender s a b ea eb ne v)
