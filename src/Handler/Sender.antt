-- ===== src/Handler/Sender.antt =====
-- The check of the sender in `handle`: who may call which method.
use crypt_keeper_extension.Prelude.{
  String, Bool, true, false, ◌≡◌, ◌≢◌, ◌⊎◌, inl, inr, refl, Option, none, some, arith, ◌==◌, eq_iff,
  eq_refl, ◌||◌,
}
use crypt_keeper_extension.Prelude.Text.{◌⧺◌}
use crypt_keeper_extension.JsMap
use crypt_keeper_extension.JsMap.{JsMap}
use crypt_keeper_extension.State.{Ext}
use crypt_keeper_extension.Exec.{M, ok, err, ◌>>=◌, ◌>>◌, require, or_throw, after, result}
use crypt_keeper_extension.Handler.{Chain, Request, run_chain, get_url_origin, handle}

module _ {H P : Type 0} (k : Chain H → M P) (origin : String → Option String) where
  -- `handle` up to the call of the chain, which is `k`.
  gate : Option (Chain H) → String → Option String → Option String → Bool → String → M P
  gate found missing sender extension bypass outside = do
    chain ← or_throw found missing
    source ← get_url_origin origin sender
    own ← get_url_origin origin extension
    require (source == own || bypass) outside
    k chain

  gate_ok :
      (found : Option (Chain H)) (missing : String) (sender extension : Option String)
      (bypass : Bool) (outside : String) (s : Ext) (v : P)
      → result (gate found missing sender extension bypass outside) s ≡ ok v
      → (c : Chain H) × (found ≡ some c) × (result (k c) s ≡ ok v)
  unfolding gate get_url_origin ◌>>=◌
  gate_ok none missing sender extension bypass outside s v e = absurd (ground arith)
  gate_ok (some c) missing sender extension bypass outside s v e = (c, refl, ground arith)

  gate_outside :
      (found : Option (Chain H)) (missing : String) (sender extension : Option String)
      (outside a b : String) (s : Ext)
      → get_url_origin origin sender s ≡ (ok a, s)
      → get_url_origin origin extension s ≡ (ok b, s)
      → a ≢ b
      → (v : P)
      → (result (gate found missing sender extension false outside) s ≢ ok v)
        × (after (gate found missing sender extension false outside) s ≡ s)
  unfolding gate ◌>>=◌
  gate_outside found missing sender extension outside a b s ea eb ne v = ground (arith, eq_iff a b)

  gate_own :
      (c : Chain H) (missing : String) (sender extension : Option String) (bypass : Bool)
      (outside a : String) (s : Ext)
      → get_url_origin origin sender s ≡ (ok a, s)
      → get_url_origin origin extension s ≡ (ok a, s)
      → gate (some c) missing sender extension bypass outside s ≡ k c s
  unfolding gate ◌>>=◌
  gate_own c missing sender extension bypass outside a s ea eb = rw (ea, eb, eq_refl a) refl

  gate_refused :
      (found : Option (Chain H)) (missing : String) (sender extension : Option String)
      (outside a b : String) (s : Ext)
      → get_url_origin origin sender s ≡ (ok a, s)
      → get_url_origin origin extension s ≡ (ok b, s)
      → a ≢ b
      → (gate found missing sender extension false outside s ≡ (err missing, s))
        ⊎ (gate found missing sender extension false outside s ≡ (err outside, s))
  unfolding gate ◌>>=◌
  gate_refused none missing sender extension outside a b s ea eb ne = inl refl
  gate_refused (some c) missing sender extension outside a b s ea eb ne =
      inr (ground (arith, ea, eb, eq_iff a b, ne))

  gate_bypass :
      (found : Option (Chain H)) (missing : String) (sender extension : Option String)
      (outside a b : String) (s : Ext)
      → get_url_origin origin sender s ≡ (ok a, s)
      → get_url_origin origin extension s ≡ (ok b, s)
      → gate found missing sender extension true outside s ≡ (or_throw found missing >>= k) s
  unfolding gate ◌>>=◌
  gate_bypass none missing sender extension outside a b s ea eb = refl
  gate_bypass (some c) missing sender extension outside a b s ea eb = ground (arith, ea, eb)

module _ {H P : Type 0} (call : H → P → Option String → M P) (origin : String → Option String)
    (extension_url : String) (handlers : JsMap (Chain H)) (request : Request P)
    (sender : Option String) (s : Ext) where
  -- A call that returns is one of a registered method, whose chain has returned the same.
  pub handle_ok :
      (bypass : Bool) (v : P)
      → result (handle call origin extension_url handlers request sender bypass) s ≡ ok v
      → (c : Chain H) × (JsMap.get request.method handlers ≡ some c)
        × (result (run_chain call c request.payload request.meta) s ≡ ok v)
  unfolding handle gate
  handle_ok bypass v e =
      gate_ok (λ c. run_chain call c request.payload request.meta) origin
        (JsMap.get request.method handlers) _ sender (some extension_url) bypass _ s v e

  -- A call from another origin than the extension's own, where the method does not bypass the check,
  -- throws and changes nothing.
  pub handle_outside :
      (a b : String)
      → get_url_origin origin sender s ≡ (ok a, s)
      → get_url_origin origin (some extension_url) s ≡ (ok b, s)
      → a ≢ b
      → (v : P)
      → (result (handle call origin extension_url handlers request sender false) s ≢ ok v)
        × (after (handle call origin extension_url handlers request sender false) s ≡ s)
  unfolding handle gate
  handle_outside a b ea eb ne v =
      gate_outside (λ c. run_chain call c request.payload request.meta) origin
        (JsMap.get request.method handlers) _ sender (some extension_url) _ a b s ea eb ne v

  -- A call of a registered method from the extension's own origin is the call of its chain.
  pub handle_own :
      (c : Chain H) (bypass : Bool) (a : String)
      → JsMap.get request.method handlers ≡ some c
      → get_url_origin origin sender s ≡ (ok a, s)
      → get_url_origin origin (some extension_url) s ≡ (ok a, s)
      → handle call origin extension_url handlers request sender bypass s
        ≡ run_chain call c request.payload request.meta s
  unfolding handle gate
  handle_own c bypass a known ea eb = rw known (
      gate_own (λ d. run_chain call d request.payload request.meta) origin c _ sender
        (some extension_url) bypass _ a s ea eb)

  -- The two errors of such a call.
  pub handle_refused :
      (a b : String)
      → get_url_origin origin sender s ≡ (ok a, s)
      → get_url_origin origin (some extension_url) s ≡ (ok b, s)
      → a ≢ b
      → (handle call origin extension_url handlers request sender false s
          ≡ (err ("method: " ⧺ request.method ⧺ " is not detected"), s))
        ⊎ (handle call origin extension_url handlers request sender false s
            ≡ (err ("Method " ⧺ request.method ⧺ " is not allowed to be called outside"), s))
  unfolding handle gate
  handle_refused a b ea eb ne =
      gate_refused (λ c. run_chain call c request.payload request.meta) origin
        (JsMap.get request.method handlers) _ sender (some extension_url) _ a b s ea eb ne

  -- A call of a method that bypasses the check depends on the sender in nothing.
  pub handle_bypass :
      (a b : String)
      → get_url_origin origin sender s ≡ (ok a, s)
      → get_url_origin origin (some extension_url) s ≡ (ok b, s)
      → handle call origin extension_url handlers request sender true s
        ≡ (or_throw
                (JsMap.get request.method handlers)
                ("method: " ⧺ request.method ⧺ " is not detected")
              >>= λ c. run_chain call c request.payload request.meta)
            s
  unfolding handle gate
  handle_bypass a b ea eb =
      gate_bypass (λ c. run_chain call c request.payload request.meta) origin
        (JsMap.get request.method handlers) _ sender (some extension_url) _ a b s ea eb
