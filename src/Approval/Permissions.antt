-- ===== src/Approval/Permissions.antt =====
-- Which hosts are approved, and with which permission, after the operations that change that.
use crypt_keeper_extension.Prelude.{
  String, true, false, ◌≡◌, ◌↔◌, Option, none, some, arith, truthy, ◌==◌, eq_iff, if◌then◌else◌,
  is_some, Option-cases, Bool-cases, inl, inr, refl, ◌∷◌,
}
use crypt_keeper_extension.JsMap
use crypt_keeper_extension.JsMap.Laws.{IsMap, get-set, get-delete}
use crypt_keeper_extension.Types.{HostPermission}
use crypt_keeper_extension.State
use crypt_keeper_extension.State.{Ext, BrowserEvent, event}
use crypt_keeper_extension.Env.{Env}
use crypt_keeper_extension.Exec.{M, ok, pure, ◌>>=◌, ◌>>◌, after, result, Result-cases}
use crypt_keeper_extension.SimpleStorage
use crypt_keeper_extension.Crypto
use crypt_keeper_extension.Browser
use crypt_keeper_extension.Browser.Closing.{close_popup_ok, close_popup_keeps}
use crypt_keeper_extension.Approval.{
  save, set_permission, add, add_new, remove, remove_known, is_origin_approved, get_permission,
}

-- The middleware passes exactly the calls that name an approved host, with their payload as it came.
pub is_origin_approved_iff :
    {P : Type 0} (p v : P) (meta : Option String) (s : Ext)
    → (result (is_origin_approved p meta) s ≡ ok v) ↔ (
        (v ≡ p)
        × (o : String) × (meta ≡ some o)
        × (truthy o ≡ true)
        × (JsMap.has o s.allowed_hosts ≡ true))
unfolding is_origin_approved ◌>>=◌
is_origin_approved_iff p v meta s = elim (Option-cases meta) [
  | inl missing ↦ ground arith
  | inr (o, is) ↦ (λ e. (ground arith, o, is, ground arith, ground arith), λ h. ground arith)
]

-- The messages that follow a change of a host.
abbrev announces : BrowserEvent → Option String → M Unit
announces e o = Browser.push_event e o >> (Browser.close_popup >> pure tt)

announce_hosts :
    (e : BrowserEvent) (o : Option String) (s : Ext)
    → (after (announces e o) s).allowed_hosts ≡ s.allowed_hosts
unfolding Browser.push_event ◌>>=◌
announce_hosts e o s =
    let t = record s { effects = event e o ∷ s.effects } in
    ground (arith, close_popup_ok t, close_popup_keeps (λ t. t.allowed_hosts) (λ p q w e t. refl) t)

module _ (env : Env) where
  pub set_permission_memory :
      (p : HostPermission) (s : Ext)
      → (after (set_permission env p) s).allowed_hosts ≡ JsMap.set p.url_origin p s.allowed_hosts
  unfolding set_permission save SimpleStorage.set Crypto.encrypt ◌>>=◌
  set_permission_memory p s = ground arith

  -- After `setPermission`, even where writing it has thrown, its host has the given permission, and
  -- every other host the one that it had.
  pub get_permission-set_permission :
      (p : HostPermission) (j : String) (s : Ext)
      → result (get_permission j) (after (set_permission env p) s)
        ≡ (if p.url_origin == j then ok p else result (get_permission j) s)
  unfolding get_permission ◌>>=◌
  get_permission-set_permission p j s = ground (
    arith,
    set_permission_memory p s,
    get-set p.url_origin j p s.allowed_hosts,
    eq_iff p.url_origin j,
  )

  save_hosts : (s : Ext) → (after (save env) s).allowed_hosts ≡ s.allowed_hosts
  unfolding save SimpleStorage.set Crypto.encrypt ◌>>=◌
  save_hosts s = ground arith

  save_then_hosts :
      (rest : M Unit)
      → ((t : Ext) → (after rest t).allowed_hosts ≡ t.allowed_hosts)
      → (s : Ext) → (after (save env >> rest) s).allowed_hosts ≡ s.allowed_hosts
  unfolding ◌>>=◌
  save_then_hosts rest kept s = elim (Result-cases (result (save env) s)) [
    | inl (e, thrown) ↦ ground (arith, thrown, save_hosts s)
    | inr (u, saved) ↦ ground (arith, saved, save_hosts s, kept (after (save env) s))
  ]

  pub add_memory :
      (p : HostPermission) (s : Ext)
      → (after (add env p) s).allowed_hosts ≡ (
          if is_some (JsMap.get p.url_origin s.allowed_hosts)
          then s.allowed_hosts
          else JsMap.set p.url_origin p s.allowed_hosts)
  unfolding add add_new ◌>>=◌
  add_memory p s = elim (Bool-cases (is_some (JsMap.get p.url_origin s.allowed_hosts))) [
    | inl known ↦ ground (arith, known)
    | inr new ↦
        let t = record s { allowed_hosts = JsMap.set p.url_origin p s.allowed_hosts } in
        let told = announce_hosts (State.approval true p.url_origin) (some p.url_origin) in
        let kept =
          save_then_hosts (announces (State.approval true p.url_origin) (some p.url_origin)) told
            t in
        ground (arith, new, kept)
  ]

  -- `add` gives a host that was not approved the given permission. It changes neither the permission
  -- of a host that was approved already, nor that of any other host.
  pub get-add :
      (p : HostPermission) (j : String) (s : Ext)
      → JsMap.get j (after (add env p) s).allowed_hosts ≡ (
          if is_some (JsMap.get j s.allowed_hosts)
          then JsMap.get j s.allowed_hosts
          else if p.url_origin == j
          then some p
          else none)
  get-add p j s =
      ground
        (arith, add_memory p s, get-set p.url_origin j p s.allowed_hosts, eq_iff p.url_origin j)

  pub remove_memory :
      (o : String) (s : Ext)
      → (after (remove env o) s).allowed_hosts
        ≡ (if JsMap.has o s.allowed_hosts then JsMap.delete o s.allowed_hosts else s.allowed_hosts)
  unfolding remove remove_known ◌>>=◌
  remove_memory o s = elim (Bool-cases (JsMap.has o s.allowed_hosts)) [
    | inl known ↦
        let t = record s { allowed_hosts = JsMap.delete o s.allowed_hosts } in
        let told = announce_hosts (State.approval false o) (some o) in
        let kept = save_then_hosts (announces (State.approval false o) (some o)) told t in
        ground (arith, known, kept)
    | inr unknown ↦ ground (arith, unknown)
  ]

  -- After `remove`, even where writing it has thrown, the host is not approved, and every other host
  -- has the permission that it had. No host is listed twice before.
  pub get-remove :
      (o j : String) (s : Ext)
      → IsMap s.allowed_hosts
      → JsMap.get j (after (remove env o) s).allowed_hosts
        ≡ (if o == j then none else JsMap.get j s.allowed_hosts)
  unfolding JsMap.has
  get-remove o j s map =
      ground (arith, remove_memory o s, get-delete o j s.allowed_hosts map, eq_iff o j)
