-- ===== src/Store/Permissions.antt =====
-- The permissions that the popup shows are those of the background page.
use crypt_keeper_extension.Prelude.{
  String, ◌≡◌, sym, ap, ◌∙◌, none, some, arith, Bool-cases, inl, inr, ◌==◌, eq_iff, if◌then◌else◌,
}
use crypt_keeper_extension.JsMap
use crypt_keeper_extension.JsMap.Laws.{IsMap, get-set, get-delete, set-IsMap, delete-IsMap}
use crypt_keeper_extension.Types.{HostPermission}
use crypt_keeper_extension.State.{Ext}
use crypt_keeper_extension.Env.{Env}
use crypt_keeper_extension.Exec.{ok, ◌>>=◌, after, result, ok_injective}
use crypt_keeper_extension.Lock
use crypt_keeper_extension.Approval
use crypt_keeper_extension.Approval.{skips, get_permission}
use crypt_keeper_extension.Approval.Permissions.{set_permission_memory, remove_memory, get-remove}
use crypt_keeper_extension.Store.{Store, dispatch, set_permission, remove_host_permission}
use crypt_keeper_extension.Store.Posting.{post_ok}
use crypt_keeper_extension.Store.Thunks.{
  Thunk, ensured_set_permission, set_passed, fetch_host_permissions, set_host_permissions,
  remove_host,
}

-- What the background page answers for a host.
abbrev pub permission_of : String → Ext → HostPermission
permission_of o s = record {
  url_origin = o;
  can_skip_approve = skips (JsMap.get o s.allowed_hosts);
}

-- Each permission in the store is that of the background page.
pub record IsShown (store : Store) (s : Ext) : Type 0 where
  pub shown :
      (o : String) (p : HostPermission)
      → JsMap.get o store.can_skip_approvals ≡ some p
      → p ≡ permission_of o s
  pub store_map : IsMap store.can_skip_approvals
  pub hosts_map : IsMap s.allowed_hosts

permission-IsShown :
    (p : HostPermission) (store : Store) (s t : Ext)
    → t.allowed_hosts ≡ JsMap.set p.url_origin p s.allowed_hosts
    → IsShown store s
    → IsShown (dispatch (set_permission p) store) t
unfolding dispatch
permission-IsShown p store s t hosts h = record {
  shown = λ o q found. elim (Bool-cases (p.url_origin == o)) [
    | inl same ↦
        let e : p.url_origin ≡ o = ground (arith, eq_iff p.url_origin o, same) in
        ground (
          arith,
          e,
          same,
          found,
          hosts,
          get-set p.url_origin o p store.can_skip_approvals,
          get-set p.url_origin o p s.allowed_hosts,
        )
    | inr other ↦
        let before : q ≡ permission_of o s =
          h.shown o q
            (ground (arith, other, found, get-set p.url_origin o p store.can_skip_approvals)) in
        ground (arith, other, before, hosts, get-set p.url_origin o p s.allowed_hosts)
  ];
  store_map = set-IsMap p.url_origin p store.can_skip_approvals h.store_map;
  hosts_map = rw hosts (set-IsMap p.url_origin p s.allowed_hosts h.hosts_map);
}

fetched-IsShown :
    (o : String) (store : Store) (s : Ext)
    → IsShown store s
    → IsShown (dispatch (set_permission (permission_of o s)) store) s
unfolding dispatch
fetched-IsShown o store s h = record {
  shown = λ j q found.
      let there = get-set o j (permission_of o s) store.can_skip_approvals in
      elim (Bool-cases (o == j)) [
        | inl same ↦
            let e : o ≡ j = ground (arith, eq_iff o j, same) in
            let it : permission_of o s ≡ q = ground (arith, same, found, there) in
            sym it ∙ ap (λ (i : String). permission_of i s) e
        | inr other ↦ h.shown j q (ground (arith, other, found, there))
      ];
  store_map = set-IsMap o (permission_of o s) store.can_skip_approvals h.store_map;
  hosts_map = h.hosts_map;
}

removal-IsShown :
    (o : String) (store : Store) (s t : Ext)
    → ((j : String)
        → JsMap.get j t.allowed_hosts ≡ (if o == j then none else JsMap.get j s.allowed_hosts))
    → IsMap t.allowed_hosts
    → IsShown store s
    → IsShown (dispatch (remove_host_permission o) store) t
unfolding dispatch
removal-IsShown o store s t hosts map h = record {
  shown = λ j q found.
      let left = get-delete o j store.can_skip_approvals h.store_map in
      elim (Bool-cases (o == j)) [
        | inl same ↦ absurd (ground (arith, same, found, left))
        | inr other ↦
            let before : q ≡ permission_of j s = h.shown j q (ground (arith, other, found, left)) in
            ground (arith, other, before, hosts j)
      ];
  store_map = delete-IsMap o store.can_skip_approvals h.store_map;
  hosts_map = map;
}

-- What the popup does with the permissions of hosts.
pub data Call : Type 0 where
  fetches : String → Call
  sets : HostPermission → Call
  removes : String → Call

module _ (env : Env) where
  abbrev pub call : Call → Thunk Unit
  call (fetches o) = fetch_host_permissions o
  call (sets p) = set_host_permissions env p
  call (removes o) = remove_host env o

  -- Calls one after another, of which each returns.
  pub data Calls : Store → Ext → Store → Ext → Type 0 where
    here : {store : Store} {s : Ext} → Calls store s store s
    next :
        {store before : Store} {s : Ext} {store' : Store} {t : Ext} (c : Call)
        → result (call c store) s ≡ ok (tt, before)
        → Calls before (after (call c store) s) store' t
        → Calls store s store' t

  removed-IsMap :
      (o : String) (s : Ext)
      → IsMap s.allowed_hosts
      → IsMap (after (Approval.remove env o) s).allowed_hosts
  removed-IsMap o s h = elim (Bool-cases (JsMap.has o s.allowed_hosts)) [
    | inl known ↦ rw (remove_memory env o s, known) (delete-IsMap o s.allowed_hosts h)
    | inr unknown ↦ rw (remove_memory env o s, unknown) h
  ]

  moved : (a b : Store) (s t : Ext) → a ≡ b → s ≡ t → IsShown b t → IsShown a s
  moved a b s t e k h = rw (e, k) h

  fetch-IsShown :
      (o : String) (store store' : Store) (s : Ext)
      → result (fetch_host_permissions o store) s ≡ ok (tt, store')
      → IsShown store s
      → IsShown store' (after (fetch_host_permissions o store) s)
  unfolding fetch_host_permissions dispatch get_permission ◌>>=◌
  fetch-IsShown o store store' s h known =
      let store_of : HostPermission → Unit × Store = λ res. (
        tt,
        dispatch
            (set_permission (record { url_origin = o; can_skip_approve = res.can_skip_approve }))
            store,
      ) in
      let (res, got, e, kept) = post_ok (get_permission o) store_of s (tt, store') h in
      let same : permission_of o s ≡ res = ok_injective got in
      moved store' (dispatch (set_permission (permission_of o s)) store) _ _
        (ap (λ (x : Unit × Store). x.1) (e ∙ ap store_of (sym same))) kept
        (fetched-IsShown o store s known)

  ensured_memory :
      (p res : HostPermission) (s : Ext)
      → result (ensured_set_permission env p) s ≡ ok res
      → (after (ensured_set_permission env p) s).allowed_hosts
        ≡ JsMap.set p.url_origin p s.allowed_hosts
  unfolding ensured_set_permission set_passed Lock.ensure ◌>>=◌
  ensured_memory p res s made = elim (Bool-cases s.locker.is_unlocked) [
    | inl open_lock ↦ ground (arith, open_lock, set_permission_memory env p s)
    | inr locked ↦ absurd (ground (arith, locked, made))
  ]

  set-IsShown :
      (p : HostPermission) (store store' : Store) (s : Ext)
      → result (set_host_permissions env p store) s ≡ ok (tt, store')
      → IsShown store s
      → IsShown store' (after (set_host_permissions env p store) s)
  unfolding set_host_permissions dispatch
  set-IsShown p store store' s h known =
      let (res, got, e, kept) = post_ok (ensured_set_permission env p) _ s (tt, store') h in
      moved store' (dispatch (set_permission p) store) _ _ (ap (λ (x : Unit × Store). x.1) e) kept
        (permission-IsShown p store s _ (ensured_memory p res s got) known)

  remove-IsShown :
      (o : String) (store store' : Store) (s : Ext)
      → result (remove_host env o store) s ≡ ok (tt, store')
      → IsShown store s
      → IsShown store' (after (remove_host env o store) s)
  unfolding remove_host dispatch
  remove-IsShown o store store' s h known =
      let (res, got, e, kept) = post_ok (Approval.remove env o) _ s (tt, store') h in
      moved store' (dispatch (remove_host_permission o) store) _ _
        (ap (λ (x : Unit × Store). x.1) e) kept
        (removal-IsShown o store s _ (λ j. get-remove env o j s known.hosts_map)
          (removed-IsMap o s known.hosts_map) known)

  call-IsShown :
      (c : Call) (store store' : Store) (s : Ext)
      → result (call c store) s ≡ ok (tt, store')
      → IsShown store s
      → IsShown store' (after (call c store) s)
  call-IsShown (fetches o) store store' s h known = fetch-IsShown o store store' s h known
  call-IsShown (sets p) store store' s h known = set-IsShown p store store' s h known
  call-IsShown (removes o) store store' s h known = remove-IsShown o store store' s h known

  -- After any calls of the popup that fetch, set and remove permissions of hosts, of which each
  -- returns, every permission that the popup shows is that of the background page, if it was before
  -- and no host was listed twice.
  pub calls-IsShown :
      {store store' : Store} {s t : Ext}
      → Calls store s store' t
      → IsShown store s
      → IsShown store' t
  calls-IsShown here h = h
  calls-IsShown (next {store} {before} {s} c made rest) h =
      calls-IsShown rest (call-IsShown c store before s made h)
