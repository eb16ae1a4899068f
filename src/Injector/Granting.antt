-- ===== src/Injector/Granting.antt =====
-- A page asks for access and the user grants it: the request manager and both parts of `connect`.
use crypt_keeper_extension.Prelude.{
  String, Bool, false, ◌≡◌, refl, ap, ◌∙◌, none, some, ◌∷◌, present, is_some, arith, Option-cases,
  Bool-cases, eq_iff, inl, inr, ◌==◌, if◌then◌else◌, some_of_present,
}
use crypt_keeper_extension.Prelude.Text.{decimal}
use crypt_keeper_extension.JsMap
use crypt_keeper_extension.JsMap.{JsMap}
use crypt_keeper_extension.Types.{HostPermission}
use crypt_keeper_extension.Requests.{
  resolved_with, approve, origin_payload, accept, ResolutionAction,
}
use crypt_keeper_extension.State.{Ext, installed, settled, set_pending_requests}
use crypt_keeper_extension.Env.{Env}
use crypt_keeper_extension.Exec.{ok, Result-cases, ◌>>=◌, after, result}
use crypt_keeper_extension.RequestManager.{new_request, finalize_request}
use crypt_keeper_extension.RequestManager.Queue.{new_request_memory, Reach}
use crypt_keeper_extension.RequestManager.Settling.{finalize_request-new_request}
use crypt_keeper_extension.Injector.{
  begin_connect, end_connect, begin_body, ask_or_give, give_access,
}
use crypt_keeper_extension.Injector.Access.{
  data_lem, data_missing, begin_connect_hosts, end_connect_accepted,
}

pub finalize_request_hosts :
    (action : ResolutionAction) (s : Ext)
    → (after (finalize_request action) s).allowed_hosts ≡ s.allowed_hosts
unfolding finalize_request ◌>>=◌
finalize_request_hosts action s = refl

-- What adding a host that was not approved makes of a look-up.
granted :
    (origin j : String) (choice : HostPermission) (hosts : JsMap HostPermission)
    → JsMap.has origin hosts ≡ false
    → (if is_some (JsMap.get j hosts)
        then JsMap.get j hosts
        else if origin == j
        then some choice
        else none)
      ≡ (if origin == j then some choice else JsMap.get j hosts)
unfolding JsMap.has
granted origin j choice hosts unknown = elim (Option-cases (JsMap.get j hosts)) [
  | inl missing ↦ ground (arith, missing)
  | inr (found, there) ↦ elim (Bool-cases (origin == j)) [
    | inl same ↦
        let e : origin ≡ j = ground (arith, eq_iff origin j, same) in
        absurd (ground (arith, e, there, unknown))
    | inr other ↦ ground (arith, there, other)
  ]
]

module _ (env : Env) where
  -- Where `connect` waits, the host is not approved, and its request is made.
  waits_made :
      (is_change is_connected : Bool) (origin id : String) (s : Ext)
      → result (begin_connect env is_change (some origin)) s ≡ ok (is_connected, some id)
      → (decimal s.nonce ≡ id)
        × (JsMap.has origin s.allowed_hosts ≡ false)
        × (after (begin_connect env is_change (some origin)) s
            ≡ after (new_request approve (origin_payload origin)) s)
  unfolding begin_connect begin_body ask_or_give ◌>>=◌
  waits_made is_change is_connected origin id s h = elim (Option-cases (present (some origin))) [
    | inl missing ↦ absurd (ground (arith, data_missing env (some origin) s missing, h))
    | inr (given, present) ↦
        let (r, run, approved) = data_lem env (some origin) given s present in
        let same : some origin ≡ some given = some_of_present (some origin) given present in
        elim (Result-cases r) [
          | inl (e, thrown) ↦ absurd (ground (arith, run, thrown, h))
          | inr (d, made) ↦ elim (Bool-cases d.is_approved) [
            | inl known ↦
                elim (Result-cases
                  (result (give_access env is_change d.is_connected origin d.can_skip_approve) s)) [
                    | inl (e, failed) ↦ absurd (ground (arith, run, made, known, failed, h))
                    | inr (u, done) ↦ absurd (ground (arith, run, made, known, done, h))
                  ]
            | inr unknown ↦
                let (window, queue, promises, _, asked) =
                  new_request_memory approve (origin_payload origin) s in
                (
                  ground (arith, run, made, unknown, asked, h),
                  ground (arith, same, approved d made, unknown),
                  ground (arith, run, made, unknown, asked),
                )
          ]
        ]
  ]

  -- In a state that is reached from the installation, where `connect` waits for the user: the host is
  -- not approved, and an acceptance, given by the id of the request, gives the queue and the promises
  -- back as they were and settles the promise of that request, and no other, with the user's choice;
  -- after the rest of `connect` the host is approved with that choice, and every other host has the
  -- permission that it had.
  pub acceptance_connects :
      (is_change is_connected can_skip : Bool) (origin id : String) (s : Ext)
      → Reach installed s
      → result (begin_connect env is_change (some origin)) s ≡ ok (is_connected, some id)
      → let t = after (begin_connect env is_change (some origin)) s in
        let u =
          after
            (finalize_request (record { id = id; status = accept; answer = some can_skip }))
            t in
        let v =
          after
            (end_connect env is_change is_connected (some origin) (resolved_with (some can_skip)))
            u in
        (JsMap.has origin s.allowed_hosts ≡ false)
        × (u.pending_requests ≡ s.pending_requests)
        × (u.waiters ≡ s.waiters)
        × (u.effects
            ≡ set_pending_requests s.pending_requests
              ∷ settled id (resolved_with (some can_skip))
              ∷ t.effects)
        × ((j : String)
            → JsMap.get j v.allowed_hosts ≡ (
                if origin == j
                then some (record { url_origin = origin; can_skip_approve = can_skip })
                else JsMap.get j s.allowed_hosts))
  acceptance_connects is_change is_connected can_skip origin id s reached h =
      let (named, unknown, queued) = waits_made is_change is_connected origin id s h in
      let t = after (begin_connect env is_change (some origin)) s in
      let action : ResolutionAction = record { id = id; status = accept; answer = some can_skip } in
      let u = after (finalize_request action) t in
      let kept : u.allowed_hosts ≡ s.allowed_hosts =
        finalize_request_hosts action t ∙ begin_connect_hosts env is_change (some origin) s in
      let (_, queue, promises, told) =
        finalize_request-new_request approve (origin_payload origin) accept (some can_skip) s
          reached in
      (
        unknown,
        rw (queued, ← named) queue,
        rw (queued, ← named) promises,
        rw (queued, ← named) told,
        λ j.
            end_connect_accepted env is_change is_connected can_skip origin j u
            ∙ ap
                (λ (hosts : JsMap HostPermission).
                  if is_some (JsMap.get j hosts)
                  then JsMap.get j hosts
                  else if origin == j
                  then some (record { url_origin = origin; can_skip_approve = can_skip })
                  else none)
                kept
            ∙ granted origin j (record { url_origin = origin; can_skip_approve = can_skip })
                s.allowed_hosts unknown,
      )
