-- ===== src/Injector.antt =====
-- services/injector: the connection of a page. `connect` waits for the unlocking and for the user, so
-- it comes in parts: each runs up to a promise that is awaited.
pub mod Access
pub mod Granting
use crypt_keeper_extension.Prelude.{
  ℕ, String, Bool, true, false, not, ◌||◌, Option, none, some, present, is_some, if◌then◌else◌,
}
use crypt_keeper_extension.Requests.{Outcome, approve, origin_payload}
use crypt_keeper_extension.Types.{LockStatus}
use crypt_keeper_extension.State.{default_page}
use crypt_keeper_extension.Env.{Env}
use crypt_keeper_extension.Exec.{
  M, Result, ok, err, pure, throw, lift, attempt, ◌>>=◌, ◌>>◌, require, or_throw, when,
}
use crypt_keeper_extension.Browser
use crypt_keeper_extension.RequestManager
use crypt_keeper_extension.Base
use crypt_keeper_extension.Lock
use crypt_keeper_extension.Approval
use crypt_keeper_extension.Connection
use crypt_keeper_extension.ZkIdentitySemaphore.{ZkIdentitySemaphore}
use crypt_keeper_extension.ZkProof.{prefixed}
use crypt_keeper_extension.Protocol.{answered}

pub record ConnectionData : Type 0 where
  pub is_approved : Bool
  pub is_connected : Bool
  pub can_skip_approve : Bool

wait_for_unlock : ℕ → LockStatus → M (Option Bool)
wait_for_unlock waiter status = if status.is_unlocked then pure none else (do
  Browser.open_popup default_page
  Base.await_unlock Base.locker waiter
  pure (some status.is_initialized))

-- `checkUnlockStatus` up to its first promise: `none` where the locker is unlocked, or else whether
-- the extension was initialized. The promise of `awaitUnlock` is named by a number.
unfoldable pub check_unlock_status : ℕ → M (Option Bool)
unfolding wait_for_unlock
check_unlock_status waiter = do status ← Lock.get_status; wait_for_unlock waiter status

-- The promise that is awaited after that of a service, if the extension was initialized.
abbrev pub next_service : Base.Service → Option Base.Service
next_service Base.locker = some Base.approval
next_service Base.approval = some Base.identity
next_service Base.identity = some Base.connection
next_service Base.connection = none

-- What runs when the promise of a service is resolved: the service that is awaited next, if any.
unfoldable pub service_unlocked : Base.Service → ℕ → M (Option Base.Service)
service_unlocked service waiter = elim (next_service service) [
  | some next ↦ (do Base.await_unlock next waiter; pure (some next))
  | none ↦ (do Browser.close_popup; pure none)
]

module _ (env : Env) where
  unfoldable pub get_connection_data : Option String → M ConnectionData
  get_connection_data url_origin = do
    origin ← or_throw (present url_origin) "CryptKeeper: Origin is not set"
    approved ← Approval.is_approved origin
    can_skip ← Approval.can_skip_approve origin
    identity ← Connection.get_connected_identity env (some origin)
    pure (record {
      is_approved = approved;
      is_connected = is_some identity;
      can_skip_approve = can_skip;
    })

  abbrev pub error_prefix : String
  error_prefix = "CryptKeeper: error in the connect request, "

  -- The end of `connect`: the host is added, and the user picks an identity.
  give_access : Bool → Bool → String → Bool → M Unit
  give_access is_change_identity is_connected origin can_skip = do
    Approval.add env (record { url_origin = origin; can_skip_approve = can_skip })
    when (not is_connected || is_change_identity) (Connection.connect_request (some origin))

  -- `urlOrigin!`, which `getConnectionData` has checked
  abbrev given : Option String → String
  given none = ""
  given (some origin) = origin

  ask_or_give : Bool → Option String → ConnectionData → M (Option String)
  unfolding give_access
  ask_or_give is_change_identity url_origin d =
      if d.is_approved
      then (do
        give_access is_change_identity d.is_connected (given url_origin) d.can_skip_approve
        pure none)
      else (do
        id ← RequestManager.new_request approve (origin_payload (given url_origin))
        pure (some id))

  begin_body : Bool → Option String → M (Bool × Option String)
  unfolding ask_or_give
  begin_body is_change_identity url_origin = do
    d ← get_connection_data url_origin
    waiting ← ask_or_give is_change_identity url_origin d
    pure (d.is_connected, waiting)

  -- `connect` after the unlocking, up to the user's answer: whether an identity was connected, and the
  -- id of the request that waits, if the host was not approved.
  unfoldable pub begin_connect : Bool → Option String → M (Bool × Option String)
  unfolding begin_body
  begin_connect is_change_identity url_origin = do
    answer ← attempt (begin_body is_change_identity url_origin)
    lift (prefixed error_prefix answer)

  end_body : Bool → Bool → Option String → Outcome → M Unit
  unfolding give_access
  end_body is_change_identity is_connected url_origin outcome = do
    response ← answered outcome
    can_skip ← or_throw response "Cannot destructure property 'canSkipApprove'"
    give_access is_change_identity is_connected (given url_origin) can_skip

  -- From the answer on.
  unfoldable pub end_connect : Bool → Bool → Option String → Outcome → M Unit
  unfolding end_body
  end_connect is_change_identity is_connected url_origin outcome = do
    answer ← attempt (end_body is_change_identity is_connected url_origin outcome)
    lift (prefixed error_prefix answer)

  -- `pick(connectedIdentity?.metadata, ["name"])`
  abbrev name_of : Option ZkIdentitySemaphore → Option String
  name_of none = none
  name_of (some z) = some z.metadata.name

  connected_name : Option String → ConnectionData → M (Option String)
  connected_name url_origin d =
      if not d.is_approved || not d.is_connected
      then pure none
      else (do identity ← Connection.get_connected_identity env url_origin; pure (name_of identity))

  unfoldable pub get_connected_identity_metadata : Option String → M (Option String)
  unfolding connected_name
  get_connected_identity_metadata url_origin = do
    d ← get_connection_data url_origin
    connected_name url_origin d
