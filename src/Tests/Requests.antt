-- ===== src/Tests/Requests.antt =====
-- A page asks while another request waits, and the user answers.
use crypt_keeper_extension.Prelude.{ℕ, String, ◌≡◌, refl, true, some, [], ◌∷◌}
use crypt_keeper_extension.Prelude.Text.{decimal}
use crypt_keeper_extension.Requests.{ResolutionAction, approve, origin_payload, accept}
use crypt_keeper_extension.State.{Ext, installed, default_page, set_pending_requests, settled}
use crypt_keeper_extension.Exec.{ok, after, result}
use crypt_keeper_extension.Browser.{open_popup}
use crypt_keeper_extension.RequestManager.Interleaving
use crypt_keeper_extension.RequestManager.Interleaving.{
  IsHeard, Moves, queues, listens, finalizes, opens_page, Moves-IsHeard,
}
use crypt_keeper_extension.RequestManager.{
  add_to_queue, register, new_request, finalize_request, outcome_of,
}
use crypt_keeper_extension.RequestManager.Queue.{Reach, here, next, requests}
use crypt_keeper_extension.RequestManager.Settling.{finalize_request-new_request}

abbrev asked : Ext
asked = after (new_request approve (origin_payload "https://a.org")) installed

abbrev asked_twice : Ext
asked_twice = after (new_request approve (origin_payload "https://b.org")) asked

asked-Reach : Reach installed asked
asked-Reach = next here (requests approve (origin_payload "https://a.org"))

abbrev answer : ResolutionAction
answer = record { id = decimal asked.nonce; status = accept; answer = some true }

settling_example :
    let t = asked_twice in
    let u = after (finalize_request answer) t in
    (result (new_request approve (origin_payload "https://b.org")) asked ≡ ok (decimal asked.nonce))
    × (u.pending_requests ≡ asked.pending_requests)
    × (u.waiters ≡ asked.waiters)
    × (u.effects
        ≡ set_pending_requests asked.pending_requests
          ∷ settled (decimal asked.nonce) (outcome_of answer accept)
          ∷ t.effects)
settling_example =
    finalize_request-new_request approve (origin_payload "https://b.org") accept (some true) asked
      asked-Reach

-- The popup is opened, two pages ask, and the user answers the first while the second does not listen.
abbrev opened_popup : Ext
opened_popup = after (open_popup default_page) installed

abbrev put_one : Ext
put_one = after (add_to_queue approve 1 (origin_payload "https://a.org")) opened_popup

abbrev put_two : Ext
put_two = after (add_to_queue approve 1 (origin_payload "https://b.org")) put_one

abbrev first_key : String × ℕ
first_key = (decimal opened_popup.nonce, 1)

abbrev second_key : String × ℕ
second_key = (decimal put_one.nonce, 1)

abbrev first_listens : Ext
first_listens = after (register first_key.0 first_key.1) put_two

moves_example : IsHeard (after (finalize_request answer) first_listens) (second_key ∷ [])
moves_example =
    Moves-IsHeard
      (Interleaving.next
        (Interleaving.next
          (Interleaving.next
            (Interleaving.next (Interleaving.next Interleaving.here (opens_page default_page))
              (queues approve 1 (origin_payload "https://a.org")))
            (queues approve 1 (origin_payload "https://b.org")))
          (listens (second_key ∷ []) [] first_key refl refl))
        (finalizes answer))
      (tt)
