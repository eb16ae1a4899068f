-- ===== src/Provider/Promises.antt =====
-- Each answer settles the promise of its own request.
use crypt_keeper_extension.Prelude.{
  ℕ, ◌<◌, String, true, false, ◌||◌, ◌≡◌, refl, Option, none, some, List, [], ◌∷◌, eqb, present,
  is_some, arith, All, Option-cases, Bool-cases, inl, inr, ◌==◌, eq_refl, if◌then◌else◌,
}
use crypt_keeper_extension.Prelude.Text.{decimal}
use crypt_keeper_extension.Prelude.Decimal.{decimal-injective}
use crypt_keeper_extension.JsMap
use crypt_keeper_extension.JsMap.{JsMap}
use crypt_keeper_extension.JsMap.Laws.{IsMap, get-set, get-delete, set-IsMap, delete-IsMap}
use crypt_keeper_extension.Handler.{Request}
use crypt_keeper_extension.Provider.{
  EmitterApi, number, nonce_text, Reply, WindowMessage, to_content_script, to_injected_script,
  to_other, Settlement, resolved, rejected, Provider, settlement, settle, is_event, new_handler, on,
  emit, clean_listeners, request, answer, event_responser,
}
use crypt_keeper_extension.Provider.Settled.{
  IsAsked, All-get, decimal_apart, settlement-settle, settlement-settle_open, All-set, All-delete,
  settlement_of,
}

module _ {E P : Type 0} where
  -- Each request that was made waits in the map or is settled, and no other does or is.
  pub record IsSound (p : Provider E P) : Type 0 where
    pub is_map : IsMap p.requests_promises
    pub asked : All (IsAsked p.nonce) p.requests_promises
    pub kept :
        (k : ℕ)
        → k < p.nonce
        → (is_some (JsMap.get (decimal k) p.requests_promises) || is_some (settlement k p.settled))
          ≡ true
    pub made : (k : ℕ) → is_some (settlement k p.settled) ≡ true → k < p.nonce

  made_by :
      (key : String) (id k : ℕ) (how : Settlement P) (p : Provider E P)
      → IsSound p
      → JsMap.get key p.requests_promises ≡ some id
      → is_some (settlement k (settle id how p.settled)) ≡ true
      → k < p.nonce
  made_by key id k how p h there known =
      let (_, lower) = All-get (IsAsked p.nonce) key p.requests_promises id h.asked there in
      elim (Bool-cases (eqb id k)) [
        | inl same ↦ let e : id ≡ k = ground (arith, same) in rw (← e) lower
        | inr other ↦ h.made k (ground (arith, other, known, settlement-settle id k how p.settled))
      ]

  -- The next request is not settled yet.
  pub unsettled_next : (p : Provider E P) → IsSound p → settlement p.nonce p.settled ≡ none
  unsettled_next p h = elim (Option-cases (settlement p.nonce p.settled)) [
    | inl unsettled ↦ unsettled
    | inr (how, known) ↦
        let lower : p.nonce < p.nonce = h.made p.nonce (ground (arith, known)) in
        absurd (omega arith)
  ]

  module _ (api : EmitterApi E) where
    answer-IsSound :
        (key : String) (found : Option ℕ) (error : Option String) (value : Option P)
        (p : Provider E P)
        → JsMap.get key p.requests_promises ≡ found
        → IsSound p
        → IsSound (answer api found error value key p)
    unfolding answer
    answer-IsSound key none error value p there h = h
    answer-IsSound key (some id) (some e) value p there h = record {
      is_map = h.is_map;
      asked = h.asked;
      kept =
          λ k lower. ground (arith, h.kept k lower, settlement-settle id k (rejected e) p.settled);
      made = λ k known. made_by key id k (rejected e) p h there known;
    }
    answer-IsSound key (some id) none value p there h = record {
      is_map = delete-IsMap key p.requests_promises h.is_map;
      asked = All-delete p.nonce key p.requests_promises h.asked;
      kept = λ k lower.
          let (named, _) = All-get (IsAsked p.nonce) key p.requests_promises id h.asked there in
          elim (Bool-cases (eqb id k)) [
            | inl same ↦ ground (arith, same, settlement-settle id k (resolved value) p.settled)
            | inr other ↦
                let apart : (key == decimal k) ≡ false = rw named (decimal_apart id k other) in
                ground (
                  arith,
                  apart,
                  h.kept k lower,
                  get-delete key (decimal k) p.requests_promises h.is_map,
                  settlement-settle id k (resolved value) p.settled,
                )
          ];
      made = λ k known. made_by key id k (resolved value) p h there known;
    }

    responser-IsSound :
        (message : WindowMessage P) (p : Provider E P)
        → IsSound p
        → IsSound (event_responser api message p)
    unfolding event_responser emit
    responser-IsSound (to_content_script message nonce) p h = h
    responser-IsSound to_other p h = h
    responser-IsSound (to_injected_script reply nonce) p h = elim (Bool-cases (is_event nonce)) [
      | inl event ↦
          rw event (record { is_map = h.is_map; asked = h.asked; kept = h.kept; made = h.made })
      | inr answered ↦ rw answered (
          answer-IsSound (nonce_text nonce) (JsMap.get (nonce_text nonce) p.requests_promises)
            (present reply.error) reply.value p refl h)
    ]

    pub request-IsSound :
        (message : Request P) (p : Provider E P) → IsSound p → IsSound (request api message p).1
    unfolding request
    request-IsSound message p h = record {
      is_map = set-IsMap (decimal p.nonce) p.nonce p.requests_promises h.is_map;
      asked = All-set p.nonce p.requests_promises h.asked;
      kept = λ k lower. elim (Bool-cases (eqb p.nonce k)) [
        | inl same ↦
            let e : p.nonce ≡ k = ground (arith, same) in
            ground (
              arith,
              e,
              get-set (decimal p.nonce) (decimal k) p.nonce p.requests_promises,
              eq_refl (decimal p.nonce),
            )
        | inr other ↦ ground (
          arith,
          decimal_apart p.nonce k other,
          get-set (decimal p.nonce) (decimal k) p.nonce p.requests_promises,
          h.kept k (ground (arith, other, lower)),
        )
      ];
      made = λ k known. omega (arith, h.made k known);
    }

-- What happens to a provider: a request of the page, a message of the window, a listener that is
-- added, an event that the page emits, all listeners taken off.
pub data Step (P : Type 0) : Type 0 where
  requests : Request P → Step P
  hears : WindowMessage P → Step P
  listens : String → ℕ → Step P
  emits : String → Option P → Step P
  cleans : Step P

module _ {E P : Type 0} (api : EmitterApi E) where
  abbrev pub step : Step P → Provider E P → Provider E P
  step (requests message) p = (request api message p).1
  step (hears message) p = event_responser api message p
  step (listens event listener) p = on api event listener p
  step (emits event payload) p = emit api event payload p
  step cleans p = clean_listeners api p

  abbrev pub steps : List (Step P) → Provider E P → Provider E P
  steps [] p = p
  steps (x ∷ xs) p = steps xs (step x p)

  step-IsSound : (x : Step P) (p : Provider E P) → IsSound p → IsSound (step x p)
  unfolding on emit clean_listeners
  step-IsSound (requests message) p h = request-IsSound api message p h
  step-IsSound (hears message) p h = responser-IsSound api message p h
  step-IsSound (listens event listener) p h = record {
    is_map = h.is_map;
    asked = h.asked;
    kept = h.kept;
    made = h.made;
  }
  step-IsSound (emits event payload) p h = record {
    is_map = h.is_map;
    asked = h.asked;
    kept = h.kept;
    made = h.made;
  }
  step-IsSound cleans p h = record {
    is_map = h.is_map;
    asked = h.asked;
    kept = h.kept;
    made = h.made;
  }

  -- Whatever happens to a provider, in whatever order: each request that was made still waits in the
  -- map, under its number, or is settled, if that held before; no request is lost and none is known
  -- that was not made.
  pub steps-IsSound : (xs : List (Step P)) (p : Provider E P) → IsSound p → IsSound (steps xs p)
  steps-IsSound [] p h = h
  steps-IsSound (x ∷ xs) p h = steps-IsSound xs (step x p) (step-IsSound x p h)

  pub new_handler-IsSound : (origin : Option String) → IsSound {P = P} (new_handler api origin)
  unfolding new_handler settlement
  new_handler-IsSound origin = record {
    is_map = tt;
    asked = tt;
    kept = λ k lower. absurd (omega arith);
    made = λ k known. absurd (ground (arith, known));
  }

  -- An answer with the number of a request that was made and is not settled settles the promise of
  -- that request, by its error if it has one and otherwise by its result, and no other promise.
  pub answer_settles :
      (k j : ℕ) (reply : Reply P) (p : Provider E P)
      → IsSound p
      → k < p.nonce
      → settlement k p.settled ≡ none
      → let q = event_responser api (to_injected_script reply (number k)) p in
        settlement j q.settled
        ≡ (if eqb k j then some (settlement_of reply) else settlement j p.settled)
  unfolding event_responser answer is_event
  answer_settles k j reply p h lower unsettled =
      elim (Option-cases (JsMap.get (decimal k) p.requests_promises)) [
        | inl missing ↦ absurd (ground (arith, missing, h.kept k lower, unsettled))
        | inr (id, there) ↦
            let (named, _) =
              All-get (IsAsked p.nonce) (decimal k) p.requests_promises id h.asked there in
            let same : k ≡ id = decimal-injective k id named in
            elim (Option-cases (present reply.error)) [
              | inl fine ↦
                  rw (there, fine, ← same)
                    (settlement-settle_open k j (resolved reply.value) p.settled unsettled)
              | inr (e, failed) ↦
                  rw (there, failed, ← same)
                    (settlement-settle_open k j (rejected e) p.settled unsettled)
            ]
      ]
