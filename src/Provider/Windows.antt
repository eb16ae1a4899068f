-- ===== src/Provider/Windows.antt =====
-- The providers of one window hear the same messages.
use crypt_keeper_extension.Prelude.{
  ℕ, ◌<◌, ◌≡◌, refl, true, ◌∙◌, none, some, List, [], ◌∷◌, map, All, eqb, arith,
}
use crypt_keeper_extension.Provider.{
  EmitterApi, Provider, Window, Reply, to_injected_script, number, settlement, event_responser,
  receive,
}
use crypt_keeper_extension.Provider.Settled.{settlement_of}
use crypt_keeper_extension.Provider.Promises.{IsSound, answer_settles}

module _ {E P : Type 0} (api : EmitterApi E) (k : ℕ) (reply : Reply P) where
  -- The request with the number waits.
  abbrev pub IsWaiting : Provider E P → Type 0
  IsWaiting p = IsSound p × (k < p.nonce) × (settlement k p.settled ≡ none)

  abbrev pub IsAnswered : Provider E P → Type 0
  IsAnswered p = settlement k p.settled ≡ some (settlement_of reply)

  all-IsAnswered :
      (ps : List (Provider E P))
      → All IsWaiting ps
      → All IsAnswered (map (event_responser api (to_injected_script reply (number k))) ps)
  all-IsAnswered [] h = tt
  all-IsAnswered (p ∷ ps) ((sound, lower, unsettled), h) =
      let same : eqb k k ≡ true = ground arith in
      (answer_settles api k k reply p sound lower unsettled ∙ rw same refl, all-IsAnswered ps h)

  -- Where several providers of one window wait for their request of one number, the answer to any of
  -- these requests settles them all in the same way.
  pub receive_settles_all :
      (w : Window E P)
      → All IsWaiting w.providers
      → All IsAnswered (receive api (to_injected_script reply (number k)) w).providers
  unfolding receive
  receive_settles_all w h = all-IsAnswered w.providers h
