-- ===== src/Entry/Saving.antt =====
-- After the mnemonic is saved, the extension is ready.
use crypt_keeper_extension.Prelude.{
  String, true, ◌≡◌, refl, ap, ◌∙◌, sym, subst, some, arith, Bool-cases, inl, inr,
}
use crypt_keeper_extension.State.{Ext}
use crypt_keeper_extension.Env.{Env}
use crypt_keeper_extension.Exec.{
  Result, M, ok, err, pure, ◌>>=◌, after, result, Result-cases, after-pure,
}
use crypt_keeper_extension.SimpleStorage
use crypt_keeper_extension.Misc
use crypt_keeper_extension.Lock
use crypt_keeper_extension.Wallet
use crypt_keeper_extension.Wallet.Ready.{
  IsOpen, IsComplete, Keeps-generate_key_pair, Keeps-generate_mnemonic, Gives-generate_key_pair,
}
use crypt_keeper_extension.Store.{Store, dispatch}
use crypt_keeper_extension.Store.Posting.{post_ok}
use crypt_keeper_extension.Store.Thunks.{post, generate_mnemonic, save_mnemonic}
use crypt_keeper_extension.Entry.{
  MnemonicForm, GenerateMode, generate, input, Outcome, went, is_mnemonic, given_first, saved_from,
  save_from, on_save_mnemonic,
}

-- The extension is set up and unlocked, and the popup shows it.
abbrev pub IsReady : Store → Ext → Type 0
IsReady store s =
    (Lock.get_status s ≡ (
      ok (record { is_initialized = true; is_unlocked = true; is_mnemonic_generated = true }),
      s,
    ))
    × (store.app.is_initialized ≡ true)
    × (store.app.is_unlocked ≡ true)
    × (store.app.is_mnemonic_generated ≡ true)

status_ready :
    (s : Ext)
    → IsOpen s
    → IsComplete s
    → Lock.get_status s
      ≡ (ok (record { is_initialized = true; is_unlocked = true; is_mnemonic_generated = true }), s)
unfolding Lock.get_status Misc.get_initialization SimpleStorage.get ◌>>=◌
status_ready s open_ complete = ground (arith, open_, complete)

after-post : {A : Type 0} (m : M A) (s : Ext) → after (post m) s ≡ after m s
unfolding post ◌>>=◌
after-post m s = elim (Result-cases (result m s)) [
  | inl (e, thrown) ↦ ground (arith, thrown)
  | inr (a, made) ↦ ground (arith, made)
]

module _ (env : Env) where
  save_mnemonic-IsReady :
      (store next : Store) (s : Ext)
      → IsOpen s
      → result (save_mnemonic env store) s ≡ ok (tt, next)
      → IsReady next (after (save_mnemonic env store) s)
  unfolding save_mnemonic dispatch
  save_mnemonic-IsReady store next s open_ made =
      let (u, got, e, state) = post_ok (Wallet.generate_key_pair env) _ s (tt, next) made in
      let t = after (Wallet.generate_key_pair env) s in
      let ready =
        status_ready t ((Keeps-generate_key_pair env).at s open_)
          ((Gives-generate_key_pair env).at s u got) in
      subst (IsReady next) (sym state) (
        ready,
        ap (λ (x : Unit × Store). x.1.app.is_initialized) e,
        ap (λ (x : Unit × Store). x.1.app.is_unlocked) e,
        ap (λ (x : Unit × Store). x.1.app.is_mnemonic_generated) e,
      )

  given_first-IsOpen :
      (mode : GenerateMode) (mnemonic : String) (store : Store) (s : Ext)
      → IsOpen s
      → IsOpen (after (given_first env mode mnemonic store) s)
  unfolding given_first generate_mnemonic pure
  given_first-IsOpen generate mnemonic store s open_ = open_
  given_first-IsOpen input mnemonic store s open_ =
      let m = Wallet.generate_mnemonic env (some mnemonic) in
      subst IsOpen (sym (after-pure (post m) _ s ∙ after-post m s))
        ((Keeps-generate_mnemonic env (some mnemonic)).at s open_)

  save_from-IsReady :
      (store next : Store) (r : Result (Unit × Store)) (s : Ext)
      → IsOpen s
      → result (save_from env store r) s ≡ ok (went "/home", next)
      → IsReady next (after (save_from env store r) s)
  unfolding save_from saved_from ◌>>=◌
  save_from-IsReady store next (err e) s open_ made = absurd (ground (arith, made))
  save_from-IsReady store next (ok (u, given)) s open_ made =
      elim (Result-cases (result (save_mnemonic env given) s)) [
        | inl (e, thrown) ↦ absurd (ground (arith, thrown, made))
        | inr (saved, done) ↦
            let same : saved.1 ≡ next = ground (arith, done, made) in
            subst (λ x. IsReady x (after (save_mnemonic env given) s)) same
              (save_mnemonic-IsReady given saved.1 s open_ done)
      ]

  -- From an unlocked extension, with a mnemonic that the user has typed or that was generated: where
  -- the form goes home, the installation is complete and the extension is unlocked, and the popup shows
  -- that it is.
  pub on_save_mnemonic-IsReady :
      (form : MnemonicForm) (store next : Store) (s : Ext)
      → IsOpen s
      → result (on_save_mnemonic env form store) s ≡ ok (went "/home", next)
      → IsReady next (after (on_save_mnemonic env form store) s)
  unfolding on_save_mnemonic ◌>>=◌
  on_save_mnemonic-IsReady form store next s open_ made =
      elim (Bool-cases (is_mnemonic env form.mnemonic)) [
        | inr bad ↦ absurd (ground (arith, bad, made))
        | inl good ↦
            let first = given_first env form.mode form.mnemonic store in
            let rest =
              save_from-IsReady store next (result first s) (after first s)
                (given_first-IsOpen form.mode form.mnemonic store s open_) in
            let run : on_save_mnemonic env form store s
                ≡ save_from env store (result first s) (after first s) =
              rw good refl in
            subst (λ x. IsReady next x.1) (sym run)
              (rest (ap (λ (x : Result (Outcome × Store) × Ext). x.0) (sym run) ∙ made))
      ]
