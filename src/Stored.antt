-- ===== src/Stored.antt =====
-- What a service would load from its key in storage: the entries of the text that is encrypted under
-- the mnemonic. Nothing stored counts as an empty map.
use crypt_keeper_extension.Prelude.{
  ℕ, String, ◌≡◌, Option, none, some, [], present, truthy, true, List, arith,
}
use crypt_keeper_extension.Prelude.Codec.{Codec, IsCodec}
use crypt_keeper_extension.JsMap
use crypt_keeper_extension.JsMap.{JsMap}
use crypt_keeper_extension.JsMap.Laws.{IsMap, of_entries_of_IsMap}
use crypt_keeper_extension.Env.{Env, Laws}

module _ {V : Type 0} (env : Env) (c : Codec (List (String × V))) where
  abbrev entries_of : Option String → Option (JsMap V)
  entries_of none = none
  entries_of (some plain) = elim (c.parse plain) [
    | none ↦ none
    | some entries ↦ some (JsMap.of_entries entries)
  ]

  -- The map that is stored under a key.
  abbrev pub stored : String → Option String → Option (JsMap V)
  stored key none = some []
  stored key (some ciphertext) = entries_of (env.aes_decrypt ciphertext key)

  -- The memory of a service and its key in storage agree: the mnemonic is there, and loading the key
  -- with it would give the map in memory again, entry by entry.
  pub record IsMirror (mnemonic : Option String) (text : Option String) (m : JsMap V) : Type 0 where
    pub key : String
    pub held : mnemonic ≡ some key
    pub key_truthy : truthy key ≡ true
    pub is_map : IsMap m
    pub loads : stored key (present text) ≡ some m

  -- The text that a service writes for a map loads as that map.
  pub stored-encrypt :
      Laws env
      → IsCodec c
      → (n : ℕ) (key : String) (m : JsMap V) → IsMap m
      → stored key (present (some (env.aes_encrypt n (c.stringify m) key))) ≡ some m
  stored-encrypt laws codec n key m h = ground (
    arith,
    laws.encrypt_truthy n (c.stringify m) key,
    laws.decrypt_encrypt n (c.stringify m) key,
    codec m,
    of_entries_of_IsMap m h,
  )
