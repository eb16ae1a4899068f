-- ===== src/Exec/Unmoved.antt =====
-- What the services' messages to the outside and the history leave alone: all but the operations,
-- the settings, the popup, the draws, the effects and the two keys of the history.
use crypt_keeper_extension.Prelude.{◌≡◌}
use crypt_keeper_extension.State.{Ext}

pub record Unmoved (s t : Ext) : Type 0 where
  pub secrets : t.secrets ≡ s.secrets
  pub locker : t.locker ≡ s.locker
  pub approval : t.approval ≡ s.approval
  pub identity : t.identity ≡ s.identity
  pub connection : t.connection ≡ s.connection
  pub identities : t.identities ≡ s.identities
  pub allowed_hosts : t.allowed_hosts ≡ s.allowed_hosts
  pub connections : t.connections ≡ s.connections
  pub stored_password : t.storage.password ≡ s.storage.password
  pub stored_mnemonic : t.storage.mnemonic ≡ s.storage.mnemonic
  pub stored_accounts : t.storage.accounts ≡ s.storage.accounts
  pub stored_approvals : t.storage.approvals ≡ s.storage.approvals
  pub stored_identities : t.storage.identities ≡ s.storage.identities
  pub stored_connections : t.storage.connections ≡ s.storage.connections
  pub stored_credentials : t.storage.credentials ≡ s.storage.credentials
  pub initialization : t.storage.initialization ≡ s.storage.initialization
