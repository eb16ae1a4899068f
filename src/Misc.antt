-- ===== src/Misc.antt =====
-- services/misc: how far the installation has come, and the connection to an external wallet.
use crypt_keeper_extension.Prelude.{Bool, Option, none, some}
use crypt_keeper_extension.Types
use crypt_keeper_extension.Types.{InitializationStep}
use crypt_keeper_extension.Exec.{M, gets, modify}

-- `res?.initializationStep ?? InitializationStep.NEW`
abbrev pub step_or_new : Option InitializationStep → InitializationStep
step_or_new none = Types.new
step_or_new (some step) = step

unfoldable pub get_initialization : M InitializationStep
get_initialization = gets (λ s. step_or_new s.storage.initialization)

unfoldable pub set_initialization : InitializationStep → M Unit
set_initialization step =
    modify (λ s. record s { storage = record s.storage { initialization = some step } })

unfoldable pub set_external_wallet_connection : Bool → M Unit
set_external_wallet_connection disconnected =
    modify (λ s. record s { storage = record s.storage { external_wallet = some disconnected } })

unfoldable pub get_external_wallet_connection : M (Option Bool)
get_external_wallet_connection = gets (λ s. s.storage.external_wallet)
