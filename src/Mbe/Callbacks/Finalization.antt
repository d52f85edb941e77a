-- ===== src/Mbe/Callbacks/Finalization.antt =====
-- What has happened when an ECDSA key generation returns a key.
use advanced_wallets.Base.{List}
use advanced_wallets.Exec.{Call, World, Exec}
use advanced_wallets.Exec.Both.{Two}
use advanced_wallets.Mbe.AwmClient.{AwmClient}
use advanced_wallets.Mbe.Callbacks.Routing.{AsksStep}

module _ (w : World) (user_client backup_client : AwmClient) (t : List Call) where
  abbrev BothAsked : List Call → Type 0
  BothAsked u = Two (AsksStep user_client "user") (AsksStep backup_client "backup") t u
