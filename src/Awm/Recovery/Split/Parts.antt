-- ===== src/Awm/Recovery/Split/Parts.antt =====
-- One request for two managers: the user's part, the backup's part with the half that the user's
-- manager returned, and the whole.
use advanced_wallets.Base.{none, some}
use advanced_wallets.Js.{Value}
use advanced_wallets.Awm.Recovery.Request.{RecoveryRequest, user_key, backup_key}

abbrev pub user_part : RecoveryRequest → RecoveryRequest
user_part req = record req { key_to_sign = some user_key }

abbrev pub backup_part : RecoveryRequest → Value → RecoveryRequest
backup_part req half = record req { key_to_sign = some backup_key; half_signed_transaction = half }

abbrev pub both_parts : RecoveryRequest → RecoveryRequest
both_parts req = record req { key_to_sign = none }
