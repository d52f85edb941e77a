-- ===== src/Awm/Mpc/KeyGen/Messages.antt =====
-- What the rounds and the last step of an ECDSA key generation pass to the library.
use advanced_wallets.Base.{String}
use advanced_wallets.Js.{Value, num, obj, end, ◌⨾◌, prop, arr, nil, cons}
use advanced_wallets.Exec.{Exn, type_error, make}
use advanced_wallets.Awm.Mpc.{party_of, object_values}

abbrev pub object_conversion : Exn
object_conversion = make type_error "TypeError" "Cannot convert undefined or null to object"

abbrev pub keys_of : Value → Value
keys_of state = arr (cons (prop state "bitgoGpgPub") (cons (prop state "counterPartyGpgPub") nil))

abbrev pub private_keys_of : Value → Value
private_keys_of state = arr (cons (prop state "sourceGpgPrv") nil)

abbrev pub dkg_args : String → Value → Value
dkg_args source session_data =
    arr (cons (num 3) (cons (num 2) (cons (num (party_of source)) (cons session_data nil))))

abbrev pub incoming_args : Value → Value → Value → Value
incoming_args p2p broadcast state = obj (
    ("p2pMessages", object_values p2p)
    ⨾ ("broadcastMessages", object_values broadcast)
    ⨾ ("pubs", keys_of state)
    ⨾ ("prvs", private_keys_of state)
    ⨾ end)
