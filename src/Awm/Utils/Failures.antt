-- ===== src/Awm/Utils/Failures.antt =====
-- What a client of the application sees of a failure of the key provider.
use advanced_wallets.Base.{String, ◌≡◌, Bool, List, arith, str_eq, if◌then◌else◌}
use advanced_wallets.Js.{
  Value, undefined, prop, num, str, obj, end, ◌⨾◌, get, has, truthy, to_string,
}
use advanced_wallets.Exec.{Exn, Call, Result, ok, err, World, Exec, catch, throw, pure, run, ◌>>=◌}
use advanced_wallets.Exec.Laws.{run-catch, rescue, run-bind, continue}
use advanced_wallets.Shared.Types.{AppMode, AdvancedWalletManagerConfig}
use advanced_wallets.Shared.Response.{Sent, encoded, response_handler}
use advanced_wallets.Awm.Utils.{
  status_and_message, handlers_generate_data_key, handlers_decrypt_data_key,
  retrieve_key_provider_prv_key, build_backup_kms_config,
}
use advanced_wallets.Shared.HttpClient.{HttpClient}
use advanced_wallets.Awm.KeyProvider.{new_key_provider}

-- The body of a 500 response that says nothing of the failure.
abbrev pub opaque_failure : Sent
opaque_failure = encoded (num 500) (
    obj (
      ("error", str "Internal Server Error")
      ⨾ ("name", str "Error")
      ⨾ ("details", str "[object Object]")
      ⨾ ("stack", undefined)
      ⨾ end))

-- The object `{ status, message }` is no `Error`.
pub status_and_message-opaque :
    (mode : AppMode) (development : Bool) (message : String) (e : Exn)
    → response_handler mode development (err (status_and_message message e)) ≡ opaque_failure
unfolding response_handler status_and_message get has truthy to_string
status_and_message-opaque mode development message e = ground arith

module _ (mode : AppMode) (development : Bool) where
  -- What is thrown reaches the client as a response that says nothing of it.
  abbrev pub Opaque {ℓ} : {A : Type ℓ} → Result A → Type 0
  Opaque (ok a) = Unit
  Opaque (err e) = response_handler mode development (err e) ≡ opaque_failure

  rescued :
      (w : World) (message : String) (o : Result Value × List Call)
      → Opaque (rescue w (λ e. throw (status_and_message message e)) o).0
  unfolding run
  rescued w message (ok a, t) = tt
  rescued w message (err e, t) = status_and_message-opaque mode development message e

  wrapped :
      (w : World) (message : String) (m : Exec Value) (t : List Call)
      → Opaque (run w (catch m λ e. throw (status_and_message message e)) t).0
  wrapped w message m t =
      rw (run-catch w m (λ e. throw (status_and_message message e)) t)
        (rescued w message (run w m t))

  first_part :
      (w : World) (o : Result Value × List Call)
      → Opaque o.0
      → Opaque (continue w (λ res. pure (prop res "prv")) o).0
  unfolding run
  first_part w (ok res, t) h = tt
  first_part w (err e, t) h = h

  retrieved :
      (w : World) (message : String) (m : Exec Value) (t : List Call)
      → Opaque
          (run w
            (catch m (λ e. throw (status_and_message message e)) >>= λ res. pure (prop res "prv"))
            t).0
  retrieved w message m t =
      let h : Exec Value = catch m λ e. throw (status_and_message message e) in
      rw (run-bind w h (λ res. pure (prop res "prv")) t)
        (first_part w (run w h t) (wrapped w message m t))

-- Where the shared helpers of the handlers make or decrypt a data key, or fetch a private key of a
-- key provider whose client could be made: if that fails, for whatever reason, what is thrown on is
-- sent to the client as status 500 with the details "[object Object]", without the status and the
-- message of the failure. (Handlers that call the client of the key provider themselves are not
-- concerned.)
pub status_and_message_response :
    (mode : AppMode) (development : Bool) (w : World) (cfg : AdvancedWalletManagerConfig)
    (key_type encrypted_key pub_key source : String) (client : HttpClient) (t : List Call)
    → new_key_provider w (if str_eq source "backup" then build_backup_kms_config cfg else cfg)
      ≡ ok client
    → Opaque mode development (run w (handlers_generate_data_key w key_type cfg) t).0
      × Opaque mode development (run w (handlers_decrypt_data_key w encrypted_key cfg) t).0
      × Opaque mode development (run w (retrieve_key_provider_prv_key w pub_key source cfg) t).0
unfolding handlers_generate_data_key handlers_decrypt_data_key retrieve_key_provider_prv_key
status_and_message_response mode development w cfg key_type encrypted_key pub_key source client t
      made =
    (
      wrapped mode development w _ _ t,
      wrapped mode development w _ _ t,
      rw made (retrieved mode development w _ _ t),
    )
