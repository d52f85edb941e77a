-- ===== src/Shared/Middleware.antt =====
-- src/shared/middleware.ts: the SDK object that is made for a request. The headers are those of the
-- request, with names in lower case.
use advanced_wallets.Base.{
  String, ◌≡◌, refl, Option, none, some, List, [], ◌∷◌, ◌<>◌, str_eq, if◌then◌else◌,
}
use advanced_wallets.Js.{Value, undefined, str, obj, end, ◌⨾◌, prop, get, truthy, text, optional}
use advanced_wallets.Js.Texts.{to_lower_case, split_spaces}
use advanced_wallets.Shared.Types.{MasterExpressConfig}

-- The token of `Bearer <token>`.
unfoldable pub bearer_token : List String → Value
bearer_token (scheme ∷ token ∷ []) =
    if str_eq (to_lower_case scheme) "bearer" then str token else undefined
bearer_token _ = undefined

unfoldable pub access_token : Value → Value
access_token headers =
    if truthy (prop headers "authorization")
    then bearer_token (split_spaces (text (prop headers "authorization")))
    else undefined

-- `process.env.npm_package_version` is the first argument, as the text that it is written as.
abbrev user_agent : String → Value → String
user_agent version headers =
    let own = "BitGoExpress/" <> version in
    if truthy (prop headers "user-agent")
    then own <> " " <> text (prop headers "user-agent")
    else own

-- The parameters of `new BitGo(…)`: those of the master application hold the token of the request.
unfoldable pub bitgo_constructor_params : String → Option MasterExpressConfig → Value → Value
bitgo_constructor_params version none headers =
    obj (("userAgent", str (user_agent version headers)) ⨾ end)
bitgo_constructor_params version (some config) headers = obj (
    ("userAgent", str (user_agent version headers))
    ⨾ ("env", str config.env)
    ⨾ ("customRootURI", optional config.custom_root_uri)
    ⨾ ("accessToken", access_token headers)
    ⨾ end)

bearer_example : access_token (obj (("authorization", str "Bearer v2x") ⨾ end)) ≡ str "v2x"
unfolding access_token bearer_token split_spaces to_lower_case truthy get
bearer_example = refl
