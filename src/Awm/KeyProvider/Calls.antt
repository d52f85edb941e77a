-- ===== src/Awm/KeyProvider/Calls.antt =====
-- The calls that the client of the key provider makes.
use advanced_wallets.Base.{String, Bool, ◌<>◌}
use advanced_wallets.Js.{Value, str, obj, end, ◌⨾◌, undefined}
use advanced_wallets.Exec.{Call, http, Request, World, throw}
use advanced_wallets.Exec.Only.{Only, returns, asks, Only-catch, Only-if, only_rules}
use advanced_wallets.Shared.HttpClient.{
  HttpClient, call, get_call, post_call, request, error_handler,
}
use advanced_wallets.Awm.KeyProvider.{
  parse_body, get_key, sign, post_key, generate_key, generate_data_key, decrypt_data_key,
}

-- `GET /key/{pub}?source={source}`
unfoldable pub get_key_call : HttpClient → String → String → Call
unfolding request
get_key_call client pub_key source = http (
    request client "get" (client.url <> "/key/" <> pub_key) (obj (("source", str source) ⨾ end))
      undefined end)

-- `POST {path}`
unfoldable pub post_to : HttpClient → String → Value → Call
unfolding request
post_to client path params = http (request client "post" (client.url <> path) undefined params end)

module _ {P : Call → Type 0} where
  pub Only-call : (client : HttpClient) (r : Request) → P (http r) → Only P (call client r)
  unfolding call
  Only-call client r p =
      Only-catch _ (λ e. throw (error_handler client.class_name e)) (asks (http r) _ p returns)
        λ e. returns _

  Only-parse_body :
      (w : World) (schema : Value → Bool) (doing : String) (response : Value)
      → Only P (parse_body w schema doing response)
  unfolding parse_body
  Only-parse_body w schema doing response = Only-if (schema _) _ _ (λ _. returns _) (λ _. returns _)

  pub Only-get_key :
      (w : World) (client : HttpClient) (pub_key source : String)
      → P (get_key_call client pub_key source)
      → Only P (get_key w client pub_key source)
  unfolding get_key get_call get_key_call
  Only-get_key w client pub_key source p = search (only_rules, Only-call, Only-parse_body)

  pub Only-sign :
      (w : World) (client : HttpClient) (params : Value)
      → P (post_to client "/sign" params)
      → Only P (sign w client params)
  unfolding sign post_call post_to
  Only-sign w client params p = search (only_rules, Only-call, Only-parse_body)

  pub Only-generate_key :
      (w : World) (client : HttpClient) (params : Value)
      → P (post_to client "/key/generate" params)
      → Only P (generate_key w client params)
  unfolding generate_key post_call post_to
  Only-generate_key w client params p = search (only_rules, Only-call, Only-parse_body)

  pub Only-post_key :
      (w : World) (client : HttpClient) (params : Value)
      → P (post_to client "/key" params)
      → Only P (post_key w client params)
  unfolding post_key post_call post_to
  Only-post_key w client params p = search (only_rules, Only-call, Only-parse_body)

  pub Only-generate_data_key :
      (w : World) (client : HttpClient) (params : Value)
      → P (post_to client "/generateDataKey" params)
      → Only P (generate_data_key w client params)
  unfolding generate_data_key post_call post_to
  Only-generate_data_key w client params p = search (only_rules, Only-call, Only-parse_body)

  pub Only-decrypt_data_key :
      (w : World) (client : HttpClient) (params : Value)
      → P (post_to client "/decryptDataKey" params)
      → Only P (decrypt_data_key w client params)
  unfolding decrypt_data_key post_call post_to
  Only-decrypt_data_key w client params p = search (only_rules, Only-call, Only-parse_body)
