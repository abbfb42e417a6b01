-- ===== src/Client.antt =====
-- internal/client/client.go. The HTTP exchange is the parameter `Wire`, with the readers of JSON: a
-- request is given to `send` with the path after the base URL, its headers and what its body encodes,
-- and comes back as the bytes of the response's body; the client does not look at the status.
pub mod Access
mod Tests
use spark_db.Prelude.{
  ℕ, String, Bool, true, false, not, List, [], ◌∷◌, ◌++◌, Error, errorf, wrapf, Result, ok, err,
  wrap, ◌>>=◌, str_eq, if◌then◌else◌,
}
use spark_db.Text.{Text, codes, is_empty}
use spark_db.Disk.{Bytes}

-- A value of JSON as `interface{}`: a number is given by its form under fmt.Sprint, and so are arrays
-- and objects.
pub data Value : Type 0 where
  null : Value
  number : Text → Value
  boolean : Bool → Value
  text : Text → Value
  composite : Text → Value

pub record QueryResponse : Type 0 where
  pub columns : List Text
  pub rows : List (List Value)
  pub error : String
  pub time : Text

pub record TransactionResponse : Type 0 where
  pub results : List QueryResponse
  pub error : String

pub data Payload : Type 0 where
  empty_payload : Payload
  login_payload : Text → Text → Payload
  query_payload : Text → Text → List Value → Payload
  transaction_payload : Text → List Text → Payload

-- empty where a header is not set
pub record Headers : Type 0 where
  pub authorization : Text
  pub api_key : Text

pub record Wire (N : Type 0) : Type 0 where
  pub send : String → String → Headers → Payload → N → Result Bytes × N
  -- the token and the error
  pub decode_login : Bytes → Result (Text × String)
  pub decode_query : Bytes → Result QueryResponse
  pub decode_transaction : Bytes → Result TransactionResponse
  -- the names and the error
  pub decode_databases : Bytes → Result (List Text × String)

pub record Client : Type 0 where
  pub token : Text
  pub api_key : Text

unfoldable pub new : Client
new = record { token = []; api_key = [] }

unfoldable pub set_api_key : Text → Client → Client
set_api_key key c = record c { api_key = key }

abbrev pub no_headers : Headers
no_headers = record { authorization = []; api_key = [] }

-- what `auth` sets on a request
unfoldable pub auth : Client → Headers
auth c =
    if not (is_empty c.token)
    then record { authorization = codes "Bearer " ++ c.token; api_key = [] }
    else if not (is_empty c.api_key)
    then record { authorization = []; api_key = c.api_key }
    else no_headers

-- the token of a login's response
abbrev pub token_of : Text × String → Result Text
token_of (token, error) =
    if not (str_eq error "")
    then err (errorf error)
    else if is_empty token
    then err (errorf "login failed")
    else ok token

abbrev pub databases_of : List Text × String → Result (List Text)
databases_of (names, error) = if not (str_eq error "") then err (errorf error) else ok names

module _ {N : Type 0} (wire : Wire N) where
  abbrev pub logged_in : Client → Result Text → Result (Unit {0}) × Client
  logged_in c (ok token) = (ok tt, record c { token = token })
  logged_in c (err e) = (err e, c)

  unfoldable pub login : Text → Text → Client → N → (Result (Unit {0}) × Client) × N
  login username password c n =
      let (answer, n') =
        wire.send "POST" "/auth/login" no_headers (login_payload username password) n in
      (
        logged_in c (
            wrap "connect" answer >>= λ bytes.
            wrap "decode" (wire.decode_login bytes) >>= token_of),
        n',
      )

  unfoldable pub query : Text → Text → List Value → Client → N → Result QueryResponse × N
  query database statement params c n =
      let (answer, n') =
        wire.send "POST" "/query" (auth c) (query_payload statement database params) n in
      (wrap "request" answer >>= λ bytes. wrap "decode" (wire.decode_query bytes), n')

  unfoldable pub query_raw : Text → Text → Client → N → Result Bytes × N
  query_raw database statement c n =
      let (answer, n') =
        wire.send "POST" "/query" (auth c) (query_payload statement database []) n in
      (wrap "request" answer, n')

  unfoldable pub transaction : Text → List Text → Client → N → Result TransactionResponse × N
  transaction database queries c n =
      let (answer, n') =
        wire.send "POST" "/transaction" (auth c) (transaction_payload database queries) n in
      (wrap "request" answer >>= λ bytes. wrap "decode" (wire.decode_transaction bytes), n')

  unfoldable pub list_databases : Client → N → Result (List Text) × N
  list_databases c n =
      let (answer, n') = wire.send "GET" "/databases" (auth c) empty_payload n in
      (
        wrap "request" answer >>= λ bytes.
            wrap "decode" (wire.decode_databases bytes) >>= databases_of,
        n',
      )
