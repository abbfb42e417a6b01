-- ===== src/Client/Access.antt =====
-- As whom the server sees a client that has logged in.
use spark_db.Prelude.{ℕ, ◌+◌, ◌<◌, ◌≡◌, refl, false, [], ok}
use spark_db.Text.{Text, is_empty}
use spark_db.Disk.{Bytes}
use spark_db.Database.System.{SystemDb}
use spark_db.Auth.Authenticator.{
  Services, Authenticator, LoginRequest, LoginResponse, authenticate_request,
}
use spark_db.Auth.Authenticator as Auth
use spark_db.Auth.Authenticator.Tokens.{SignsTokens, bearer, login_token}
use spark_db.Client.{Client, Wire, login_payload, no_headers, auth, login}

auth-token :
    (c : Client)
    → is_empty c.token ≡ false
    → auth c ≡ record { authorization = bearer c.token; api_key = [] }
unfolding auth
auth-token c h = rw h refl

login_lem :
    {N : Type 0} (wire : Wire N) (username password : Text) (c : Client) (n : N) (bytes : Bytes)
    (token : Text)
    → (wire.send "POST" "/auth/login" no_headers (login_payload username password) n).0 ≡ ok bytes
    → wire.decode_login bytes ≡ ok (token, "")
    → is_empty token ≡ false
    → (login wire username password c n).0 ≡ (ok tt, record c { token = token })
unfolding login
login_lem wire username password c n bytes token sent decoded filled =
    rw (sent, decoded, filled) refl

module _ (s : Services) (law : SignsTokens s) {N : Type 0} (wire : Wire N) where
  -- Where the server's login accepts a request and its answer reaches the client and decodes to the
  -- token, Login of the client succeeds, and the headers of the client's later requests authenticate
  -- the user of that login until the token expires, whether or not the client has an API key and
  -- whatever has become of the system database. A token is not empty.
  pub login-authenticates :
      (now later : ℕ) (req : LoginRequest) (a : Authenticator) (res : LoginResponse) (db : SystemDb)
      (username : Text) (c : Client) (n : N) (bytes : Bytes)
      → (Auth.login s now req a).0 ≡ ok res
      → later < now + a.duration
      → (wire.send "POST" "/auth/login" no_headers (login_payload username req.password) n).0
        ≡ ok bytes
      → wire.decode_login bytes ≡ ok (res.token, "")
      → is_empty res.token ≡ false
      → let (r, c') = (login wire username req.password c n).0 in
        (r ≡ ok tt)
        × (authenticate_request s later
              (auth c').api_key
              (auth c').authorization
              (record a { system_db = db })
            ≡ ok res.user)
  login-authenticates now later req a res db username c n bytes h lt sent decoded filled =
      let c' = record c { token = res.token } in
      let its = auth-token c' filled in
      rw (login_lem wire username req.password c n bytes res.token sent decoded filled, its)
        (refl, login_token s law now later req a res db h lt)
