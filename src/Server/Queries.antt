-- ===== src/Server/Queries.antt =====
-- internal/server/routes.go: HandleQuery and HandleTransaction. A body that does not decode is the
-- request `none`. `user` is the user of the request's context, and `elapsed` the time that a query
-- takes. Statements of a log are sent to the system database without failure.
pub mod Guards
mod Tests
use Prim.Native.String
use spark_db.Prelude.{
  ℕ, String, Bool, true, false, not, ◌&&◌, List, [], ◌∷◌, ◌++◌, Option, none, some, Error, errorf,
  Result, ok, err, str_eq, if◌then◌else◌,
}
use spark_db.Text.{Text, codes, trim_space, is_empty}
use spark_db.Rbac.{has_permission}
use spark_db.Query.Validator.{type_name, identify_type, required_permission, check_dangerous}
use spark_db.Monitor.{Monitor}
use spark_db.Auth.Authenticator.{AuthUser}
use spark_db.Database.System.ReplicationLog.{ReplicationTables, log_replication}
use spark_db.Database.Executor.{
  Engine, QueryResponse, TransactionResponse, is_write_query, execute, execute_transaction,
}

-- what is handed to `LogAudit`, less the address of the request
pub record AuditEntry : Type 0 where
  pub user_id : Option ℕ
  pub username : String
  pub query : Text
  pub endpoint : String
  pub status : String

pub data Body (Value : Type 0) : Type 0 where
  error_body : Error → Body Value
  query_body : QueryResponse Value → Body Value
  transaction_body : TransactionResponse Value → Body Value

pub record Response (Value : Type 0) : Type 0 where
  pub status : ℕ
  pub body : Body Value

abbrev pub user_id_of : Option AuthUser → Option ℕ
user_id_of none = none
user_id_of (some u) = some u.id

abbrev pub username_of : Option AuthUser → String
username_of none = "anonymous"
username_of (some u) = u.username

-- the entry that `logAudit` makes
abbrev pub audit_entry : Option AuthUser → Text → String → String → AuditEntry
audit_entry user query endpoint status = record {
  user_id = user_id_of user;
  username = username_of user;
  query = query;
  endpoint = endpoint;
  status = status;
}

-- `!ok || user == nil || HasPermission(role, perm)`
unfoldable pub is_permitted : Option AuthUser → Text → Bool
is_permitted none query = true
is_permitted (some u) query = elim (required_permission (identify_type query)) [
  | none ↦ true
  | some perm ↦ has_permission u.role perm
]

abbrev pub role_of : Option AuthUser → String
role_of none = ""
role_of (some u) = u.role

abbrev pub denied : Option AuthUser → Text → Error
denied user query = errorf (
    String.◌++◌ "role '" (
      String.◌++◌ (role_of user) (
        String.◌++◌ "' does not have permission for "
          (String.◌++◌ (type_name (identify_type query)) " queries"))))

-- A statement that is not run: the endpoint of the audit entry, and the answer's error.
unfoldable pub refusal : Option AuthUser → Text → Option (String × Error)
refusal user query =
    let (blocked, reason) = check_dangerous query in
    if blocked
    then some ("dangerous_query", errorf reason)
    else if is_permitted user query
    then none
    else some ("permission_denied", denied user query)

-- the first statement of a batch that is refused; blank statements are not looked at
unfoldable pub first_refusal : Option AuthUser → List Text → Option (Text × String × Error)
first_refusal user [] = none
first_refusal user (query ∷ queries) =
    let q = trim_space query in
    let rest = first_refusal user queries in
    if is_empty q then rest else elim (refusal user q) [ none ↦ rest | some r ↦ some (q, r.0, r.1) ]

abbrev pub database_of : String → String
database_of name = if str_eq name "" then "main" else name

-- the entries that a batch leaves in the replication log
unfoldable pub log_queries : String → List Text → ReplicationTables → ReplicationTables
log_queries name [] t = t
log_queries name (query ∷ queries) t =
    let q = trim_space query in
    if is_empty q
    then log_queries name queries t
    else if is_write_query q
    then log_queries name queries (log_replication name q t).1
    else log_queries name queries t

module _ (eng : Engine) where
  pub record QueryRequest : Type 0 where
    pub query : Text
    pub database : String
    pub params : List eng.Value

  pub record TransactionRequest : Type 0 where
    pub queries : List Text
    pub database : String

  -- The databases by name, as `Manager.Open` answers, the replication log where there is an engine for
  -- it, the monitor, and the audit entries so far.
  pub record State : Type 0 where
    pub databases : String → Result eng.Db
    pub replication : Option ReplicationTables
    pub mon : Option Monitor
    pub audit : List AuditEntry

  abbrev pub logged : Option AuthUser → Text → String → String → State → State
  logged user query endpoint status s = record s {
    audit = s.audit ++ audit_entry user query endpoint status ∷ [];
  }

  abbrev pub set_database : String → Result eng.Db → State → State
  set_database name db s = record s { databases = λ n. if str_eq n name then db else s.databases n }

  abbrev pub map_replication : (ReplicationTables → ReplicationTables) → State → State
  map_replication f s = record s {
    replication = elim s.replication [ none ↦ none | some t ↦ some (f t) ];
  }

  abbrev pub error_answer : ℕ → Error → Response eng.Value
  error_answer status e = record { status = status; body = Body.error_body e }

  -- the end of the handler: the statement is run
  unfoldable pub run_query_request :
      ℕ → Option AuthUser → QueryRequest → State → Response eng.Value × State
  run_query_request elapsed user req s =
      let name = database_of req.database in
      let logged_write =
        if is_write_query req.query
        then map_replication (λ t. (log_replication name req.query t).1) s
        else s in
      let (r, db, mon) = execute eng elapsed req.query req.params (s.databases name) s.mon in
      let ran = record (set_database name db logged_write) { mon = mon } in
      elim r [
        | err e ↦ (error_answer 500 e, logged user req.query "query_error" "failed" ran)
        | ok res ↦ (
          record { status = 200; body = Body.query_body res },
          logged user req.query "/query" "success" ran,
        )
      ]

  unfoldable pub handle_query :
      ℕ → Option AuthUser → Option QueryRequest → State → Response eng.Value × State
  handle_query elapsed user none s = (error_answer 400 (errorf "invalid request body"), s)
  handle_query elapsed user (some req) s =
      if is_empty req.query
      then (error_answer 400 (errorf "query is required"), s)
      else elim (refusal user req.query) [
        | some r ↦ (error_answer 403 r.1, logged user req.query r.0 "blocked" s)
        | none ↦ run_query_request elapsed user req s
      ]

  -- strings.Join(queries, "; ")
  abbrev pub joined : List Text → Text
  joined [] = []
  joined (q ∷ []) = q
  joined (q ∷ r ∷ queries) = q ++ (codes "; " ++ joined (r ∷ queries))

  -- the end of the handler: the batch is run
  unfoldable pub run_transaction_request :
      Option AuthUser → TransactionRequest → State → Response eng.Value × State
  run_transaction_request user req s =
      let name = database_of req.database in
      let logged_writes = map_replication (log_queries name req.queries) s in
      let (r, db) = execute_transaction eng req.queries (s.databases name) in
      let ran = set_database name db logged_writes in
      elim r [
        | err e ↦ (error_answer 500 e, logged user (joined req.queries) "tx_error" "failed" ran)
        | ok res ↦ (
          record { status = 200; body = Body.transaction_body res },
          logged user (joined req.queries) "/transaction" "success" ran,
        )
      ]

  abbrev pub has_none : List Text → Bool
  has_none [] = true
  has_none (q ∷ queries) = false

  unfoldable pub handle_transaction :
      Option AuthUser → Option TransactionRequest → State → Response eng.Value × State
  handle_transaction user none s = (error_answer 400 (errorf "invalid request body"), s)
  handle_transaction user (some req) s =
      if has_none req.queries
      then (error_answer 400 (errorf "queries are required"), s)
      else elim (first_refusal user req.queries) [
        | some (q, endpoint, e) ↦
            (error_answer 403 e, logged user q (String.◌++◌ endpoint "_tx") "blocked" s)
        | none ↦ run_transaction_request user req s
      ]
