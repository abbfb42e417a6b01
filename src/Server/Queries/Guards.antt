-- ===== src/Server/Queries/Guards.antt =====
-- What a request has to pass before anything is run.
use spark_db.Prelude.{
  ℕ, ◌≡◌, refl, ap, ◌∙◌, String, true, false, List, [], ◌∷◌, arith, Option, none, some, ◌⊎◌, inl,
  inr, Bool-cases, Option-cases, Result-cases, eq_iff, All, if◌then◌else◌,
}
use spark_db.Text.{Text, trim_space, is_empty}
use spark_db.Rbac.{Permission, role_readonly, perm_query, has_permission}
use spark_db.Query.Validator.{identify_type, required_permission, check_dangerous, danger_patterns}
use spark_db.Query.Validator.Shape.{canonical}
use spark_db.Query.Validator.Danger.{Blocked, check_dangerous_iff}
use spark_db.Auth.Authenticator.{AuthUser}
use spark_db.Database.Executor.{Engine, is_write_query, execute}
use spark_db.Database.System.ReplicationLog.{ReplicationTables, log_replication}
use spark_db.Database.Executor.Routing.{is_write_query_iff}
use spark_db.Database.Executor.Transactions.{statements}
use spark_db.Server.Queries.{
  State, QueryRequest, TransactionRequest, is_permitted, refusal, first_refusal, handle_query,
  handle_transaction, run_query_request, has_none, database_of, map_replication,
}

-- The statement holds no blocked pattern, and the user's role, if there is a user, has the permission
-- that its type needs, if it needs one.
pub record IsAllowed (user : Option AuthUser) (query : Text) : Type 0 where
  pub unblocked : ¬ (Blocked danger_patterns (canonical query))
  pub permitted : is_permitted user query ≡ true

refusal-none :
    (user : Option AuthUser) (query : Text)
    → refusal user query ≡ none
    → ((check_dangerous query).0 ≡ false) × (is_permitted user query ≡ true)
unfolding refusal
refusal-none user query h = elim (Bool-cases (check_dangerous query).0) [
  | inl e ↦ (let stuck : some _ ≡ none = rw (refusal, e) at h in cc)
  | inr e ↦ elim (Bool-cases (is_permitted user query)) [
    | inl p ↦ (e, p)
    | inr p ↦ (let stuck : some _ ≡ none = rw (refusal, e, p) at h in cc)
  ]
]

pub refusal-IsAllowed :
    (user : Option AuthUser) (query : Text) → refusal user query ≡ none → IsAllowed user query
refusal-IsAllowed user query h =
    let (clear, permitted) = refusal-none user query h in
    record {
      unblocked = λ b. (let e = (check_dangerous_iff query).1 b in cc);
      permitted = permitted;
    }

first_refusal-IsAllowed :
    (user : Option AuthUser) (queries : List Text)
    → first_refusal user queries ≡ none
    → All (IsAllowed user) (statements queries)
unfolding first_refusal
first_refusal-IsAllowed user [] h = tt
first_refusal-IsAllowed user (query ∷ queries) h = elim (Bool-cases (is_empty (trim_space query))) [
  | inl e ↦ rw e (first_refusal-IsAllowed user queries (rw e at h))
  | inr e ↦ elim (Option-cases (refusal user (trim_space query))) [
    | inl free ↦ rw e (
      refusal-IsAllowed user (trim_space query) free,
      first_refusal-IsAllowed user queries (rw (e, free) at h),
    )
    | inr (r, refused) ↦ (let stuck : some _ ≡ none = rw (e, refused) at h in cc)
  ]
]

readonly-query : (perm : Permission) → has_permission role_readonly perm ≡ true → perm ≡ perm_query
unfolding has_permission
readonly-query perm h = ground (arith, eq_iff perm perm_query, eq_iff perm_query perm)

-- A statement that a user of the role readonly has run is one that is not replicated, or of a type
-- that needs no permission.
pub readonly_reads :
    (u : AuthUser) (query : Text)
    → u.role ≡ role_readonly
    → IsAllowed (some u) query
    → (is_write_query query ≡ false) ⊎ (required_permission (identify_type query) ≡ none)
unfolding is_permitted
readonly_reads u query role a = elim (Option-cases (required_permission (identify_type query))) [
  | inl e ↦ inr e
  | inr (perm, e) ↦
      let may : has_permission role_readonly perm ≡ true =
        rw (is_permitted, e, role) at a.permitted in
      inl ((is_write_query_iff query).1 (e ∙ ap some (readonly-query perm may)))
]

module _ (eng : Engine) where
  -- Nothing but the audit log has changed.
  abbrev pub Untouched : State eng → State eng → Type 0
  Untouched s s' =
      (s'.databases ≡ s.databases) × (s'.replication ≡ s.replication) × (s'.mon ≡ s.mon)

  -- A query request is refused with status 400 or 403, and then nothing is run or logged for the
  -- replicas, or its statement holds no blocked pattern, and the user's role, if there is a user, has
  -- the permission that its type needs, if it needs one.
  pub handle_query_guard :
      (elapsed : ℕ) (user : Option AuthUser) (req : QueryRequest eng) (s : State eng)
      → ((((handle_query eng elapsed user (some req) s).0.status ≡ 400)
            ⊎ ((handle_query eng elapsed user (some req) s).0.status ≡ 403))
          × Untouched s (handle_query eng elapsed user (some req) s).1)
        ⊎ IsAllowed user req.query
  unfolding handle_query
  handle_query_guard elapsed user req s = elim (Option-cases (refusal user req.query)) [
    | inl free ↦ inr (refusal-IsAllowed user req.query free)
    | inr (r, refused) ↦ elim (Bool-cases (is_empty req.query)) [
      | inl e ↦ inl (rw e (inl refl, (refl, refl, refl)))
      | inr e ↦ inl (rw (e, refused) (inr refl, (refl, refl, refl)))
    ]
  ]

  -- A transaction request is refused with status 400 or 403, and then no statement is run or logged
  -- for the replicas, or every statement of it that is not blank holds no blocked pattern and is
  -- permitted to the user's role, if there is a user.
  pub handle_transaction_guard :
      (user : Option AuthUser) (req : TransactionRequest eng) (s : State eng)
      → ((((handle_transaction eng user (some req) s).0.status ≡ 400)
            ⊎ ((handle_transaction eng user (some req) s).0.status ≡ 403))
          × Untouched s (handle_transaction eng user (some req) s).1)
        ⊎ All (IsAllowed user) (statements req.queries)
  unfolding handle_transaction
  handle_transaction_guard user req s = elim (Option-cases (first_refusal user req.queries)) [
    | inl free ↦ inr (first_refusal-IsAllowed user req.queries free)
    | inr (r, refused) ↦ elim (Bool-cases (has_none eng req.queries)) [
      | inl e ↦ inl (rw e (inl refl, (refl, refl, refl)))
      | inr e ↦ inl (rw (e, refused) (inr refl, (refl, refl, refl)))
    ]
  ]

  -- the log after a statement that is run
  abbrev pub log_after : String → Text → Option ReplicationTables → Option ReplicationTables
  log_after name query none = none
  log_after name query (some t) =
      if is_write_query query then some (log_replication name query t).1 else some t

  logged_lem :
      (name : String) (query : Text) (s : State eng)
      → (if is_write_query query
          then map_replication eng (λ t. (log_replication name query t).1) s
          else s).replication
        ≡ log_after name query s.replication
  logged_lem name query s = elim (Bool-cases (is_write_query query)) [
    | inl w ↦ elim (Option-cases s.replication) [
      | inl e ↦ rw (e, w) refl
      | inr (t, e) ↦ rw (e, w) refl
    ]
    | inr w ↦ elim (Option-cases s.replication) [
      | inl e ↦ rw (e, w) refl
      | inr (t, e) ↦ rw (e, w) refl
    ]
  ]

  -- A query request that is not refused leaves its statement in the replication log, if it writes and
  -- there is one, whether the statement succeeds or fails.
  pub handle_query_log :
      (elapsed : ℕ) (user : Option AuthUser) (req : QueryRequest eng) (s : State eng)
      → is_empty req.query ≡ false
      → refusal user req.query ≡ none
      → (handle_query eng elapsed user (some req) s).1.replication
        ≡ log_after (database_of req.database) req.query s.replication
  unfolding handle_query run_query_request
  handle_query_log elapsed user req s given free =
      let name = database_of req.database in
      let done = execute eng elapsed req.query req.params (s.databases name) s.mon in
      rw (given, free)
        (elim (Result-cases done.0) [
          | inl (res, e) ↦ rw (run_query_request, e) (logged_lem name req.query s)
          | inr (failure, e) ↦ rw (run_query_request, e) (logged_lem name req.query s)
        ])
