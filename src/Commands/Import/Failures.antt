-- ===== src/Commands/Import/Failures.antt =====
-- What an import has sent when it fails.
use spark_db.Prelude.{
  String, ◌≡◌, refl, ap, ◌⊎◌, inl, inr, List, [], ◌∷◌, ◌++◌, Error, Result, ok, err, errorf,
  Result-cases,
}
use spark_db.Text.{Text}
use spark_db.Commands.Import.{Answer, accepted, send_all, import_sql}

module _ {C : Type 0} (send : Text → C → Answer × C) (label : String) where
  -- every statement is accepted in turn, from the first state to the last
  abbrev pub AllAccepted : List Text → C → C → Type 0
  AllAccepted [] c c' = c' ≡ c
  AllAccepted (s ∷ ss) c c' = (accepted label (send s c).0 ≡ ok tt) × AllAccepted ss (send s c).1 c'

  -- The first statement that is not accepted, with those before it. Those behind it are not sent.
  pub record FailsAt (stmts : List Text) (c : C) (result : Result (Unit {0}) × C) : Type 0 where
    pub before : List Text
    pub failing : Text
    pub behind : List Text
    pub between : C
    pub error : Error
    pub split : stmts ≡ before ++ failing ∷ behind
    pub accepts : AllAccepted before c between
    pub refuses : accepted label (send failing between).0 ≡ err error
    pub outcome : result ≡ (err error, (send failing between).1)

  FailsAt-cons :
      (s : Text) (ss : List Text) (c : C) (r : Result (Unit {0}) × C)
      → accepted label (send s c).0 ≡ ok tt
      → FailsAt ss (send s c).1 r
      → FailsAt (s ∷ ss) c r
  FailsAt-cons s ss c r e f = record {
    before = s ∷ f.before;
    failing = f.failing;
    behind = f.behind;
    between = f.between;
    error = f.error;
    split = ap (λ l. s ∷ l) f.split;
    accepts = (e, f.accepts);
    refuses = f.refuses;
    outcome = f.outcome;
  }

  pub send_all_outcome :
      (stmts : List Text) (c : C)
      → (((send_all send label stmts c).0 ≡ ok tt)
          × AllAccepted stmts c (send_all send label stmts c).1)
        ⊎ FailsAt stmts c (send_all send label stmts c)
  unfolding send_all
  send_all_outcome [] c = inl (refl, refl)
  send_all_outcome (s ∷ ss) c = elim (Result-cases (accepted label (send s c).0)) [
    | inl (u, e) ↦ elim (send_all_outcome ss (send s c).1) [
      | inl (done, all) ↦ inl (rw (e, send_all) (done, (refl, all)))
      | inr fails ↦ inr (rw (e, send_all) (FailsAt-cons s ss c _ e fails))
    ]
    | inr (f, e) ↦ inr (record {
      before = [];
      failing = s;
      behind = ss;
      between = c;
      error = f;
      split = refl;
      accepts = refl;
      refuses = e;
      outcome = rw (e, send_all) refl;
    })
  ]

module _ {C : Type 0} (send : Text → C → Answer × C) where
  -- importSQL fails without a statement when the file has none; else it sends the statements in turn
  -- up to the first that is refused, and fails with its error: those before it have been accepted and
  -- stay, and those behind it are not sent. It succeeds exactly when every statement is accepted.
  pub import_sql_outcome :
      (stmts : List Text) (c : C)
      → ((stmts ≡ []) × (import_sql send stmts c ≡ (err (errorf "no SQL statements found"), c)))
        ⊎ (((import_sql send stmts c).0 ≡ ok tt)
            × AllAccepted send "statement" stmts c (import_sql send stmts c).1)
        ⊎ FailsAt send "statement" stmts c (import_sql send stmts c)
  unfolding import_sql
  import_sql_outcome [] c = inl (refl, refl)
  import_sql_outcome (s ∷ ss) c = elim (send_all_outcome send "statement" (s ∷ ss) c) [
    | inl done ↦ inr (inl done)
    | inr fails ↦ inr (inr fails)
  ]
