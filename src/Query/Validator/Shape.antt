-- ===== src/Query/Validator/Shape.antt =====
-- What the type of a statement does not depend on.
use spark_db.Prelude.{◌≡◌, ap, ◌∙◌, ◌++◌, none, some, arith, ◌↔◌, [], true}
use spark_db.Text.{Text, trim_space, to_upper, is_empty}
use spark_db.Text.Case.{
  IsBlank, to_upper_idem, trim_space-to_upper, trim_space-padded, trim_space_idem,
  trim_space-eq-nil_iff,
}
use spark_db.Query.Validator.{
  identify_type, type_of, check_dangerous, first_danger, danger_patterns, analyze, QueryMapping,
}

-- The text that the validator matches its patterns against.
abbrev pub canonical : Text → Text
canonical q = to_upper (trim_space q)

canonical-shape :
    (before q after : Text)
    → IsBlank before
    → IsBlank after
    → canonical (before ++ (to_upper q ++ after)) ≡ canonical q
canonical-shape before q after hb ha =
    ap to_upper (trim_space-padded before (to_upper q) after hb ha ∙ trim_space-to_upper q)
    ∙ to_upper_idem (trim_space q)

-- Neither letter case nor white space around a statement changes its type, or whether and why it
-- is blocked.
pub verdict-shape :
    (before q after : Text)
    → IsBlank before
    → IsBlank after
    → (identify_type (before ++ (to_upper q ++ after)) ≡ identify_type q)
      × (check_dangerous (before ++ (to_upper q ++ after)) ≡ check_dangerous q)
unfolding identify_type check_dangerous
verdict-shape before q after hb ha =
    let e = canonical-shape before q after hb ha in
    (ap type_of e, ap (first_danger danger_patterns) e)

identify_type-trim : (q : Text) → identify_type (trim_space q) ≡ identify_type q
unfolding identify_type
identify_type-trim q = ap (λ s. type_of (to_upper s)) (trim_space_idem q)

-- `analyze` reports the type that `identify_type` gives the untrimmed query, whenever it succeeds.
pub analyze-type :
    (q : Text) (m : QueryMapping) → analyze q ≡ some m → m.query_type ≡ identify_type q
unfolding analyze
analyze-type q m h = ground (arith, identify_type-trim q)

is_empty_iff : (s : Text) → (is_empty s ≡ true) ↔ (s ≡ [])
is_empty_iff s = ground arith

analyze-none_of : (q : Text) → (analyze q ≡ none) ↔ (is_empty (trim_space q) ≡ true)
unfolding analyze
analyze-none_of q = ground arith

-- `analyze` refuses exactly the queries that hold nothing but white space.
pub analyze-none_iff : (q : Text) → (analyze q ≡ none) ↔ IsBlank q
analyze-none_iff q = (
  λ h. (trim_space-eq-nil_iff q).0 ((is_empty_iff _).0 ((analyze-none_of q).0 h)),
  λ b. (analyze-none_of q).1 ((is_empty_iff _).1 ((trim_space-eq-nil_iff q).1 b)),
)
