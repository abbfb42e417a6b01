-- ===== src/Commands/Shell/Statements.antt =====
-- Which statements the lines of the shell's input make.
use spark_db.Prelude.{
  ◌≡◌, refl, ap, ◌∙◌, Bool, true, false, not, ◌&&◌, List, [], ◌∷◌, ◌++◌, append_assoc, All,
}
use spark_db.Text.{Text, codes, is_space, trim_space, has_prefix, is_empty}
use spark_db.Client.{Client, Wire}
use spark_db.Commands.Shell.{
  Shell, trim_suffix_of, execute_query, run_buffer, is_complete, finish_input, next_line,
  shell_loop,
}
use spark_db.Commands.Shell.Buffer.{
  IsTrimmed, last_is, no_space, is_semicolon, last_is-append, trim_space-trimmed, trim_space-spaced,
  IsTrimmed-append, has_suffix-last, trim_suffix_of-append, has_prefix-to_upper, has_prefix-append,
}

-- A statement as it is typed: its first line and the others.
abbrev pub Typed : Type 0
Typed = Text × List Text

-- the lines of the input: a semicolon ends the last
abbrev pub typed : Text → List Text → List Text
typed line [] = (line ++ b';' ∷ []) ∷ []
typed line (l ∷ rest) = line ∷ typed l rest

abbrev pub input : List Typed → List Text
input [] = []
input ((line, rest) ∷ stmts) = typed line rest ++ input stmts

-- the statement: the lines with one space between them
abbrev pub statement : Text → List Text → Text
statement line [] = line
statement line (l ∷ rest) = line ++ b' ' ∷ statement l rest

abbrev pub statements : List Typed → List Text
statements [] = []
statements ((line, rest) ∷ stmts) = statement line rest ∷ statements stmts

-- a line that does not end a statement, without spaces round it
pub record IsOpen (l : Text) : Type 0 where
  pub trimmed : IsTrimmed l
  pub unended : last_is is_semicolon l ≡ false

-- a statement of such lines that is no meta-command
pub record IsStatement (t : Typed) : Type 0 where
  pub first : IsOpen t.0
  pub others : All IsOpen t.1
  pub no_meta : has_prefix t.0 (codes "\\") ≡ false

trimmed-filled : (t : Text) → IsTrimmed t → is_empty t ≡ false
trimmed-filled [] h = let bad : false ≡ true = h.first in cc
trimmed-filled (c ∷ t) h = refl

semicolon_no_space : no_space b';' ≡ true
unfolding is_space
semicolon_no_space = refl

IsTrimmed-semicolon : (t : Text) → IsTrimmed t → IsTrimmed (t ++ b';' ∷ [])
IsTrimmed-semicolon [] h = let bad : false ≡ true = h.first in cc
IsTrimmed-semicolon (c ∷ t) h = record {
  first = h.first;
  last = last_is-append no_space (c ∷ t) b';' [] ∙ semicolon_no_space;
}

ended_as : (b l : Text) → IsOpen l → last_is is_semicolon (b ++ b' ' ∷ l) ≡ false
ended_as b [] h = let bad : false ≡ true = h.trimmed.first in cc
ended_as b (d ∷ l) h = last_is-append is_semicolon b b' ' (d ∷ l) ∙ h.unended

module _ {N : Type 0} (wire : Wire N) (c : Client) where
  module _ (buf l t : Text) (continuation : Bool) (sh : Shell N)
      (open_line : not continuation && has_prefix l (codes "\\") ≡ false)
      (no_meta : has_prefix t (codes "\\") ≡ false) where
    -- a line that does not end the statement
    next_line-more :
        IsTrimmed t
        → last_is is_semicolon t ≡ false
        → buf ++ (l ++ codes " ") ≡ t ++ codes " "
        → next_line wire c l buf continuation sh ≡ (false, t ++ codes " ", true, sh)
    unfolding next_line
    next_line-more trimmed unended e =
        let incomplete : is_complete t ≡ false =
          rw (has_suffix-last t, unended, has_prefix-to_upper t no_meta) refl in
        rw (open_line, e, trim_space-spaced t trimmed, incomplete) refl

    -- the line that ends it
    next_line-last :
        IsTrimmed t
        → buf ++ (l ++ codes " ") ≡ (t ++ codes ";") ++ codes " "
        → next_line wire c l buf continuation sh
          ≡ ((execute_query wire c t sh).0, [], false, (execute_query wire c t sh).1)
    unfolding next_line
    next_line-last trimmed e =
        let ended = t ++ codes ";" in
        let complete : is_complete ended ≡ true =
          rw (has_suffix-last ended, last_is-append is_semicolon t b';' []) refl in
        let its : trim_space (trim_suffix_of b';' ended) ≡ t =
          rw (trim_suffix_of-append t) (trim_space-trimmed t trimmed) in
        let run : run_buffer wire c t sh ≡ execute_query wire c t sh =
          rw (trimmed-filled t trimmed, no_meta) refl in
        rw
          (
            open_line,
            e,
            trim_space-spaced ended (IsTrimmed-semicolon t trimmed),
            complete,
            its,
            run,
          )
          refl

  abbrev then_loop : List Text → Bool × Shell N → Bool × Shell N
  then_loop lines (ended, sh) = elim ended [
    | true ↦ (true, sh)
    | false ↦ shell_loop wire c lines [] false sh
  ]

  shell_loop-step :
      (raw : Text) (lines : List Text) (buf l : Text) (continuation : Bool) (sh : Shell N)
      (next : Bool × Text × Bool × Shell N)
      → trim_space raw ≡ l
      → next_line wire c l buf continuation sh ≡ next
      → shell_loop wire c (raw ∷ lines) buf continuation sh ≡ (elim next.0 [
        | true ↦ (true, next.3)
        | false ↦ shell_loop wire c lines next.1 next.2 next.3
      ])
  unfolding shell_loop
  shell_loop-step raw lines buf l continuation sh next e step =
      let F = λ (x : Bool × Text × Bool × Shell N). elim x.0 as (λ b. Bool × Shell N) [
        | true ↦ (true, x.3)
        | false ↦ shell_loop wire c lines x.1 x.2 x.3
      ] in
      ap (λ line. F (next_line wire c line buf continuation sh)) e ∙ ap F step

  raw_last : (l : Text) → IsOpen l → trim_space (l ++ codes ";") ≡ l ++ codes ";"
  raw_last l h = trim_space-trimmed (l ++ codes ";") (IsTrimmed-semicolon l h.trimmed)

  -- the lines of a statement after its first ones, which are `b`
  loop-rest :
      (lines : List Text) (b l : Text) (rest : List Text) (sh : Shell N)
      → IsTrimmed b
      → has_prefix b (codes "\\") ≡ false
      → IsOpen l
      → All IsOpen rest
      → shell_loop wire c (typed l rest ++ lines) (b ++ codes " ") true sh
        ≡ then_loop lines (execute_query wire c (b ++ b' ' ∷ statement l rest) sh)
  loop-rest lines b l [] sh trimmed no_meta h hs =
      let t = b ++ b' ' ∷ l in
      let both = IsTrimmed-append b l trimmed h.trimmed in
      let kept : has_prefix t (codes "\\") ≡ false =
        has_prefix-append b (b' ' ∷ l) (trimmed-filled b trimmed) ∙ no_meta in
      shell_loop-step (l ++ codes ";") lines (b ++ codes " ") (l ++ codes ";") true sh _
        (raw_last l h)
        (next_line-last (b ++ codes " ") (l ++ codes ";") t true sh refl kept both
          (simp append_assoc))
  loop-rest lines b l (l' ∷ rest) sh trimmed no_meta h hs =
      let t = b ++ b' ' ∷ l in
      let both = IsTrimmed-append b l trimmed h.trimmed in
      let kept : has_prefix t (codes "\\") ≡ false =
        has_prefix-append b (b' ' ∷ l) (trimmed-filled b trimmed) ∙ no_meta in
      let unended : last_is is_semicolon t ≡ false = ended_as b l h in
      shell_loop-step l (typed l' rest ++ lines) (b ++ codes " ") l true sh _
        (trim_space-trimmed l h.trimmed)
        (next_line-more (b ++ codes " ") l t true sh refl kept both unended (simp append_assoc))
      ∙ loop-rest lines t l' rest sh both kept hs.0 hs.1
      ∙ ap (λ q. then_loop lines (execute_query wire c q sh))
          (append_assoc b (b' ' ∷ l) (b' ' ∷ statement l' rest))

  loop-statement :
      (lines : List Text) (l : Text) (rest : List Text) (sh : Shell N)
      → IsStatement (l, rest)
      → shell_loop wire c (typed l rest ++ lines) [] false sh
        ≡ then_loop lines (execute_query wire c (statement l rest) sh)
  loop-statement lines l [] sh h =
      let filled = has_prefix-append l (codes ";") (trimmed-filled l h.first.trimmed) in
      shell_loop-step (l ++ codes ";") lines [] (l ++ codes ";") false sh _ (raw_last l h.first) (
        next_line-last [] (l ++ codes ";") l false sh (filled ∙ h.no_meta) h.no_meta h.first.trimmed
          refl)
  loop-statement lines l (l' ∷ rest) sh h =
      shell_loop-step l (typed l' rest ++ lines) [] l false sh _
        (trim_space-trimmed l h.first.trimmed)
        (next_line-more [] l l false sh h.no_meta h.no_meta h.first.trimmed h.first.unended refl)
      ∙ loop-rest lines l l' rest sh h.first.trimmed h.no_meta h.others.0 h.others.1

  -- executeQuery on statements in turn, until the process ends
  abbrev pub execute_all : List Text → Shell N → Bool × Shell N
  execute_all [] sh = (false, sh)
  execute_all (q ∷ qs) sh =
      let (ended, sh') = execute_query wire c q sh in
      elim ended [ true ↦ (true, sh') | false ↦ execute_all qs sh' ]

  finish_input-empty : (sh : Shell N) → finish_input wire c [] sh ≡ (false, sh)
  unfolding finish_input trim_space
  finish_input-empty sh = refl

  then_loop-eq :
      (lines : List Text) (f : Shell N → Bool × Shell N)
      → ((sh : Shell N) → shell_loop wire c lines [] false sh ≡ f sh)
      → (r : Bool × Shell N) → then_loop lines r ≡ (elim r.0 [ true ↦ (true, r.1) | false ↦ f r.1 ])
  then_loop-eq lines f h (true, sh) = refl
  then_loop-eq lines f h (false, sh) = h sh

  -- Statements that are typed one after the other, each on one or more lines and ended by a semicolon,
  -- are run in turn, each once and whole, until the process ends: its lines with one space between
  -- them, without the semicolon. The lines have no spaces round them and no other semicolon at their
  -- end, and no statement begins with a backslash.
  pub shell_loop-input :
      (stmts : List Typed) (sh : Shell N)
      → All IsStatement stmts
      → shell_loop wire c (input stmts) [] false sh ≡ execute_all (statements stmts) sh
  unfolding shell_loop
  shell_loop-input [] sh h = finish_input-empty sh
  shell_loop-input ((l, rest) ∷ stmts) sh h =
      loop-statement (input stmts) l rest sh h.0
      ∙ then_loop-eq (input stmts) (λ sh'. execute_all (statements stmts) sh')
          (λ sh'. shell_loop-input stmts sh' h.1) (execute_query wire c (statement l rest) sh)
