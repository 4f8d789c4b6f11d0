-- ===== src/Build/Makefile/Tests.antt =====
-- Short makefiles. The text stands at address 1.
use bin_tools.Base.{
  update, ℕ, zero, suc, ◌+◌, ◌<◌, List, [], ◌∷◌, get_or, ◌==◌, if◌then◌else◌, ◌≡◌, refl, arith,
  true, false,
}
use bin_tools.Build.Makefile.Line.{assigned, is_text, is_name, parse_makefile-assignment}
use bin_tools.Build.Makefile.Rules.{
  IsSkipped, head_read, parse_makefile-head, parse_makefile-comment, is_plain, forgotten,
}
use bin_tools.Build.Makefile.Valid.{IsValid, is_context, are_counted, parse_makefile-IsValid}
use bin_tools.Build.Makefile.{
  Conf, no_kind, set_var, set_rule, context_none, context_rule_sep, do_context_none,
  do_context_comment, do_context_read_now, start_var, do_context_sep, do_context_rule_cmd,
  store_cmd, change_last, do_context_rule_deps, do_context_variable, store_var, eval_target,
  store_or_crash, is_null_used, assign_recursive, context_crashed, is_implicit, skip_spaces,
  parse_byte, parse_makefile,
}

abbrev unresolved : (ℕ → ℕ) → ℕ → ℕ
unresolved mem s = 0

abbrev at_one : List ℕ → ℕ → ℕ
at_one text zero = 0
at_one text (suc i) = get_or text i 0

abbrev loaded : List ℕ → Conf
loaded text = record {
  mem = at_one text;
  str = 0;
  a_var = record { name = 0; value = 0; kind = no_kind };
  rules = [];
  trims = [];
  sets = [];
}

-- `CC=gc`
abbrev assignment_line : List ℕ
assignment_line = b'C' ∷ b'C' ∷ b'=' ∷ b'g' ∷ b'c' ∷ 0x0a ∷ []

assignment_line-name :
    (i : ℕ) → i < 1 → is_name unresolved (at_one assignment_line (1 + 1 + i)) ≡ true
assignment_line-name zero lt = refl
assignment_line-name (suc i) lt = absurd (omega arith)

assignment_line-text :
    (i : ℕ) → i < 2 → is_text unresolved (at_one assignment_line (1 + 1 + 1 + 1 + i)) ≡ true
assignment_line-text zero lt = refl
assignment_line-text (suc zero) lt = refl
assignment_line-text (suc (suc i)) lt = absurd (omega arith)

parse_makefile-assignment_example :
    parse_makefile unresolved (context_none, loaded assignment_line) 1 6
    ≡ (context_none, assigned unresolved (loaded assignment_line) 1 1 2)
parse_makefile-assignment_example =
    parse_makefile-assignment unresolved (loaded assignment_line) 1 1 2 (record {
      not_null = λ e. absurd (omega (arith, e));
      start = refl;
      name = assignment_line-name;
      equals = refl;
      text = assignment_line-text;
      stop = refl;
    })

-- `a: b`
abbrev head_line : List ℕ
head_line = b'a' ∷ b':' ∷ 0x20 ∷ b'b' ∷ 0x0a ∷ []

head_line-name : (i : ℕ) → i < 0 → is_name unresolved (at_one head_line (1 + 1 + i)) ≡ true
head_line-name i lt = absurd (omega arith)

head_line-text : (i : ℕ) → i < 2 → (at_one head_line (1 + 1 + 0 + 1 + i) == 0x0a) ≡ false
head_line-text zero lt = refl
head_line-text (suc zero) lt = refl
head_line-text (suc (suc i)) lt = absurd (omega arith)

parse_makefile-head_example :
    (d : ℕ) × IsSkipped (update (loaded head_line).mem 2 0) 3 2 d
    × (parse_makefile unresolved (context_none, loaded head_line) 1 5
        ≡ (context_rule_sep, head_read unresolved (loaded head_line) 1 2 2 d))
parse_makefile-head_example = parse_makefile-head unresolved (loaded head_line) 1 0 2 (record {
  start = refl;
  name = head_line-name;
  colon = refl;
  no_equals = refl;
  text = head_line-text;
  stop = refl;
})

-- `#x`
abbrev comment_line : List ℕ
comment_line = b'#' ∷ b'x' ∷ 0x0a ∷ []

-- The comment behind a variable with the name at 9.
abbrev after_variable : Conf
after_variable = record (loaded comment_line) {
  a_var = record { name = 9; value = 12; kind = assign_recursive };
}

parse_makefile-comment_example : parse_makefile unresolved (context_none, after_variable) 1 3 ≡ (
    if ◌==◌ after_variable.a_var.name 0
    then (context_crashed, after_variable)
    else (context_none, forgotten unresolved after_variable 3))
unfolding is_plain
parse_makefile-comment_example =
    parse_makefile-comment unresolved after_variable 1 0
      (record {
        sign = refl;
        more = λ e. absurd (omega (arith, e));
        text = λ i lt. absurd (omega arith);
        stop = refl;
      })
      refl refl

-- Without a variable the same line ends the process.
comment_first :
    (parse_makefile unresolved (context_none, loaded comment_line) 1 3).0 ≡ context_crashed
unfolding parse_makefile parse_byte do_context_none do_context_comment do_context_variable
    store_or_crash is_null_used
comment_first = refl

loaded-IsValid : (text : List ℕ) → IsValid (context_none, loaded text)
unfolding is_context are_counted
loaded-IsValid text = record { known = refl; counted = refl }

parse_makefile-IsValid_example :
    IsValid (parse_makefile unresolved (context_none, loaded head_line) 1 5)
parse_makefile-IsValid_example =
    parse_makefile-IsValid unresolved (context_none, loaded head_line) 1 5
      (loaded-IsValid head_line)

-- `a: b`, a command and a variable.
abbrev small_makefile : List ℕ
small_makefile =
    b'a' ∷ b':' ∷ 0x20 ∷ b'b' ∷ 0x0a ∷ 0x09 ∷ b'c' ∷ 0x0a ∷ b'V' ∷ b'=' ∷ b'w' ∷ 0x0a ∷ []

small_makefile-rules :
    (parse_makefile unresolved (context_none, loaded small_makefile) 1 12).1.rules
    ≡ record { target = 1; deps = 4; cmd = 7 ∷ []; num_cmd = 1 } ∷ []
unfolding parse_makefile parse_byte do_context_none do_context_comment do_context_read_now start_var
    do_context_sep do_context_rule_cmd store_cmd change_last do_context_rule_deps
    do_context_variable store_or_crash is_null_used store_var eval_target is_implicit skip_spaces
small_makefile-rules = refl

small_makefile-sets :
    (parse_makefile unresolved (context_none, loaded small_makefile) 1 12).1.sets
    ≡ set_rule 1 0 ∷ set_var 9 11 ∷ []
unfolding parse_makefile parse_byte do_context_none do_context_comment do_context_read_now start_var
    do_context_sep do_context_rule_cmd store_cmd change_last do_context_rule_deps
    do_context_variable store_or_crash is_null_used store_var eval_target is_implicit skip_spaces
small_makefile-sets = refl
