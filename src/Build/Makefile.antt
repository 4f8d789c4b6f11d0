-- ===== src/Build/Makefile.antt =====
-- The parser of core/build/parse_makefile.c, one handler for each context.
-- The text lies in memory and a pointer is an address; 0 is a null pointer. The parser ends its
-- strings by storing zeros in the text. The variable that is being read always has the same slot,
-- since `vars.num` never changes, and the rule that is being read is the last one. The calls of
-- `__z__std__hash_set` are kept in their order. Logging is left out.
-- `resolve_vars` of core/build/variable.c is a parameter: it gives the address of a string, or 0.
pub mod Valid
pub mod Line
pub mod Rules
mod Tests
use bin_tools.Base.{
  ℕ, zero, suc, ◌+◌, ◌-◌, Bool, true, false, ◌&&◌, ◌||◌, not, List, [], ◌∷◌, ◌++◌, u8, leb, ltb,
  ◌==◌, if◌then◌else◌, update,
}

abbrev pub context_none : ℕ
context_none = 0x0

abbrev pub context_rule_cmd : ℕ
context_rule_cmd = 0x1

abbrev pub context_rule_deps : ℕ
context_rule_deps = 0x2

abbrev pub context_variable : ℕ
context_variable = 0x4

abbrev pub context_read_now : ℕ
context_read_now = 0x8

abbrev pub context_rule_sep : ℕ
context_rule_sep = 0x10

abbrev pub context_comment : ℕ
context_comment = 0x20

-- The process has ended at a null pointer; no byte is read after that.
abbrev pub context_crashed : ℕ
context_crashed = 0x100

-- The kinds of a variable; a slot that was never written has kind 0.
pub data VarKind : Type 0 where
  no_kind : VarKind
  assign_immediate : VarKind
  assign_recursive : VarKind
  assign_recursive_allow_non_defined : VarKind
  assign_add : VarKind

pub record Var : Type 0 where
  pub name : ℕ
  pub value : ℕ
  pub kind : VarKind

pub record Rule : Type 0 where
  pub target : ℕ
  pub deps : ℕ
  pub cmd : List ℕ
  pub num_cmd : ℕ

pub record ImplicitTrimLen : Type 0 where
  pub begin : ℕ
  pub end : ℕ

-- A call of `hash_set`: a variable with its value, or a rule by its target and its number.
pub data HashSet : Type 0 where
  set_var : (key value : ℕ) → HashSet
  add_var : (key value : ℕ) → HashSet
  set_rule : (key number : ℕ) → HashSet

pub record Conf : Type 0 where
  pub mem : ℕ → ℕ
  pub str : ℕ
  pub a_var : Var
  pub rules : List Rule
  pub trims : List ImplicitTrimLen
  pub sets : List HashSet

abbrev pub set_str : Conf → ℕ → Conf
set_str c s = record {
  mem = c.mem;
  str = s;
  a_var = c.a_var;
  rules = c.rules;
  trims = c.trims;
  sets = c.sets;
}

-- `*p = v`
abbrev pub poke : Conf → ℕ → ℕ → Conf
poke c p v = record {
  mem = update c.mem p v;
  str = c.str;
  a_var = c.a_var;
  rules = c.rules;
  trims = c.trims;
  sets = c.sets;
}

abbrev pub assign : Conf → Var → Conf
assign c v = record {
  mem = c.mem;
  str = c.str;
  a_var = v;
  rules = c.rules;
  trims = c.trims;
  sets = c.sets;
}

abbrev pub with_rules : Conf → List Rule → Conf
with_rules c rs = record {
  mem = c.mem;
  str = c.str;
  a_var = c.a_var;
  rules = rs;
  trims = c.trims;
  sets = c.sets;
}

abbrev pub with_trims : Conf → List ImplicitTrimLen → Conf
with_trims c ts = record {
  mem = c.mem;
  str = c.str;
  a_var = c.a_var;
  rules = c.rules;
  trims = ts;
  sets = c.sets;
}

abbrev pub call_hash_set : Conf → HashSet → Conf
call_hash_set c s = record {
  mem = c.mem;
  str = c.str;
  a_var = c.a_var;
  rules = c.rules;
  trims = c.trims;
  sets = c.sets ++ s ∷ [];
}

-- `0x21 <= *p && *p <= 0x7e`
abbrev pub is_printable : ℕ → Bool
is_printable x = leb 0x21 x && leb x 0x7e

-- Each handler gives the next context. `context` is the current one.
unfoldable pub do_context_none : ℕ → Conf → ℕ → ℕ × Conf
do_context_none context c p =
    let x = c.mem p in
    if x == b'#'
    then (context_comment, c)
    else if x == b':'
    then (context_none, c)
    else if x == b';'
    then (context_none, c)
    else if x == b'='
    then (context_none, c)
    else if is_printable x
    then (context_read_now, set_str c p)
    else (context, c)

unfoldable pub do_context_comment : Conf → ℕ → ℕ × Conf
do_context_comment c p = if c.mem p == 0x0a then (context_none, c) else (context_variable, c)

-- The first `%` of `n` bytes, counted from 1 on 8 bits.
unfoldable pub is_implicit : (ℕ → ℕ) → (s n i : ℕ) → ℕ
is_implicit mem s zero i = 0
is_implicit mem s (suc n) i =
    let rest = is_implicit mem (s + 1) n (u8 (i + 1)) in if mem s == b'%' then i else rest

unfoldable pub eval_target : Conf → ℕ → Conf
eval_target c p =
    let i = is_implicit c.mem c.str (p - c.str) 1 in
    with_trims c (
      if i == 0
      then c.trims
      else c.trims ++ record { begin = i - 1; end = u8 (p - c.str - i) } ∷ [])

-- The string that was read is the name of a variable, and its value begins at `str`.
unfoldable pub start_var : Conf → ℕ → VarKind → ℕ → ℕ × Conf
start_var c p kind str = (
  context_variable,
  set_str (assign (poke c p 0) (record { name = c.str; value = c.a_var.value; kind = kind })) str,
)

unfoldable pub do_context_read_now : Conf → ℕ → ℕ × Conf
do_context_read_now c p =
    let x = c.mem p in
    let before_equals = c.mem (p + 1) == b'=' in
    if x == b'+'
    then (if before_equals then start_var c p assign_add (p + 2) else (context_none, c))
    else if x == b':'
    then (if before_equals
        then start_var c p assign_immediate (p + 2)
        else let c1 = eval_target (poke c p 0) p in
          let a_rule : Rule = record { target = c.str; deps = 0; cmd = []; num_cmd = 0 } in
          (context_rule_deps, set_str (with_rules c1 (c1.rules ++ a_rule ∷ [])) (p + 1)))
    else if x == b'='
    then start_var c p assign_recursive (p + 1)
    else if x == b'?'
    then (if before_equals
        then start_var c p assign_recursive_allow_non_defined (p + 1)
        else (context_read_now, c))
    else (context_read_now, c)

unfoldable pub do_context_sep : Conf → ℕ → ℕ × Conf
do_context_sep c p =
    if c.mem p == 0x09 && c.mem (p - 1) == 0
    then (context_rule_cmd, set_str c (p + 1))
    else if is_printable (c.mem p)
    then (context_read_now, set_str c p)
    else (context_rule_sep, c)

-- The value of the variable is complete, and no null pointer is used.
unfoldable pub store_var : ((ℕ → ℕ) → ℕ → ℕ) → Conf → ℕ → Conf
store_var resolve_vars c p =
    let c1 = poke c p 0 in
    let valued = λ (d : Conf) (v : ℕ).
      assign d (record { name = d.a_var.name; value = v; kind = d.a_var.kind }) in
    let plain = valued c1 c1.str in
    elim c.a_var.kind [
      | assign_immediate ↦
          let r = resolve_vars c1.mem c1.str in
          let c2 = valued c1 (if r == 0 then c1.str else r) in
          set_str (call_hash_set c2 (set_var c2.a_var.name c2.a_var.value)) 0
      | assign_add ↦
          let c2 = valued (poke c1 (c1.str - 1) 0x20) (c1.str - 1) in
          set_str (call_hash_set c2 (add_var c2.a_var.name c2.a_var.value)) 0
      | _ ↦ set_str (call_hash_set plain (set_var plain.a_var.name plain.a_var.value)) 0
    ]

-- The handling of a value reads or writes through a null pointer: the name in `hash_set`, the string
-- in `resolve_vars`, or the byte in front of it.
unfoldable pub is_null_used : Conf → Bool
is_null_used c =
    c.a_var.name == 0
    || elim c.a_var.kind [ assign_immediate ↦ c.str == 0 | assign_add ↦ c.str == 0 | _ ↦ false ]

unfoldable pub store_or_crash : ((ℕ → ℕ) → ℕ → ℕ) → (context : ℕ) → Conf → ℕ → ℕ × Conf
unfolding is_null_used store_var
store_or_crash resolve_vars context c p =
    if is_null_used c then (context_crashed, c) else (context, store_var resolve_vars c p)

unfoldable pub do_context_variable : ((ℕ → ℕ) → ℕ → ℕ) → Conf → ℕ → ℕ × Conf
unfolding store_or_crash
do_context_variable resolve_vars c p =
    let x = c.mem p in
    if x == 0x0a
    then store_or_crash resolve_vars context_none c p
    else if x == b'#'
    then store_or_crash resolve_vars context_comment c p
    else (context_variable, c)

-- A change of the last rule.
unfoldable pub change_last : (Rule → Rule) → List Rule → List Rule
change_last f [] = []
change_last f (r ∷ []) = f r ∷ []
change_last f (r ∷ r' ∷ rs) = r ∷ change_last f (r' ∷ rs)

abbrev pub add_cmd : ℕ → Rule → Rule
add_cmd s r = record {
  target = r.target;
  deps = r.deps;
  cmd = r.cmd ++ s ∷ [];
  num_cmd = r.num_cmd + 1;
}

abbrev pub with_deps : ℕ → Rule → Rule
with_deps q r = record { target = r.target; deps = q; cmd = r.cmd; num_cmd = r.num_cmd }

unfoldable pub store_cmd : Conf → ℕ → Conf
store_cmd c p = set_str (poke (with_rules c (change_last (add_cmd c.str) c.rules)) p 0) 0

unfoldable pub do_context_rule_cmd : Conf → ℕ → ℕ × Conf
do_context_rule_cmd c p =
    let x = c.mem p in
    if x == 0x0a
    then (context_rule_sep, store_cmd c p)
    else if x == b'#'
    then (context_comment, store_cmd c p)
    else (context_rule_cmd, c)

-- `for (;;q++) if (*q != ' ') break;` with room for `n` spaces.
unfoldable pub skip_spaces : (ℕ → ℕ) → ℕ → ℕ → ℕ
skip_spaces mem q zero = q
skip_spaces mem q (suc n) =
    let rest = skip_spaces mem (q + 1) n in if mem q == 0x20 then rest else q

abbrev pub last_target : List Rule → ℕ
last_target [] = 0
last_target (r ∷ []) = r.target
last_target (r ∷ r' ∷ rs) = last_target (r' ∷ rs)

abbrev pub count : List Rule → ℕ
count [] = 0
count (r ∷ rs) = suc (count rs)

-- The second loop of the handler stops at once, at the line feed.
unfoldable pub do_context_rule_deps : ℕ → Conf → ℕ → ℕ × Conf
do_context_rule_deps context c p =
    let q = skip_spaces c.mem c.str (p - c.str) in
    let c1 = poke (with_rules c (change_last (with_deps q) c.rules)) p 0 in
    let c2 = set_str (call_hash_set c1 (set_rule (last_target c1.rules) (count c1.rules - 1))) 0 in
    if c.mem p == 0x0a then (context_rule_sep, c2) else (context, c)

-- One round of the loop of `parse_makefile`; an unknown context only prints a message, and
-- after a crash there is no round.
unfoldable pub parse_byte : ((ℕ → ℕ) → ℕ → ℕ) → ℕ × Conf → ℕ → ℕ × Conf
parse_byte resolve_vars (context, c) p =
    if context == context_none
    then do_context_none context c p
    else if context == context_comment
    then do_context_comment c p
    else if context == context_read_now
    then do_context_read_now c p
    else if context == context_rule_deps
    then do_context_rule_deps context c p
    else if context == context_rule_sep
    then do_context_sep c p
    else if context == context_rule_cmd
    then do_context_rule_cmd c p
    else if context == context_variable
    then do_context_variable resolve_vars c p
    else (context, c)

-- The loop of `parse_makefile` over `n` bytes from `p` on.
unfoldable pub parse_makefile : ((ℕ → ℕ) → ℕ → ℕ) → ℕ × Conf → (p n : ℕ) → ℕ × Conf
parse_makefile resolve_vars s p zero = s
parse_makefile resolve_vars s p (suc n) =
    parse_makefile resolve_vars (parse_byte resolve_vars s p) (p + 1) n
