-- ===== src/Build/Makefile/Valid.antt =====
-- What holds of the parser at every byte of any text.
use bin_tools.Base.{
  ℕ, zero, suc, ◌+◌, ◌-◌, Bool, true, false, ◌&&◌, ◌||◌, List, [], ◌∷◌, ◌++◌, length, length-append,
  ◌==◌, if◌then◌else◌, ◌≡◌, refl, arith,
}
use bin_tools.Build.Makefile.{
  Conf, Rule, context_none, context_read_now, context_rule_deps, context_rule_sep, context_rule_cmd,
  context_variable, context_comment, is_printable, do_context_none, do_context_read_now,
  do_context_variable, do_context_comment, do_context_sep, do_context_rule_cmd,
  do_context_rule_deps, eval_target, change_last, add_cmd, with_deps, store_cmd, start_var,
  store_var, store_or_crash, is_null_used, context_crashed, parse_byte, parse_makefile, poke,
}

-- The seven contexts, and the end at a null pointer.
unfoldable pub is_context : ℕ → Bool
is_context x =
    x == context_none
    || x == context_comment
    || x == context_read_now
    || x == context_rule_deps
    || x == context_rule_sep
    || x == context_rule_cmd
    || x == context_variable
    || x == context_crashed

-- `num_cmd` counts the commands of each rule.
unfoldable pub are_counted : List Rule → Bool
are_counted [] = true
are_counted (r ∷ rs) = r.num_cmd == length r.cmd && are_counted rs

are_counted-append :
    (rs : List Rule) (r : Rule)
    → are_counted rs ≡ true
    → r.num_cmd ≡ length r.cmd
    → are_counted (rs ++ r ∷ []) ≡ true
unfolding are_counted
are_counted-append [] r h e = ground arith
are_counted-append (r' ∷ rs) r h e = ground (arith, are_counted-append rs r)

are_counted-change_last :
    (f : Rule → Rule)
    → ((r : Rule) → r.num_cmd ≡ length r.cmd → (f r).num_cmd ≡ length (f r).cmd)
    → (rs : List Rule) → are_counted rs ≡ true
    → are_counted (change_last f rs) ≡ true
unfolding are_counted change_last
are_counted-change_last f keep [] h = refl
are_counted-change_last f keep (r ∷ []) h = ground (arith, keep r)
are_counted-change_last f keep (r ∷ r' ∷ rs) h =
    ground (arith, are_counted-change_last f keep (r' ∷ rs))

eval_target-rules : (c : Conf) (p : ℕ) → (eval_target c p).rules ≡ c.rules
unfolding eval_target
eval_target-rules c p = refl

-- A state that the parser may be in.
pub record IsValid (s : ℕ × Conf) : Type 0 where
  pub known : is_context s.0 ≡ true
  pub counted : are_counted s.1.rules ≡ true

ok : {x : ℕ} {c : Conf} → is_context x ≡ true → are_counted c.rules ≡ true → IsValid (x, c)
ok k h = record { known = k; counted = h }

if-IsValid : (b : Bool) {s t : ℕ × Conf} → IsValid s → IsValid t → IsValid (if b then s else t)
if-IsValid true v w = v
if-IsValid false v w = w

none-IsValid :
    (context : ℕ) (c : Conf) (p : ℕ) → IsValid (context, c) → IsValid (do_context_none context c p)
unfolding do_context_none is_context
none-IsValid context c p v = if-IsValid (c.mem p == b'#') (ok refl v.counted) (
    if-IsValid (c.mem p == b':') (ok refl v.counted) (
      if-IsValid (c.mem p == b';') (ok refl v.counted) (
        if-IsValid (c.mem p == b'=') (ok refl v.counted)
          (if-IsValid (is_printable (c.mem p)) (ok refl v.counted) v))))

new_rule-counted :
    (c : Conf) (p : ℕ)
    → are_counted c.rules ≡ true
    → are_counted (
        (eval_target (poke c p 0) p).rules
        ++ record { target = c.str; deps = 0; cmd = []; num_cmd = 0 } ∷ [])
      ≡ true
new_rule-counted c p h = rw (eval_target-rules (poke c p 0) p) (are_counted-append c.rules _ h refl)

read_now-IsValid :
    (c : Conf) (p : ℕ) → are_counted c.rules ≡ true → IsValid (do_context_read_now c p)
unfolding do_context_read_now is_context start_var
read_now-IsValid c p h =
    if-IsValid (c.mem p == b'+') (if-IsValid (c.mem (p + 1) == b'=') (ok refl h) (ok refl h)) (
      if-IsValid (c.mem p == b':')
        (if-IsValid (c.mem (p + 1) == b'=') (ok refl h) (ok refl (new_rule-counted c p h)))
        (if-IsValid (c.mem p == b'=') (ok refl h) (
          if-IsValid (c.mem p == b'?') (if-IsValid (c.mem (p + 1) == b'=') (ok refl h) (ok refl h))
            (ok refl h))))

comment-IsValid : (c : Conf) (p : ℕ) → are_counted c.rules ≡ true → IsValid (do_context_comment c p)
unfolding do_context_comment is_context
comment-IsValid c p h = if-IsValid (c.mem p == 0x0a) (ok refl h) (ok refl h)

sep-IsValid : (c : Conf) (p : ℕ) → are_counted c.rules ≡ true → IsValid (do_context_sep c p)
unfolding do_context_sep is_context
sep-IsValid c p h =
    if-IsValid (c.mem p == 0x09 && c.mem (p - 1) == 0) (ok refl h)
      (if-IsValid (is_printable (c.mem p)) (ok refl h) (ok refl h))

store_var-rules :
    (resolve_vars : (ℕ → ℕ) → ℕ → ℕ) (c : Conf) (p : ℕ)
    → (store_var resolve_vars c p).rules ≡ c.rules
unfolding store_var
store_var-rules resolve_vars c p = ground arith

variable-IsValid :
    (resolve_vars : (ℕ → ℕ) → ℕ → ℕ) (c : Conf) (p : ℕ)
    → are_counted c.rules ≡ true
    → IsValid (do_context_variable resolve_vars c p)
unfolding do_context_variable store_or_crash is_context
variable-IsValid resolve_vars c p h =
    let h' : are_counted (store_var resolve_vars c p).rules ≡ true =
      rw (store_var-rules resolve_vars c p) h in
    if-IsValid (c.mem p == 0x0a) (if-IsValid (is_null_used c) (ok refl h) (ok refl h')) (
      if-IsValid (c.mem p == b'#') (if-IsValid (is_null_used c) (ok refl h) (ok refl h'))
        (ok refl h))

rule_cmd-IsValid :
    (c : Conf) (p : ℕ) → are_counted c.rules ≡ true → IsValid (do_context_rule_cmd c p)
unfolding do_context_rule_cmd is_context store_cmd
rule_cmd-IsValid c p h =
    let keep : (r : Rule)
        → r.num_cmd ≡ length r.cmd
        → r.num_cmd + 1 ≡ length (r.cmd ++ c.str ∷ []) =
      λ r e. omega (arith, e, length-append r.cmd (c.str ∷ [])) in
    let h' = are_counted-change_last (add_cmd c.str) keep c.rules h in
    if-IsValid (c.mem p == 0x0a) (ok refl h')
      (if-IsValid (c.mem p == b'#') (ok refl h') (ok refl h))

rule_deps-IsValid :
    (context : ℕ) (c : Conf) (p : ℕ)
    → IsValid (context, c)
    → IsValid (do_context_rule_deps context c p)
unfolding do_context_rule_deps is_context
rule_deps-IsValid context c p v =
    if-IsValid (c.mem p == 0x0a)
      (ok refl (are_counted-change_last (with_deps _) (λ r e. e) c.rules v.counted)) v

parse_byte-IsValid :
    (resolve_vars : (ℕ → ℕ) → ℕ → ℕ) (s : ℕ × Conf) (p : ℕ)
    → IsValid s
    → IsValid (parse_byte resolve_vars s p)
unfolding parse_byte
parse_byte-IsValid resolve_vars (context, c) p v =
    if-IsValid (context == context_none) (none-IsValid context c p v) (
      if-IsValid (context == context_comment) (comment-IsValid c p v.counted) (
        if-IsValid (context == context_read_now) (read_now-IsValid c p v.counted) (
          if-IsValid (context == context_rule_deps) (rule_deps-IsValid context c p v) (
            if-IsValid (context == context_rule_sep) (sep-IsValid c p v.counted) (
              if-IsValid (context == context_rule_cmd) (rule_cmd-IsValid c p v.counted) (
                if-IsValid (context == context_variable)
                  (variable-IsValid resolve_vars c p v.counted) v))))))

-- On any text, and whatever variables resolve to, the parser stays in one of its seven contexts, so
-- that the branch for an unknown state is never taken, until it ends at a null pointer, if it does;
-- and `num_cmd` of every rule stays the number of its commands.
pub parse_makefile-IsValid :
    (resolve_vars : (ℕ → ℕ) → ℕ → ℕ) (s : ℕ × Conf) (p n : ℕ)
    → IsValid s
    → IsValid (parse_makefile resolve_vars s p n)
unfolding parse_makefile
parse_makefile-IsValid resolve_vars s p zero v = v
parse_makefile-IsValid resolve_vars s p (suc n) v =
    parse_makefile-IsValid resolve_vars (parse_byte resolve_vars s p) (p + 1) n
      (parse_byte-IsValid resolve_vars s p v)
