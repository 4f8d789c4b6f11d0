-- ===== src/Build/Makefile/Rules.antt =====
-- The head of a rule, and a line with a comment.
use bin_tools.Base.{
  ℕ, zero, suc, ◌≤◌, ◌⊎◌, inl, inr, Bool-cases, ==_iff, subst, ◌+◌, ◌-◌, ◌<◌, Bool, if◌then◌else◌,
  true, false, List, [], ◌∷◌, ◌++◌, ◌==◌, ne→==, update, ◌≡◌, ◌≢◌, refl, ap, ◌∙◌, arith,
}
use bin_tools.Build.Makefile.Line.{
  parse_makefile-skip, parse_makefile-first, parse_makefile-done, none-start, read_now-name,
  variable-text, variable-end, is_name, is_text, is_start,
}
use bin_tools.Build.Makefile.{
  Conf, Rule, set_rule, set_str, poke, with_rules, context_none, context_comment, context_read_now,
  context_rule_deps, context_rule_sep, context_variable, do_context_none, do_context_comment,
  do_context_read_now, do_context_rule_deps, eval_target, change_last, with_deps, last_target,
  count, skip_spaces, store_var, store_or_crash, is_null_used, VarKind, no_kind, assign_immediate,
  assign_recursive, assign_recursive_allow_non_defined, assign_add, set_var, context_crashed,
  parse_byte, parse_makefile,
}

change_last-append :
    (f : Rule → Rule) (rs : List Rule) (r : Rule) → change_last f (rs ++ r ∷ []) ≡ rs ++ f r ∷ []
unfolding change_last
change_last-append f [] r = refl
change_last-append f (a ∷ []) r = refl
change_last-append f (a ∷ b ∷ rs) r =
    ap (λ (x : List Rule). a ∷ x) (change_last-append f (b ∷ rs) r)

last_target-append : (rs : List Rule) (r : Rule) → last_target (rs ++ r ∷ []) ≡ r.target
last_target-append [] r = refl
last_target-append (a ∷ []) r = refl
last_target-append (a ∷ b ∷ rs) r = last_target-append (b ∷ rs) r

count-append : (rs : List Rule) (r : Rule) → count (rs ++ r ∷ []) ≡ suc (count rs)
count-append [] r = refl
count-append (a ∷ rs) r = ap suc (count-append rs r)

-- `d` is where the spaces end that begin at `q`, or the end of the `n` bytes.
pub record IsSkipped (mem : ℕ → ℕ) (q n d : ℕ) : Type 0 where
  pub from : q ≤ d
  pub to : d ≤ q + n
  pub spaces : (i : ℕ) → q ≤ i → i < d → mem i ≡ 0x20
  pub end : (d ≡ q + n) ⊎ (mem d ≢ 0x20)

skip_spaces-IsSkipped : (mem : ℕ → ℕ) (q n : ℕ) → IsSkipped mem q n (skip_spaces mem q n)
unfolding skip_spaces
skip_spaces-IsSkipped mem q zero = record {
  from = omega arith;
  to = omega arith;
  spaces = λ i le lt. absurd (omega arith);
  end = inl (omega arith);
}
skip_spaces-IsSkipped mem q (suc n) = elim (Bool-cases (mem q == 0x20)) [
  | inl e ↦
      let rest = skip_spaces-IsSkipped mem (q + 1) n in
      rw e (record {
        from = omega (arith, rest.from);
        to = omega (arith, rest.to);
        spaces = λ i le lt. elim (Bool-cases (q == i)) [
          | inl same ↦
              subst (λ (x : ℕ). mem x ≡ 0x20) ((==_iff q i).0 same) ((==_iff (mem q) 0x20).0 e)
          | inr other ↦ rest.spaces i (ground arith) lt
        ];
        end = elim rest.end [ inl stop ↦ inl (stop ∙ omega arith) | inr more ↦ inr more ];
      })
  | inr e ↦ rw e (record {
    from = omega arith;
    to = omega arith;
    spaces = λ i le lt. absurd (omega arith);
    end = inr (λ h. absurd (ground (arith, e, h)));
  })
]

-- The kinds of a variable whose value is the string as it stands.
unfoldable pub is_plain : VarKind → Bool
is_plain no_kind = true
is_plain assign_immediate = false
is_plain assign_recursive = true
is_plain assign_recursive_allow_non_defined = true
is_plain assign_add = false

module _ (resolve_vars : (ℕ → ℕ) → ℕ → ℕ) where
  -- What the head of a rule becomes when its target has been read: the target is a string, and a
  -- rule with it is the last one.
  abbrev pub targeted : Conf → (p q : ℕ) → Conf
  targeted c p q =
      let c1 = eval_target (poke (set_str c p) q 0) q in
      set_str
        (with_rules c1 (c1.rules ++ record { target = p; deps = 0; cmd = []; num_cmd = 0 } ∷ []))
        (q + 1)

  read_now-colon :
      (c : Conf) (p q : ℕ)
      → c.mem q ≡ b':'
      → (c.mem (q + 1) == b'=') ≡ false
      → parse_byte resolve_vars (context_read_now, set_str c p) q
        ≡ (context_rule_deps, targeted c p q)
  unfolding parse_byte do_context_read_now
  read_now-colon c p q h g = rw (h, g) refl

  -- The state behind the line `TARGET:DEPS`, with the colon at `q`, `m` bytes behind it, and the
  -- dependencies at `d`.
  abbrev pub head_read : Conf → (p q m d : ℕ) → Conf
  head_read c p q m d = record {
    mem = update (update c.mem q 0) (q + 1 + m) 0;
    str = 0;
    a_var = c.a_var;
    rules = c.rules ++ record { target = p; deps = d; cmd = []; num_cmd = 0 } ∷ [];
    trims = (eval_target (poke (set_str c p) q 0) q).trims;
    sets = c.sets ++ set_rule p (count c.rules) ∷ [];
  }

  deps-end :
      (c : Conf) (p q m : ℕ)
      → update c.mem q 0 (q + 1 + m) ≡ 0x0a
      → parse_byte resolve_vars (context_rule_deps, targeted c p q) (q + 1 + m)
        ≡ (context_rule_sep, head_read c p q m (skip_spaces (update c.mem q 0) (q + 1) m))
  unfolding parse_byte do_context_rule_deps eval_target
  deps-end c p q m h =
      let d = skip_spaces (update c.mem q 0) (q + 1) m in
      let r : Rule = record { target = p; deps = 0; cmd = []; num_cmd = 0 } in
      let room : q + 1 + m - (q + 1) ≡ m = omega arith in
      let one : suc (count c.rules) - 1 ≡ count c.rules = omega arith in
      rw
        (
          h,
          room,
          change_last-append (with_deps d) c.rules r,
          last_target-append c.rules (with_deps d r),
          count-append c.rules (with_deps d r),
          one,
        )
        refl

  deps-text :
      (c : Conf) (p : ℕ)
      → (c.mem p == 0x0a) ≡ false
      → parse_byte resolve_vars (context_rule_deps, c) p ≡ (context_rule_deps, c)
  unfolding parse_byte do_context_rule_deps
  deps-text c p h = rw h refl

  -- A comment of at least one byte: the byte behind the sign already counts as the value of a
  -- variable, and at the end of the line that variable is stored.
  pub record IsComment (mem : ℕ → ℕ) (p m : ℕ) : Type 0 where
    pub sign : mem p ≡ b'#'
    pub more : mem (p + 1) ≢ 0x0a
    pub text : (i : ℕ) → i < m → is_text resolve_vars (mem (p + 1 + 1 + i)) ≡ true
    pub stop : mem (p + 1 + 1 + m) ≡ 0x0a

  none-sign :
      (c : Conf) (p : ℕ)
      → c.mem p ≡ b'#'
      → parse_byte resolve_vars (context_none, c) p ≡ (context_comment, c)
  unfolding parse_byte do_context_none
  none-sign c p h = rw h refl

  comment-byte :
      (c : Conf) (p : ℕ)
      → c.mem p ≢ 0x0a
      → parse_byte resolve_vars (context_comment, c) p ≡ (context_variable, c)
  unfolding parse_byte do_context_comment
  comment-byte c p h = rw (ne→== (c.mem p) 0x0a h) refl

  comment-line :
      (c : Conf) (p m : ℕ)
      → IsComment c.mem p m
      → parse_makefile resolve_vars (context_none, c) p (suc (suc (m + 1)))
        ≡ store_or_crash resolve_vars context_none c (p + 1 + 1 + m)
  comment-line c p m line =
      let s' = store_or_crash resolve_vars context_none c (p + 1 + 1 + m) in
      parse_makefile-first resolve_vars (context_none, c) (context_comment, c) p (suc (m + 1))
        (none-sign c p line.sign)
      ∙ parse_makefile-first resolve_vars (context_comment, c) (context_variable, c) (p + 1) (m + 1)
          (comment-byte c (p + 1) line.more)
      ∙ parse_makefile-skip resolve_vars (context_variable, c) (p + 1 + 1) m 1
          (λ i lt. variable-text resolve_vars c (p + 1 + 1 + i) (line.text i lt))
      ∙ parse_makefile-first resolve_vars (context_variable, c) s' (p + 1 + 1 + m) 0
          (variable-end resolve_vars c (p + 1 + 1 + m) line.stop)
      ∙ parse_makefile-done resolve_vars s' (p + 1 + 1 + m + 1)

  -- The state in which the last variable has no value any more.
  abbrev pub forgotten : Conf → ℕ → Conf
  forgotten c q = record {
    mem = update c.mem q 0;
    str = 0;
    a_var = record { name = c.a_var.name; value = 0; kind = c.a_var.kind };
    rules = c.rules;
    trims = c.trims;
    sets = c.sets ++ set_var c.a_var.name 0 ∷ [];
  }

  store_or_crash-null :
      (c : Conf) (q : ℕ) (k : VarKind)
      → c.str ≡ 0
      → c.a_var.kind ≡ k
      → is_plain k ≡ true
      → store_or_crash resolve_vars context_none c q
        ≡ (if c.a_var.name == 0 then (context_crashed, c) else (context_none, forgotten c q))
  unfolding store_or_crash is_null_used store_var is_plain
  store_or_crash-null c q no_kind s e h = ground (arith, s, e)
  store_or_crash-null c q assign_immediate s e h = cc
  store_or_crash-null c q assign_recursive s e h = ground (arith, s, e)
  store_or_crash-null c q assign_recursive_allow_non_defined s e h = ground (arith, s, e)
  store_or_crash-null c q assign_add s e h = cc

  -- Reading a line with a comment that is not empty while no string is at hand, as is the case outside
  -- of any rule, after a variable that is not `:=` or `+=` or before any variable: when no variable
  -- has been named, the process ends at the null pointer; otherwise the comment counts as the value of
  -- the last variable, which is set once more, with a null pointer for its value.
  pub parse_makefile-comment :
      (c : Conf) (p m : ℕ)
      → IsComment c.mem p m
      → c.str ≡ 0
      → is_plain c.a_var.kind ≡ true
      → parse_makefile resolve_vars (context_none, c) p (suc (suc (m + 1))) ≡ (
          if c.a_var.name == 0
          then (context_crashed, c)
          else (context_none, forgotten c (p + 1 + 1 + m)))
  parse_makefile-comment c p m line s k =
      comment-line c p m line ∙ store_or_crash-null c (p + 1 + 1 + m) c.a_var.kind s refl k

  -- The bytes from `p` on are a target of `n + 1` bytes, a colon, `m` bytes and a line feed.
  pub record IsHead (mem : ℕ → ℕ) (p n m : ℕ) : Type 0 where
    pub start : is_start resolve_vars (mem p) ≡ true
    pub name : (i : ℕ) → i < n → is_name resolve_vars (mem (p + 1 + i)) ≡ true
    pub colon : mem (p + 1 + n) ≡ b':'
    pub no_equals : (mem (p + 1 + n + 1) == b'=') ≡ false
    pub text : (i : ℕ) → i < m → (mem (p + 1 + n + 1 + i) == 0x0a) ≡ false
    pub stop : mem (p + 1 + n + 1 + m) ≡ 0x0a

  -- Reading a line `TARGET:DEPS` outside of any rule: a new last rule has the target and, from
  -- where the spaces behind the colon end, the text behind them, both ended where they stand; the
  -- rule is stored once, under its target; and the parser goes on between the commands of a rule.
  pub parse_makefile-head :
      (c : Conf) (p n m : ℕ)
      → IsHead c.mem p n m
      → (d : ℕ) × IsSkipped (update c.mem (p + 1 + n) 0) (p + 1 + n + 1) m d
        × (parse_makefile resolve_vars (context_none, c) p (suc (n + suc (m + 1)))
            ≡ (context_rule_sep, head_read c p (p + 1 + n) m d))
  unfolding eval_target
  parse_makefile-head c p n m line =
      let c1 = set_str c p in
      let q = p + 1 + n in
      let s2 : ℕ × Conf = (context_rule_deps, targeted c p q) in
      let behind : (i : ℕ) → update c.mem q 0 (q + 1 + i) ≡ c.mem (q + 1 + i) =
        λ i. rw (ne→== q (q + 1 + i) (λ e. omega arith)) refl in
      let mem = update c.mem q 0 in
      let d = skip_spaces mem (q + 1) m in
      let run : parse_makefile resolve_vars (context_none, c) p (suc (n + suc (m + 1)))
          ≡ (context_rule_sep, head_read c p q m d) =
        parse_makefile-first resolve_vars (context_none, c) (context_read_now, c1) p
          (n + suc (m + 1)) (none-start resolve_vars c p line.start)
        ∙ parse_makefile-skip resolve_vars (context_read_now, c1) (p + 1) n (suc (m + 1))
            (λ i lt. read_now-name resolve_vars c1 (p + 1 + i) (line.name i lt))
        ∙ parse_makefile-first resolve_vars (context_read_now, c1) s2 q (m + 1)
            (read_now-colon c p q line.colon line.no_equals)
        ∙ parse_makefile-skip resolve_vars s2 (q + 1) m 1
            (λ i lt. deps-text (targeted c p q) (q + 1 + i) (rw (behind i) (line.text i lt)))
        ∙ parse_makefile-first resolve_vars s2 (context_rule_sep, head_read c p q m d) (q + 1 + m) 0
            (deps-end c p q m (rw (behind m) line.stop))
        ∙ parse_makefile-done resolve_vars (context_rule_sep, head_read c p q m d)
            (q + 1 + m + 1) in
      (d, skip_spaces-IsSkipped mem (q + 1) m, run)
