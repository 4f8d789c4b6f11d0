-- ===== src/Build/Makefile/Line.antt =====
-- Whole lines of a makefile.
use bin_tools.Base.{
  ℕ, zero, suc, ◌+◌, ◌<◌, Bool, true, false, ◌&&◌, ◌||◌, not, [], ◌∷◌, ◌++◌, ◌==◌, ne→==, update,
  ◌≡◌, ◌≢◌, refl, ap, ◌∙◌, arith,
}
use bin_tools.Build.Makefile.{
  Conf, set_str, assign_recursive, set_var, context_none, context_read_now, context_variable,
  is_printable, do_context_none, do_context_read_now, do_context_variable, start_var, store_var,
  store_or_crash, is_null_used, parse_byte, parse_makefile,
}

module _ (resolve_vars : (ℕ → ℕ) → ℕ → ℕ) where
  -- A stretch of bytes that one state passes over.
  pub parse_makefile-skip :
      (s : ℕ × Conf) (p n m : ℕ)
      → ((i : ℕ) → i < n → parse_byte resolve_vars s (p + i) ≡ s)
      → parse_makefile resolve_vars s p (n + m) ≡ parse_makefile resolve_vars s (p + n) m
  unfolding parse_makefile
  parse_makefile-skip s p zero m same =
      let e : 0 + m ≡ m = omega arith in let e' : p + 0 ≡ p = omega arith in rw (e, e') refl
  parse_makefile-skip s p (suc n) m same =
      let e : suc n + m ≡ suc (n + m) = omega arith in
      let e' : p + suc n ≡ p + 1 + n = omega arith in
      let z : p + 0 ≡ p = omega arith in
      let first : parse_byte resolve_vars s p ≡ s = rw z at (same 0 (omega arith)) in
      let later : (i : ℕ) → i < n → parse_byte resolve_vars s (p + 1 + i) ≡ s = λ i lt.
        let a : p + suc i ≡ p + 1 + i = omega arith in rw a at (same (suc i) (omega arith)) in
      rw (e, e')
        (ap (λ (x : ℕ × Conf). parse_makefile resolve_vars x (p + 1) (n + m)) first
          ∙ parse_makefile-skip s (p + 1) n m later)

  -- A byte of a name: no separator.
  abbrev pub is_name : ℕ → Bool
  is_name x = not (x == b'+' || x == b':' || x == b'=' || x == b'?')

  -- A byte of a value: no line feed and no comment sign.
  abbrev pub is_text : ℕ → Bool
  is_text x = not (x == 0x0a || x == b'#')

  pub read_now-name :
      (c : Conf) (p : ℕ)
      → is_name (c.mem p) ≡ true
      → parse_byte resolve_vars (context_read_now, c) p ≡ (context_read_now, c)
  unfolding parse_byte do_context_read_now
  read_now-name c p h = ground arith

  pub variable-text :
      (c : Conf) (p : ℕ)
      → is_text (c.mem p) ≡ true
      → parse_byte resolve_vars (context_variable, c) p ≡ (context_variable, c)
  unfolding parse_byte do_context_variable
  variable-text c p h = ground arith

  pub parse_makefile-first :
      (s s' : ℕ × Conf) (p n : ℕ)
      → parse_byte resolve_vars s p ≡ s'
      → parse_makefile resolve_vars s p (suc n) ≡ parse_makefile resolve_vars s' (p + 1) n
  unfolding parse_makefile
  parse_makefile-first s s' p n e = ap (λ (x : ℕ × Conf). parse_makefile resolve_vars x (p + 1) n) e

  pub parse_makefile-done : (s : ℕ × Conf) (p : ℕ) → parse_makefile resolve_vars s p 0 ≡ s
  unfolding parse_makefile
  parse_makefile-done s p = refl

  -- A byte that begins a name outside of any line.
  abbrev pub is_start : ℕ → Bool
  is_start x = is_printable x && not (x == b'#' || x == b':' || x == b';' || x == b'=')

  pub none-start :
      (c : Conf) (p : ℕ)
      → is_start (c.mem p) ≡ true
      → parse_byte resolve_vars (context_none, c) p ≡ (context_read_now, set_str c p)
  unfolding parse_byte do_context_none
  none-start c p h = ground arith

  read_now-equals :
      (c : Conf) (p : ℕ)
      → c.mem p ≡ b'='
      → parse_byte resolve_vars (context_read_now, c) p ≡ start_var c p assign_recursive (p + 1)
  unfolding parse_byte do_context_read_now
  read_now-equals c p h = rw h refl

  pub variable-end :
      (c : Conf) (p : ℕ)
      → c.mem p ≡ 0x0a
      → parse_byte resolve_vars (context_variable, c) p
        ≡ store_or_crash resolve_vars context_none c p
  unfolding parse_byte do_context_variable
  variable-end c p h = rw h refl

  -- The bytes from `p` on are a name of `n + 1` bytes, an equals sign, `m` bytes of text and a line
  -- feed.
  pub record IsAssignment (mem : ℕ → ℕ) (p n m : ℕ) : Type 0 where
    pub not_null : p ≢ 0
    pub start : is_start (mem p) ≡ true
    pub name : (i : ℕ) → i < n → is_name (mem (p + 1 + i)) ≡ true
    pub equals : mem (p + 1 + n) ≡ b'='
    pub text : (i : ℕ) → i < m → is_text (mem (p + 1 + n + 1 + i)) ≡ true
    pub stop : mem (p + 1 + n + 1 + m) ≡ 0x0a

  -- The state behind such a line.
  abbrev pub assigned : Conf → (p n m : ℕ) → Conf
  assigned c p n m = record {
    mem = update (update c.mem (p + 1 + n) 0) (p + 1 + n + 1 + m) 0;
    str = 0;
    a_var = record { name = p; value = p + 1 + n + 1; kind = assign_recursive };
    rules = c.rules;
    trims = c.trims;
    sets = c.sets ++ set_var p (p + 1 + n + 1) ∷ [];
  }

  -- Reading a line `NAME=TEXT` outside of any rule, not at address 0: the name and the text become strings where they
  -- stand, the variable gets both and is set once, nothing else changes, and the parser is outside
  -- of any rule again.
  pub parse_makefile-assignment :
      (c : Conf) (p n m : ℕ)
      → IsAssignment c.mem p n m
      → parse_makefile resolve_vars (context_none, c) p (suc (n + suc (m + 1)))
        ≡ (context_none, assigned c p n m)
  unfolding start_var store_or_crash is_null_used store_var
  parse_makefile-assignment c p n m line =
      let c1 = set_str c p in
      let s2 = start_var c1 (p + 1 + n) assign_recursive (p + 1 + n + 1) in
      let named : (p == 0) ≡ false = ne→== p 0 line.not_null in
      let behind : (i : ℕ)
          → update c.mem (p + 1 + n) 0 (p + 1 + n + 1 + i) ≡ c.mem (p + 1 + n + 1 + i) =
        λ i. rw (ne→== (p + 1 + n) (p + 1 + n + 1 + i) (λ e. omega arith)) refl in
      parse_makefile-first (context_none, c) (context_read_now, c1) p (n + suc (m + 1))
        (none-start c p line.start)
      ∙ parse_makefile-skip (context_read_now, c1) (p + 1) n (suc (m + 1))
          (λ i lt. read_now-name c1 (p + 1 + i) (line.name i lt))
      ∙ parse_makefile-first (context_read_now, c1) s2 (p + 1 + n) (m + 1)
          (read_now-equals c1 (p + 1 + n) line.equals)
      ∙ parse_makefile-skip s2 (p + 1 + n + 1) m 1
          (λ i lt. variable-text s2.1 (p + 1 + n + 1 + i) (rw (behind i) (line.text i lt)))
      ∙ parse_makefile-first s2 (context_none, store_var resolve_vars s2.1 (p + 1 + n + 1 + m))
          (p + 1 + n + 1 + m) 0
          (variable-end s2.1 (p + 1 + n + 1 + m) (rw (behind m) line.stop) ∙ rw named refl)
      ∙ parse_makefile-done (context_none, assigned c p n m) (p + 1 + n + 1 + m + 1)
