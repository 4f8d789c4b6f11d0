-- ===== src/Link/Dynamic/Strings.antt =====
-- The string table that core/link/elf/dynamic.c builds.
use bin_tools.Base.{
  ℕ, ◌+◌, ◌<◌, ◌≤◌, ◌^◌, List, [], ◌∷◌, length, false, ltb, u64, update, ◌≡◌, refl, ap, ◌∙◌, arith,
  ne→==, ==_refl,
}
use bin_tools.Link.Dynamic.{StringArea, add_dynstr_entry, put_string}

-- The bytes from `p` on are those of the string and a closing zero.
unfoldable pub IsStringAt : (ℕ → ℕ) → ℕ → List ℕ → Type 0
IsStringAt bytes p [] = bytes p ≡ 0
IsStringAt bytes p (c ∷ cs) = (bytes p ≡ c) × IsStringAt bytes (p + 1) cs

-- Nothing is written behind the end of the table, up to the end of its block.
abbrev pub IsBlankFrom : (ℕ → ℕ) → (size alloc_size : ℕ) → Type 0
IsBlankFrom bytes size alloc_size = (q : ℕ) → size ≤ q → q < alloc_size → bytes q ≡ 0

put_string-below :
    (bytes : ℕ → ℕ) (p : ℕ) (name : List ℕ) (q : ℕ) → q < p → put_string bytes p name q ≡ bytes q
unfolding put_string
put_string-below bytes p [] q h = refl
put_string-below bytes p (c ∷ cs) q h =
    put_string-below (update bytes p c) (p + 1) cs q (omega arith)
    ∙ rw (ne→== p q (λ e. omega (arith, e))) refl

put_string-above :
    (bytes : ℕ → ℕ) (p : ℕ) (name : List ℕ) (q : ℕ)
    → p + length name ≤ q
    → put_string bytes p name q ≡ bytes q
unfolding put_string
put_string-above bytes p [] q h = refl
put_string-above bytes p (c ∷ cs) q h =
    put_string-above (update bytes p c) (p + 1) cs q (omega arith)
    ∙ rw (ne→== p q (λ e. omega (arith, e))) refl

put_string-IsStringAt :
    (bytes : ℕ → ℕ) (p : ℕ) (name : List ℕ)
    → bytes (p + length name) ≡ 0
    → IsStringAt (put_string bytes p name) p name
unfolding put_string IsStringAt
put_string-IsStringAt bytes p [] h = ap bytes (omega arith) ∙ h
put_string-IsStringAt bytes p (c ∷ cs) h = (
  put_string-below (update bytes p c) (p + 1) cs p (omega arith) ∙ rw (==_refl p) refl,
  put_string-IsStringAt (update bytes p c) (p + 1) cs
      (rw (ne→== p (p + 1 + length cs) (λ e. omega (arith, e))) (ap bytes (omega arith) ∙ h)),
)

pub IsStringAt-eq :
    (f g : ℕ → ℕ) (p : ℕ) (name : List ℕ)
    → ((q : ℕ) → p ≤ q → q ≤ p + length name → f q ≡ g q)
    → IsStringAt g p name
    → IsStringAt f p name
unfolding IsStringAt
IsStringAt-eq f g p [] h i = h p (omega arith) (omega arith) ∙ i
IsStringAt-eq f g p (c ∷ cs) h (e, i) = (
  h p (omega arith) (omega arith) ∙ e,
  IsStringAt-eq f g (p + 1) cs (λ q a b. h q (omega arith) (omega arith)) i,
)

-- What a table holds after a string was added to it.
pub record Added (d d' : StringArea) (r : ℕ) (name : List ℕ) : Type 0 where
  pub size : d'.size ≡ d.size + length name + 1
  pub alloc_size : d'.alloc_size ≡ d.alloc_size
  pub blank : IsBlankFrom d'.bytes d'.size d'.alloc_size
  pub below : (q : ℕ) → q < d.size → d'.bytes q ≡ d.bytes q
  pub found : IsStringAt d'.bytes r name
  pub offset : r ≡ d.size

-- A string that fits with its closing zero into the block of a table, which is blank from its size to
-- the end of the block, is found with the zero at the offset that is returned, which is the old size;
-- all bytes before it are kept, the size grows by the string and its zero, and the table stays blank
-- from the new size to the end of the block.
pub add_dynstr_entry-Added :
    (fresh : ℕ → ℕ) (d : StringArea) (name : List ℕ)
    → IsBlankFrom d.bytes d.size d.alloc_size
    → d.size + length name < d.alloc_size
    → d.alloc_size + 1 < 2 ^ 32
    → Added d (add_dynstr_entry fresh d name).1 (add_dynstr_entry fresh d name).0 name
unfolding add_dynstr_entry
add_dynstr_entry-Added fresh d name blank fits small =
    let room : ltb d.alloc_size (u64 (d.size + length name)) ≡ false = ground arith in
    rw room (record {
      size = omega arith;
      alloc_size = refl;
      blank =
          λ q h l. put_string-above d.bytes d.size name q (omega arith) ∙ blank q (omega arith) l;
      below = λ q h. put_string-below d.bytes d.size name q h;
      found =
          put_string-IsStringAt d.bytes d.size name
            (blank (d.size + length name) (omega arith) fits);
      offset = refl;
    })
