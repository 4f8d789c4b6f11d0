-- ===== src/Link/Export/Directory.antt =====
-- The fields of the export directory that the search of core/objectfile/coff_pe/read_pe.c reads.
use bin_tools.Base.{ℕ, ◌+◌, ◌-◌, ◌%◌, ◌^◌, List, ◌++◌, ◌≡◌, ◌∙◌, ap, arith, subst}
use bin_tools.Base.Bytes.{half_bytes, word_bytes, load_word, load_word-IsAt, IsAt}
use bin_tools.Link.Export.{Tables, directory_bytes}

-- A word and two bytes at the beginning of a run.
word_first :
    (m : ℕ → ℕ) (a x : ℕ) (bs : List ℕ)
    → IsAt m a (word_bytes x ++ bs)
    → (load_word m a ≡ x % 2 ^ 32) × IsAt m (a + 4) bs
unfolding word_bytes IsAt
word_first m a x bs (e, (e', (e'', (e''', h)))) = (
  load_word-IsAt m a x (e, (e', (e'', (e''', tt)))),
  subst (λ (y : ℕ). IsAt m y bs) (omega arith) h,
)

half_first : (m : ℕ → ℕ) (a x : ℕ) (bs : List ℕ) → IsAt m a (half_bytes x ++ bs) → IsAt m (a + 2) bs
unfolding half_bytes IsAt
half_first m a x bs (e, (e', h)) = subst (λ (y : ℕ). IsAt m y bs) (omega arith) h

-- What the search reads of the directory.
pub directory_words :
    (m : ℕ → ℕ) (v begin count : ℕ) (t : Tables)
    → IsAt m begin (directory_bytes v begin count t)
    → (load_word m (begin + 24) ≡ count % 2 ^ 32)
      × (load_word m (begin + 28) ≡ (v + (t.functions - begin)) % 2 ^ 32)
      × (load_word m (begin + 32) ≡ (v + (t.names - begin)) % 2 ^ 32)
      × (load_word m (begin + 36) ≡ (v + (t.ordinals - begin)) % 2 ^ 32)
unfolding directory_bytes word_bytes half_bytes
directory_words m v begin count t h =
    let r9 = word_bytes (v + (t.names - begin)) ++ word_bytes (v + (t.ordinals - begin)) in
    let r8 = word_bytes (v + (t.functions - begin)) ++ r9 in
    let r6 = word_bytes count ++ word_bytes count ++ r8 in
    let r4 = word_bytes (v + 40) ++ word_bytes 0 ++ r6 in
    let (characteristics, h1) =
      word_first m begin 0 (word_bytes 0 ++ half_bytes 0 ++ half_bytes 0 ++ r4) h in
    let (stamp, h2) = word_first m (begin + 4) 0 (half_bytes 0 ++ half_bytes 0 ++ r4) h1 in
    let h3 = half_first m (begin + 4 + 4) 0 (half_bytes 0 ++ r4) h2 in
    let h4 = half_first m (begin + 4 + 4 + 2) 0 r4 h3 in
    let (name, h5) = word_first m (begin + 4 + 4 + 2 + 2) (v + 40) (word_bytes 0 ++ r6) h4 in
    let (base, h6) = word_first m (begin + 4 + 4 + 2 + 2 + 4) 0 r6 h5 in
    let (number, h7) =
      word_first m (begin + 4 + 4 + 2 + 2 + 4 + 4) count (word_bytes count ++ r8) h6 in
    let (n, h8) = word_first m (begin + 4 + 4 + 2 + 2 + 4 + 4 + 4) count r8 h7 in
    let (f, h9) =
      word_first m (begin + 4 + 4 + 2 + 2 + 4 + 4 + 4 + 4) (v + (t.functions - begin)) r9 h8 in
    let (a, h10) =
      word_first m (begin + 4 + 4 + 2 + 2 + 4 + 4 + 4 + 4 + 4) (v + (t.names - begin))
        (word_bytes (v + (t.ordinals - begin))) h9 in
    let o =
      load_word-IsAt m (begin + 4 + 4 + 2 + 2 + 4 + 4 + 4 + 4 + 4 + 4) (v + (t.ordinals - begin))
        h10 in
    (
      ap (load_word m) (omega arith) ∙ n,
      ap (load_word m) (omega arith) ∙ f,
      ap (load_word m) (omega arith) ∙ a,
      ap (load_word m) (omega arith) ∙ o,
    )
