-- ===== src/Link/Export.antt =====
-- The export directory of PE files: core/link/coff/export.c writes it, the callback for the symbol
-- table in core/link/coff/callback.c counts its length before, and the search of
-- core/objectfile/coff_pe/read_pe.c finds a function in it. Memory is a function from addresses to bytes,
-- but for the hash table, a block of its own, which is an array of words.
pub mod Room
pub mod Block
pub mod Entries
pub mod Directory
pub mod Query
mod Tests
use bin_tools.Base.{
  ℕ, zero, suc, ◌+◌, ◌-◌, ◌*◌, ◌^◌, Bool, List, [], ◌∷◌, ◌++◌, length, Option, none, some, ◌>>=◌,
  u16, u32, u64, ◌==◌, if◌then◌else◌,
}
use bin_tools.Base.Bytes.{poke, half_bytes, word_bytes, load_half, load_word, strings_equal}
use bin_tools.Link.DtHash.{Words, add_dt_hash_entry}

-- A symbol with its name, the address of its section and its value.
pub record ExportSymbol : Type 0 where
  pub name : List ℕ
  pub virtual_address : ℕ
  pub value : ℕ

-- What is counted before: the length of the directory and the number of its functions.
pub record Counted : Type 0 where
  pub export_directory_len : ℕ
  pub export_func_count : ℕ

-- A symbol of class 2 that has a section; an `IMAGE_EXPORT_DIRECTORY` has 40 bytes.
unfoldable pub count_export : (outfile_name : List ℕ) → Counted → List ℕ → Counted
count_export outfile_name c name =
    let len =
      if c.export_directory_len == 0
      then 40 + length outfile_name + 1
      else c.export_directory_len in
    record {
      export_directory_len = len + (4 + 4 + 2 + length name + 1);
      export_func_count = c.export_func_count + 1;
    }

-- The pointers into the tables and to the end of the names.
pub record Tables : Type 0 where
  pub ordinals : ℕ
  pub functions : ℕ
  pub names : ℕ
  pub c : ℕ

-- The variables of the loop; `hashed` is the hash table, `none` if a walk in it did not end.
pub record Writer : Type 0 where
  pub memory : ℕ → ℕ
  pub tables : Tables
  pub i : ℕ
  pub hashed : Option Words

-- The string with its closing zero.
abbrev pub terminated : List ℕ → List ℕ
terminated name = name ++ 0 ∷ []

abbrev pub next_tables : Tables → ExportSymbol → Tables
next_tables t s = record {
  ordinals = t.ordinals + 2;
  functions = t.functions + 4;
  names = t.names + 4;
  c = t.c + (length s.name + 1);
}

-- The four writes for one symbol.
unfoldable pub write_symbol :
    (virtual_address begin : ℕ) → (ℕ → ℕ) → Tables → (i : ℕ) → ExportSymbol → ℕ → ℕ
write_symbol virtual_address begin m t i s =
    let named = poke m t.names (word_bytes (virtual_address + (t.c - begin))) in
    let placed = poke named t.functions (word_bytes (u32 (s.virtual_address + s.value))) in
    let numbered = poke placed t.ordinals (half_bytes i) in poke numbered t.c (terminated s.name)

-- The loop over the symbols of an object.
unfoldable pub write_symbols :
    (use_dt_hash : Bool) → (virtual_address begin : ℕ) → Writer → List ExportSymbol → Writer
unfolding write_symbol
write_symbols use_dt_hash virtual_address begin w [] = w
write_symbols use_dt_hash virtual_address begin w (s ∷ ss) =
    write_symbols use_dt_hash virtual_address begin
      (record {
        memory = write_symbol virtual_address begin w.memory w.tables w.i s;
        tables = next_tables w.tables s;
        i = u32 (w.i + 1);
        hashed =
            if use_dt_hash
            then w.hashed >>= (λ (t : Words). add_dt_hash_entry t s.name w.i)
            else w.hashed;
      })
      ss

-- The loop over the objects.
unfoldable pub write_objects :
    (use_dt_hash : Bool) → (virtual_address begin : ℕ) → Writer → List (List ExportSymbol) → Writer
unfolding write_symbols
write_objects use_dt_hash virtual_address begin w [] = w
write_objects use_dt_hash virtual_address begin w (o ∷ os) =
    write_objects use_dt_hash virtual_address begin
      (write_symbols use_dt_hash virtual_address begin w o) os

-- Where the tables begin in a block at `begin` for `count` functions.
unfoldable pub first_tables : (begin count : ℕ) → (outfile_name : List ℕ) → Tables
first_tables begin count outfile_name =
    let ordinals = begin + 40 + (length outfile_name + 1) in
    record {
      ordinals = ordinals;
      functions = ordinals + 2 * count;
      names = ordinals + 2 * count + 4 * count;
      c = ordinals + 2 * count + 4 * count + 4 * count;
    }

-- The 40 bytes of the directory, field by field, for a section at `virtual_address`.
unfoldable pub directory_bytes : (virtual_address begin count : ℕ) → Tables → List ℕ
directory_bytes virtual_address begin count t =
    word_bytes 0
    ++ word_bytes 0
    ++ half_bytes 0
    ++ half_bytes 0
    ++ word_bytes (virtual_address + 40)
    ++ word_bytes 0
    ++ word_bytes count
    ++ word_bytes count
    ++ word_bytes (virtual_address + (t.functions - begin))
    ++ word_bytes (virtual_address + (t.names - begin))
    ++ word_bytes (virtual_address + (t.ordinals - begin))

-- The section `.edata`.
pub record Edata : Type 0 where
  pub size_of_raw_data : ℕ
  pub virtual_address : ℕ
  pub data_p : ℕ

-- What the function reads of the configuration and changes; `memory` and `hashed` as above.
pub record ExportState : Type 0 where
  pub edata : Option Edata
  pub memory : ℕ → ℕ
  pub hashed : Option Words

-- `begin` is the block that the allocator gives.
unfoldable pub add_export :
    (outfile_name : List ℕ)
    → (use_dt_hash : Bool) → Counted
    → (begin : ℕ) → ExportState
    → List (List ExportSymbol)
    → ExportState
unfolding write_objects first_tables directory_bytes
add_export outfile_name use_dt_hash c begin st os = elim st.edata [
  | none ↦ st
  | some sec ↦
      let t = first_tables begin c.export_func_count outfile_name in
      let headed =
        poke st.memory begin (directory_bytes sec.virtual_address begin c.export_func_count t) in
      let w =
        write_objects use_dt_hash sec.virtual_address begin
          (record {
            memory = poke headed (begin + 40) (terminated outfile_name);
            tables = t;
            i = 0;
            hashed = st.hashed;
          })
          os in
      record {
        edata = some (record {
          size_of_raw_data =
              if sec.size_of_raw_data == 0 then c.export_directory_len else sec.size_of_raw_data;
          virtual_address = sec.virtual_address;
          data_p = begin;
        });
        memory = w.memory;
        hashed = w.hashed;
      }
]

-- The loop of the search over the names, from number `count` on; `none` is the end of the
-- function without a value. `base` is the address of the module.
unfoldable pub find_name :
    (memory : ℕ → ℕ)
    → (base addr_function addr_ordinal : ℕ) → (left addr_name count : ℕ) → List ℕ
    → Option ℕ
find_name m base addr_function addr_ordinal zero addr_name count query = none
find_name m base addr_function addr_ordinal (suc left) addr_name count query =
    let rest =
      find_name m base addr_function addr_ordinal left (addr_name + 4) (u32 (count + 1)) query in
    if strings_equal m query (u64 (base + load_word m addr_name))
    then some (load_word m (addr_function + 4 * load_half m (addr_ordinal + 2 * count)))
    else rest

-- The value only; whether it is forwarded is left to the caller's address tables.
unfoldable pub find_f_from_export_directory :
    (memory : ℕ → ℕ) → (edata_virtual_address_offset edata_addr : ℕ) → List ℕ → Option ℕ
unfolding find_name
find_f_from_export_directory m edata_virtual_address_offset edata_addr query =
    let base = u64 (edata_addr + (2 ^ 64 - edata_virtual_address_offset)) in
    find_name m base (u64 (base + load_word m (edata_addr + 28)))
      (u64 (base + load_word m (edata_addr + 36))) (load_word m (edata_addr + 24))
      (u64 (base + load_word m (edata_addr + 32))) 0 query
