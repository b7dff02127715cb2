-- ===== src/Wasm/Imports/RoundTrip.antt =====
-- The import section as it is written and read back.
use wavm.Prelude.{
  ℕ, ◌^◌, ◌<◌, ◌≡◌, ap, subst, sym, ◌∙◌, true, List, [], ◌∷◌, length, ◌==◌, if◌then◌else◌, arith,
}
use wavm.Inline.Serialization.{◌>>=◌, unreachable, ◌<>◌}
use wavm.Inline.Serialization.Reads.{Reads, Reads-bind, Reads-pure, Every}
use wavm.Inline.Leb128.Formats.{var_uint32, read_uint, write_uint, Reads-uint32}
use wavm.Wasm.Sections.RoundTrip.{after_id, IsSized, Reads-section}
use wavm.Wasm.Sections.{SectionId, write_section}
use wavm.Wasm.Imports.{
  Imports, AnyImport, no_imports, push_import, read_imports, read_import_section, write_imports,
  num_imports, write_import_section,
}
use wavm.Wasm.Imports.Any.{IsImport, Reads-any}
use wavm.Wasm.Imports.Pushed.{
  push_all, write_each, write_imports-places, imports-push_all, num_imports-push_all, length-places,
}

Reads-each :
    (num_types : ℕ) (all : List AnyImport) (m : Imports)
    → num_types < 2 ^ 32
    → Every (IsImport num_types) all
    → Reads (write_each all) (read_imports num_types (length all) m) (push_all all m)
unfolding write_each read_imports push_all
Reads-each num_types [] m n h = Reads-pure m
Reads-each num_types (i ∷ others) m n h =
    Reads-bind _ (Reads-any num_types i n h.0) (Reads-each num_types others (push_import i m) n h.1)

abbrev pub pushed : List AnyImport → Imports
pushed all = push_all all no_imports

num_imports-pushed : (all : List AnyImport) → num_imports (pushed all) ≡ length all
num_imports-pushed all = num_imports-push_all all no_imports ∙ omega arith

written-pushed :
    (all : List AnyImport) → write_imports (pushed all) (pushed all).imports ≡ write_each all
written-pushed all =
    ap (write_imports (pushed all)) (imports-push_all all no_imports)
    ∙ write_imports-places all no_imports

asserted : (all : List AnyImport) → (length (pushed all).imports == num_imports (pushed all)) ≡ true
asserted all =
    let l : length (pushed all).imports ≡ length all =
      ap length (imports-push_all all no_imports) ∙ length-places all no_imports in
    ground (arith, l, num_imports-pushed all)

-- The imports of a module, of all kinds in any order, are read back from the import section that
-- was written for them: each in its index space, and all of them in their order. Names are valid and
-- types have encodings, and the number of bytes fits in 32 bits. Any shorter part of the section is
-- refused because data was expected.
pub Reads-import_section :
    (num_types : ℕ) (all : List AnyImport)
    → num_types < 2 ^ 32
    → length all < 2 ^ 32
    → Every (IsImport num_types) all
    → IsSized (
        write_uint var_uint32 (num_imports (pushed all))
        <> write_imports (pushed all) (pushed all).imports)
    → Reads
        (write_import_section (pushed all))
        (after_id (read_import_section num_types))
        (pushed all)
Reads-import_section num_types all n l h s =
    let body =
      Reads-bind (λ size. read_imports num_types size no_imports) (Reads-uint32 (length all) l)
        (Reads-each num_types all no_imports n h) in
    let e : write_uint var_uint32 (num_imports (pushed all))
          <> write_imports (pushed all) (pushed all).imports
        ≡ write_uint var_uint32 (length all) <> write_each all =
      λ i. write_uint var_uint32 (num_imports-pushed all i) <> written-pushed all i in
    subst
      (λ b.
        Reads
          (write_section SectionId.import (
            write_uint var_uint32 (num_imports (pushed all))
            <> (if b then write_imports (pushed all) (pushed all).imports else unreachable)))
          (after_id (read_import_section num_types)) (pushed all))
      (sym (asserted all))
      (Reads-section SectionId.import
        (subst
          (λ w.
            Reads w (read_uint var_uint32 >>= λ size. read_imports num_types size no_imports)
              (pushed all))
          (sym e) body)
        s)
