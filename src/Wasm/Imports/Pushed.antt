-- ===== src/Wasm/Imports/Pushed.antt =====
-- The imports that were pushed, found again where they were put.
use wavm.Prelude.{
  suc, ◌+◌, ◌≡◌, refl, ap, sym, ◌∙◌, List, [], ◌∷◌, ◌++◌, length, get_elem?, some, arith,
  length-append,
}
use mathlib.Core.List.{append-nil, append_assoc}
use wavm.Ir.Types.{ExternKind}
use wavm.Ir.Module.{KindAndIndex}
use wavm.Inline.Serialization.{Written, bytes, ◌<>◌}
use wavm.Inline.Leb128.Formats.{var_uint32_of_u32, write_uint}
use wavm.Wasm.Types.{write_table_type, write_memory_type, write_global_type, write_exception_type}
use wavm.Wasm.Imports.{
  Imports, AnyImport, kind_and_index, push_import, write_found, write_import, write_imports,
  num_imports,
}
use wavm.Wasm.Imports.Any.{write_any}

-- The imports of a module, pushed one by one.
unfoldable pub push_all : List AnyImport → Imports → Imports
push_all [] m = m
push_all (i ∷ others) m = push_all others (push_import i m)

unfoldable pub write_each : List AnyImport → Written
write_each [] = bytes []
write_each (i ∷ others) = write_any i <> write_each others

abbrev IsPrefix : {A : Type 0} → List A → List A → Type 0
IsPrefix {A} xs ys = (more : List A) × (ys ≡ xs ++ more)

prefix_refl : {A : Type 0} (xs : List A) → IsPrefix xs xs
prefix_refl xs = ([], sym (append-nil xs))

prefix_after : {A : Type 0} (xs zs ys : List A) → IsPrefix (xs ++ zs) ys → IsPrefix xs ys
prefix_after xs zs ys (more, e) = (zs ++ more, e ∙ append_assoc xs zs more)

get_elem?-at :
    {A : Type 0} (xs more : List A) (x : A)
    → get_elem? ((xs ++ x ∷ []) ++ more) (length xs) ≡ some x
get_elem?-at [] more x = refl
get_elem?-at (y ∷ xs) more x = get_elem?-at xs more x

get_elem?-prefix :
    {A : Type 0} (xs : List A) (x : A) (ys : List A)
    → IsPrefix (xs ++ x ∷ []) ys
    → get_elem? ys (length xs) ≡ some x
get_elem?-prefix xs x ys (more, e) = ap (λ l. get_elem? l (length xs)) e ∙ get_elem?-at xs more x

-- The imports of each kind are kept as more are pushed.
record Grows (m later : Imports) : Type 0 where
  functions : IsPrefix m.functions later.functions
  tables : IsPrefix m.tables later.tables
  memories : IsPrefix m.memories later.memories
  globals : IsPrefix m.globals later.globals
  exception_types : IsPrefix m.exception_types later.exception_types

grows_refl : (m : Imports) → Grows m m
grows_refl m = record {
  functions = prefix_refl m.functions;
  tables = prefix_refl m.tables;
  memories = prefix_refl m.memories;
  globals = prefix_refl m.globals;
  exception_types = prefix_refl m.exception_types;
}

grows_before : (i : AnyImport) (m later : Imports) → Grows (push_import i m) later → Grows m later
grows_before (AnyImport.function i) m later g = record {
  functions = prefix_after _ _ _ g.functions;
  tables = g.tables;
  memories = g.memories;
  globals = g.globals;
  exception_types = g.exception_types;
}
grows_before (AnyImport.table i) m later g = record {
  functions = g.functions;
  tables = prefix_after _ _ _ g.tables;
  memories = g.memories;
  globals = g.globals;
  exception_types = g.exception_types;
}
grows_before (AnyImport.memory i) m later g = record {
  functions = g.functions;
  tables = g.tables;
  memories = prefix_after _ _ _ g.memories;
  globals = g.globals;
  exception_types = g.exception_types;
}
grows_before (AnyImport.global i) m later g = record {
  functions = g.functions;
  tables = g.tables;
  memories = g.memories;
  globals = prefix_after _ _ _ g.globals;
  exception_types = g.exception_types;
}
grows_before (AnyImport.exception_type i) m later g = record {
  functions = g.functions;
  tables = g.tables;
  memories = g.memories;
  globals = g.globals;
  exception_types = prefix_after _ _ _ g.exception_types;
}

push_all-Grows : (all : List AnyImport) (m : Imports) → Grows m (push_all all m)
unfolding push_all
push_all-Grows [] m = grows_refl m
push_all-Grows (i ∷ others) m = grows_before i m _ (push_all-Grows others (push_import i m))

-- Where an import is put.
abbrev place : AnyImport → Imports → KindAndIndex
place (AnyImport.function i) m = kind_and_index ExternKind.function (length m.functions)
place (AnyImport.table i) m = kind_and_index ExternKind.table (length m.tables)
place (AnyImport.memory i) m = kind_and_index ExternKind.memory (length m.memories)
place (AnyImport.global i) m = kind_and_index ExternKind.global (length m.globals)
place (AnyImport.exception_type i) m =
    kind_and_index ExternKind.exception_type (length m.exception_types)

-- An import is found again where it was put.
write_import_found :
    (i : AnyImport) (m later : Imports)
    → Grows (push_import i m) later
    → write_import later (place i m) ≡ write_any i
write_import_found (AnyImport.function i) m later g =
    ap (write_found ExternKind.function (write_uint var_uint32_of_u32))
      (get_elem?-prefix m.functions i _ g.functions)
write_import_found (AnyImport.table i) m later g =
    ap (write_found ExternKind.table write_table_type) (get_elem?-prefix m.tables i _ g.tables)
write_import_found (AnyImport.memory i) m later g =
    ap (write_found ExternKind.memory write_memory_type)
      (get_elem?-prefix m.memories i _ g.memories)
write_import_found (AnyImport.global i) m later g =
    ap (write_found ExternKind.global write_global_type) (get_elem?-prefix m.globals i _ g.globals)
write_import_found (AnyImport.exception_type i) m later g =
    ap (write_found ExternKind.exception_type write_exception_type)
      (get_elem?-prefix m.exception_types i _ g.exception_types)

unfoldable pub places : List AnyImport → Imports → List KindAndIndex
places [] m = []
places (i ∷ others) m = place i m ∷ places others (push_import i m)

pub write_imports-places :
    (all : List AnyImport) (m : Imports)
    → write_imports (push_all all m) (places all m) ≡ write_each all
unfolding write_imports push_all places write_each
write_imports-places [] m = refl
write_imports-places (i ∷ others) m =
    let g = push_all-Grows others (push_import i m) in
    rw (write_import_found i m _ g, write_imports-places others (push_import i m)) refl

imports_pushed :
    (i : AnyImport) (m : Imports) → (push_import i m).imports ≡ m.imports ++ place i m ∷ []
imports_pushed (AnyImport.function i) m = refl
imports_pushed (AnyImport.table i) m = refl
imports_pushed (AnyImport.memory i) m = refl
imports_pushed (AnyImport.global i) m = refl
imports_pushed (AnyImport.exception_type i) m = refl

pub imports-push_all :
    (all : List AnyImport) (m : Imports) → (push_all all m).imports ≡ m.imports ++ places all m
unfolding push_all places
imports-push_all [] m = sym (append-nil m.imports)
imports-push_all (i ∷ others) m =
    imports-push_all others (push_import i m)
    ∙ ap (λ l. l ++ places others (push_import i m)) (imports_pushed i m)
    ∙ append_assoc m.imports (place i m ∷ []) (places others (push_import i m))

num_imports-push :
    (i : AnyImport) (m : Imports) → num_imports (push_import i m) ≡ suc (num_imports m)
num_imports-push (AnyImport.function i) m = omega (arith, length-append m.functions (i ∷ []))
num_imports-push (AnyImport.table i) m = omega (arith, length-append m.tables (i ∷ []))
num_imports-push (AnyImport.memory i) m = omega (arith, length-append m.memories (i ∷ []))
num_imports-push (AnyImport.global i) m = omega (arith, length-append m.globals (i ∷ []))
num_imports-push (AnyImport.exception_type i) m =
    omega (arith, length-append m.exception_types (i ∷ []))

pub num_imports-push_all :
    (all : List AnyImport) (m : Imports) → num_imports (push_all all m) ≡ num_imports m + length all
unfolding push_all
num_imports-push_all [] m = omega arith
num_imports-push_all (i ∷ others) m =
    num_imports-push_all others (push_import i m) ∙ omega (arith, num_imports-push i m)

pub length-places : (all : List AnyImport) (m : Imports) → length (places all m) ≡ length all
unfolding places
length-places [] m = refl
length-places (i ∷ others) m = ap suc (length-places others (push_import i m))
