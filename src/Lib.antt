-- ===== src/Lib.antt =====
-- WAVM, a WebAssembly virtual machine.
--
-- The development is about the part of WAVM that decides whether a module may be compiled at all,
-- the IR library and its validator, about the byte and text codecs that its parsers use, and about
-- the bookkeeping of the runtime. The C++ code hands a module from a parser to the validator, whose
-- result the runtime and the code generator rely on: they assert what it has checked.
--
-- Features and types:
--   Ir/Features    Include/WAVM/IR/FeatureSpec.h, Lib/IR/FeatureSpec.cpp: the groups of features,
--                  and `setFeatureLevel`
--   Ir/Types       Include/WAVM/IR/Types.h, IR.h: value, reference, tuple, function, table, memory
--                  and global types with `isSubtype` and `isSubset`; Ir/Types/Subtyping has the laws
--   Ir/Operators   Include/WAVM/IR/Operators.h, OperatorSignatures.h: immediates and signatures. An
--                  operator that no handler of its own validates is `plain`, with its table row
--   Ir/Module      Include/WAVM/IR/Module.h: a module's definitions and its index spaces
--
-- The validator, Lib/IR/Validate.cpp and Include/WAVM/IR/Validate.h:
--   Validate/Result      `ValidationException` and the macros; `fault` stands for an assertion that
--                        fails, unreachable code, and a vector read out of range
--   Validate/Types, References, Sections, Segments
--                        the checks of a module, in the order of `validatePreCodeSections`, and
--                        `validate_module`, the sequence of calls that validates a whole module
--   Validate/State       `FunctionValidationContext`: its operand and control stacks, and the
--                        private helpers on them, in a state and exception monad
--   Validate/Imms, Control, Parametric
--                        `validateImm`, the signatures of operators, and a handler per operator
--   Validate/Function    the constructor, the visitor, `finish`, `validateCodeSection`
--   Validate/Keeps       a logic for handlers: what each keeps of the enclosing structures
--   Validate/Pops        what is taken off the operand stack
--   Validate/Nesting     the invariant of the two stacks, of an operator, of a body, of a function
--   Validate/Sound       the sections and the whole module
--
-- Text and bytes:
--   Inline/Serialization Include/WAVM/Inline/Serialization.h: streams, and what it means that a
--                        deserializer reads what a serializer wrote, and refuses any shorter part of it
--                        (Serialization/Reads)
--   Inline/Leb128        Include/WAVM/Inline/LEB128.h: variable-length integers; Leb128/Formats has
--                        the formats of the binary format
--   Inline/IndexMap      Include/WAVM/Inline/IndexMap.h: the allocation of indices
--   Inline/Unicode       Include/WAVM/Inline/Unicode.h: UTF-8 and UTF-16
--
-- The binary format, Lib/WASM/WASMSerialization.cpp. A function template on the stream is two
-- functions here, `write_...` and `read_...`:
--   Wasm/Types, Definitions, Initializers, Segments
--                        types, names and exports, initializer expressions and globals, segments
--   Wasm/Imports         the import section, with the index spaces that it fills
--   Wasm/Sections        the framing of a section, and the other sections but code and custom ones
--   The RoundTrip module of each is about reading back what was written.
--
-- The runtime:
--   Runtime/Quota        `ResourceQuota::CurrentAndMax` of Lib/Runtime/RuntimePrivate.h
--   Runtime/Memory       Lib/Runtime/Memory.cpp: `growMemory` and the checks of address ranges. The
--                        outcome of `Platform::commitVirtualPages` is a parameter; the contents, the
--                        creation and the destruction of memories are not modelled
--   Runtime/ObjectGc     Lib/Runtime/ObjectGC.cpp: the collector of a compartment's objects.
--                        ObjectGc/Visits is about one object and Scan about the loop. ObjectGc/Pointers
--                        says what stands in a compartment, what the host holds and what points to what;
--                        Held, Candidates, Roots and Separate compare the collector's references and
--                        first state with that, and Reachability is about a whole collection
--   Runtime/Linker       `linkModule` of Lib/Runtime/Linker.cpp, `isA` of Lib/Runtime/Runtime.cpp. The host's
--                        resolver is a parameter: a function that may change a state of its own
--
-- Tests runs the model on small inputs. Prelude passes library names on.
--
-- Vectors are lists. The operand and control stacks have the last element of the vector first.
-- Hash sets are lists of what was added. The loops of the validator are structural recursion; the
-- loops over code points run on fuel, the length of the string, and each turn consumes a character. The
-- loop that writes a LEB128 number has ten rounds, as many as a number of 64 bits has digits, and
-- the loop of the collector as many as there are objects. The loop of `IndexMap::add` is given its
-- number of rounds, as many as there are indices where a free one is to be found.
--
-- Not modelled: the code generator (calls of LLVM), the platform layer and the hosts (system
-- calls), third-party code, the rest of the runtime, the text format,
-- function bodies in the binary format, its custom sections and the loop over sections, tracing and the texts of
-- error messages beyond the reason. The bytes of encoded operators are not modelled either: the
-- validator receives operators, and a theorem that needs it assumes that a `br_table` names a branch
-- table of its function and that an operator's immediate is the one that its signature reads. Three
-- assertions on a caller are left out: that a memory has a base address, and the bounds of the code
-- points that are encoded, which hold of scalar values.
pub mod Prelude
pub mod Ir
pub mod Inline
pub mod Validate
pub mod Runtime
pub mod Wasm
pub mod Tests
