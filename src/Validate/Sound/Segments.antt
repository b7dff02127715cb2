-- ===== src/Validate/Sound/Segments.antt =====
-- The sections that read types by index, on a well-indexed module.
use wavm.Prelude.{
  ℕ, refl, true, false, List, [], ◌∷◌, arith, leb, get_elem?-some, Bool-cases, inl, inr, ◌≢◌,
}
use wavm.Ir.Module.{
  Module, Export, Name, GlobalDef, DataSegment, ElemExpr, ElemContents, ElemMode, ElemSegment,
  InitializerExpression, space_size, get_type-some,
}
use wavm.Ir.Types.{ValueType, ExternKind, ReferenceType, index_value_type}
use wavm.Validate.Keeps.References.{
  IsIndexed, validate_global_index-Checks, validate_function_index-Checks,
}
use wavm.Validate.References.{Declared, validate_initializer}
use wavm.Validate.Result.{
  ValidationException, Result, ok, invalid, fault, ◌>>=◌, ◌>>◌, validate_unless,
}
use wavm.Validate.Sections.{
  validate_global_defs, validate_export_index, validate_exports, contains_name,
  validate_start_function,
}
use wavm.Validate.Segments.{
  validate_elem_encoding, validate_elem_mode, validate_elem_exprs, validate_elem_index,
  validate_elem_indices, validate_elem_contents, validate_elem_segments, validate_data_segment,
  validate_data_segments,
}
use wavm.Validate.Types.{validate_type, validate_global_type, validate_extern_kind}
use wavm.Validate.Sound.Imports.{Every}
use wavm.Validate.Sound.Sections.{Passes, Passes-bind, Passes-each, validate_global_type-Passes}

-- No expression of the elements is the default one, on which validation reaches unreachable code.
abbrev pub HasElems : ElemContents → Type 0
HasElems (ElemContents.expr type exprs) = Every (λ elem. elem ≢ ElemExpr.invalid) exprs
HasElems (ElemContents.index kind indices) = Unit

module _ (m : Module) (v : IsIndexed m) where
  validate_initializer-Passes :
      (initializer : InitializerExpression) (type : ValueType)
      → Passes (validate_initializer m initializer type)
  unfolding validate_initializer validate_type
  validate_initializer-Passes (InitializerExpression.global_get i) type =
      Passes-bind _ _ (validate_global_index-Checks m i false true true) λ _. ground arith
  validate_initializer-Passes (InitializerExpression.ref_func i) type =
      Passes-bind _ _ (validate_function_index-Checks m i v) λ _. ground arith
  validate_initializer-Passes initializer type = ground arith

  pub validate_global_defs-Passes :
      (defs : List GlobalDef) (declared : Declared) → Passes (validate_global_defs m defs declared)
  unfolding validate_global_defs
  validate_global_defs-Passes [] declared = tt
  validate_global_defs-Passes (def ∷ defs) declared =
      Passes-bind (validate_global_type m def.type) _ (validate_global_type-Passes m def.type v.mvp)
        λ _.
          Passes-bind (validate_initializer m def.initializer def.type.value_type) _
            (validate_initializer-Passes def.initializer def.type.value_type)
            λ _. validate_global_defs-Passes defs _

  -- `ExternKind.invalid` is refused before the `switch` on it.
  validate_export-Passes :
      (kind : ExternKind) (i : ℕ) (declared : Declared)
      → Passes (validate_extern_kind m kind >> validate_export_index m kind i declared)
  unfolding validate_extern_kind validate_export_index
  validate_export-Passes ExternKind.global i declared =
      Passes-bind _ _ (validate_global_index-Checks m i false _ false) λ _. tt
  validate_export-Passes kind i declared = ground arith

  pub validate_exports-Passes :
      (exports : List Export) (names : List Name) (declared : Declared)
      → Passes (validate_exports m exports names declared)
  unfolding validate_exports
  validate_exports-Passes [] names declared = tt
  validate_exports-Passes (x ∷ exports) names declared =
      go (validate_extern_kind m x.kind) (validate_export_index m x.kind x.index declared)
        (λ added.
          validate_unless ValidationException.duplicate_export (contains_name names x.name)
          >> validate_exports m exports (x.name ∷ names) added)
        (validate_export-Passes x.kind x.index declared)
        λ added.
          let rest = validate_exports-Passes exports (x.name ∷ names) added in ground (arith, rest)
    where
      go :
          {A B : Type 0} (r : Result (Unit {0})) (q : Result A) (f : A → Result B)
          → Passes (r >> q)
          → ((a : A) → Passes (f a))
          → Passes (r >>= λ _. q >>= f)
      go (ok a) q f h k = Passes-bind q _ h k
      go (invalid e) q f h k = tt
      go fault q f h k = h

  pub validate_start_function-Passes : Passes (validate_start_function m)
  unfolding validate_start_function
  validate_start_function-Passes =
      elim (Bool-cases (leb (space_size m.functions) m.start_function_index)) [
        | inl out ↦ ground arith
        | inr low ↦
            let (t, e) =
              get_type-some (λ d. d.type) m.functions m.start_function_index (ground arith) in
            let (type, k) =
              get_elem?-some m.types t (v.function_types m.start_function_index t e) in
            ground (arith, e, k)
      ]

  validate_elem_mode-Passes :
      (contents : ElemContents) (mode : ElemMode) → Passes (validate_elem_mode m contents mode)
  unfolding validate_elem_mode
  validate_elem_mode-Passes contents (ElemMode.active i offset) =
      elim (Bool-cases (leb (space_size m.tables) i)) [
        | inl out ↦ ground arith
        | inr low ↦
            let (t, e) = get_type-some (λ d. d) m.tables i (ground arith) in
            let q = validate_initializer-Passes offset (index_value_type t.index_type) in
            ground (arith, e, q)
      ]
  validate_elem_mode-Passes contents mode = ground arith

  validate_elem_exprs-Passes :
      (type : ReferenceType) (exprs : List ElemExpr) (declared : Declared)
      → Every (λ elem. elem ≢ ElemExpr.invalid) exprs
      → Passes (validate_elem_exprs m type exprs declared)
  unfolding validate_elem_exprs
  validate_elem_exprs-Passes type [] declared h = tt
  validate_elem_exprs-Passes type (ElemExpr.invalid ∷ exprs) declared h = absurd (h.0 refl)
  validate_elem_exprs-Passes type (ElemExpr.ref_null null_type ∷ exprs) declared h =
      let q = validate_elem_exprs-Passes type exprs declared h.1 in ground (arith, q)
  validate_elem_exprs-Passes type (ElemExpr.ref_func i ∷ exprs) declared h =
      let q =
        validate_elem_exprs-Passes type exprs
          (record { kind = ExternKind.function; index = i } ∷ declared) h.1 in
      ground (arith, q)

  validate_elem_indices-Passes :
      (kind : ExternKind) (indices : List ℕ) (declared : Declared)
      → kind ≢ ExternKind.invalid
      → Passes (validate_elem_indices m kind indices declared)
  unfolding validate_elem_indices validate_elem_index
  validate_elem_indices-Passes kind [] declared h = tt
  validate_elem_indices-Passes kind (i ∷ indices) declared h =
      Passes-bind (validate_elem_index m kind i) _ (one kind h)
        λ _. validate_elem_indices-Passes kind indices _ h
    where
      one : (kind : ExternKind) → kind ≢ ExternKind.invalid → Passes (validate_elem_index m kind i)
      one ExternKind.invalid h = absurd (h refl)
      one kind h = ground arith

  validate_elem_contents-Passes :
      (contents : ElemContents) (mode : ElemMode) (declared : Declared)
      → HasElems contents
      → Passes (
          validate_elem_encoding m contents
          >> (validate_elem_mode m contents mode >> validate_elem_contents m contents declared))
  unfolding validate_elem_encoding validate_elem_contents validate_extern_kind
  validate_elem_contents-Passes (ElemContents.expr type exprs) mode declared h =
      Passes-bind _ _ (validate_elem_mode-Passes (ElemContents.expr type exprs) mode)
        λ _. validate_elem_exprs-Passes type exprs declared h
  validate_elem_contents-Passes (ElemContents.index ExternKind.invalid indices) mode declared h = tt
  validate_elem_contents-Passes (ElemContents.index kind indices) mode declared h =
      let a = validate_elem_mode-Passes (ElemContents.index kind indices) mode in
      let b = validate_elem_indices-Passes kind indices declared (λ e. cc) in ground (arith, a, b)

  pub validate_elem_segments-Passes :
      (segments : List ElemSegment) (declared : Declared)
      → Every (λ segment. HasElems segment.contents) segments
      → Passes (validate_elem_segments m segments declared)
  unfolding validate_elem_segments
  validate_elem_segments-Passes [] declared h = tt
  validate_elem_segments-Passes (x ∷ segments) declared h =
      go (validate_elem_encoding m x.contents) (validate_elem_mode m x.contents x.mode)
        (validate_elem_contents m x.contents declared)
        (λ added. validate_elem_segments m segments added)
        (validate_elem_contents-Passes x.contents x.mode declared h.0)
        (λ added. validate_elem_segments-Passes segments added h.1)
    where
      go :
          {A B : Type 0} (r q : Result (Unit {0})) (p : Result A) (f : A → Result B)
          → Passes (r >> (q >> p))
          → ((a : A) → Passes (f a))
          → Passes (r >>= λ _. q >>= λ _. p >>= f)
      go (ok a) (ok b) p f h k = Passes-bind p f h k
      go (ok a) (invalid e) p f h k = tt
      go (ok a) fault p f h k = h
      go (invalid e) q p f h k = tt
      go fault q p f h k = h

  validate_data_segment-Passes : (x : DataSegment) → Passes (validate_data_segment m x)
  unfolding validate_data_segment
  validate_data_segment-Passes x = elim (Bool-cases (leb (space_size m.memories) x.memory_index)) [
    | inl out ↦ ground arith
    | inr low ↦
        let (t, e) = get_type-some (λ d. d) m.memories x.memory_index (ground arith) in
        let q = validate_initializer-Passes x.base_offset (index_value_type t.index_type) in
        ground (arith, e, q)
  ]

  pub validate_data_segments-Passes : Passes (validate_data_segments m)
  unfolding validate_data_segments
  validate_data_segments-Passes =
      Passes-each (validate_data_segment m) m.data_segments validate_data_segment-Passes
