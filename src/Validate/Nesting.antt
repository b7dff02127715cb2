-- ===== src/Validate/Nesting.antt =====
-- How each operator of a body moves the control stack and the operand stack.
pub mod Bodies
pub mod Functions
use wavm.Prelude.{
  ℕ, ◌+◌, ◌≤◌, ◌<◌, ◌≡◌, refl, sym, ap, ◌∙◌, List, [], ◌∷◌, ◌++◌, length, arith, true, false, Bool,
}
use wavm.Ir.Module.{FunctionDef}
use wavm.Ir.Operators.{Op}
use wavm.Ir.Types.{ValueType, TypeTuple}
use wavm.Validate.Control as C
use wavm.Validate.Function.{dispatch, visit, validate_non_empty_control_stack, visit_all}
use wavm.Validate.Keeps.{Safe, SameFrame, Within, Keeps, enter_unreachable-Keeps}
use wavm.Validate.Keeps.Branches as B
use wavm.Validate.Keeps.End.{Closed, after_end, end-Closes}
use wavm.Validate.Keeps.Immediates.{Fits, HasShape}
use wavm.Validate.Keeps.Leads.{Opened, Leads, pushed, pushed-append}
use wavm.Validate.Keeps.Parametric as P
use wavm.Validate.Keeps.References.{IsIndexed}
use wavm.Validate.Keeps.Steps.{drop-Keeps}
use wavm.Validate.Keeps.Structure as S
use wavm.Validate.Result.{Result, ok, invalid, fault}
use wavm.Validate.State.{ControlContext, Context, State, V}

-- What an operator does to the nesting of control structures.
pub data Bracket : Type 0 where
  opens inner closes : Bracket

abbrev pub bracket : Op → Bracket
bracket (Op.block type) = Bracket.opens
bracket (Op.loop type) = Bracket.opens
bracket (Op.if_ type) = Bracket.opens
bracket (Op.try_ type) = Bracket.opens
bracket Op.end = Bracket.closes
bracket op = Bracket.inner

-- The immediates are such as the encoder writes: a `br_table` names a branch table of its
-- function, and an operator of the table has an immediate of the type that its signature takes.
abbrev pub IsEncoded : FunctionDef → Op → Type 0
IsEncoded def (Op.br_table depth table) = table < length def.branch_tables
IsEncoded def (Op.plain f sig imm) = Fits sig imm × HasShape imm
IsEncoded def op = Unit

-- Where an operator leads from inside the structure `c`.
abbrev pub After : Bracket → ControlContext → List ControlContext → List ValueType → State → Type 0
After Bracket.opens c cs base = Opened c cs base
After Bracket.inner c cs base = Within c cs base
After Bracket.closes c cs base = Closed c cs base

module _ (ctx : Context) (c : ControlContext) (cs : List ControlContext)
    (base : List ValueType) where
  kept :
      {m : V (Unit {0})} → Keeps c cs base (λ _. Unit {0}) m → Leads c cs base (Within c cs base) m
  kept {m = m} h = record { run = λ s w. go (m s) (h.run s w) }
    where
      go :
          (r : Result (Unit {0} × State))
          → Safe (λ a s'. Unit {0} × Within c cs base s') r
          → Safe (λ _ s'. Within c cs base s') r
      go (ok (a, s')) q = q.1
      go (invalid e) q = tt
      go fault q = q

  dispatch-After :
      (op : Op)
      → IsIndexed ctx.ir
      → IsEncoded ctx.function_def op
      → Leads c cs base (After (bracket op) c cs base) (dispatch ctx op)
  unfolding dispatch
  dispatch-After (Op.block type) v h = S.block-Opens c cs base ctx v type
  dispatch-After (Op.loop type) v h = S.loop-Opens c cs base ctx v type
  dispatch-After (Op.if_ type) v h = S.if-Opens c cs base ctx v type
  dispatch-After (Op.try_ type) v h = S.try-Opens c cs base ctx v type
  dispatch-After Op.else_ v h = kept (S.else-Keeps c cs base ctx v)
  dispatch-After Op.end v h = end-Closes ctx c cs base
  dispatch-After Op.catch_all v h = kept (S.catch_all-Keeps c cs base ctx v)
  dispatch-After (Op.catch_ i) v h = kept (S.catch_-Keeps c cs base ctx v i)
  dispatch-After Op.unreachable v h = kept (enter_unreachable-Keeps c cs base)
  dispatch-After Op.return_ v h = kept (B.return-Keeps ctx c cs base)
  dispatch-After Op.drop v h = kept (drop-Keeps ctx c cs base ValueType.any)
  dispatch-After Op.ref_is_null v h = kept (P.ref_is_null-Keeps ctx v c cs base)
  dispatch-After (Op.br depth) v h = kept (B.br-Keeps ctx c cs base depth)
  dispatch-After (Op.br_if depth) v h = kept (B.br_if-Keeps ctx c cs base depth)
  dispatch-After (Op.br_table depth table) v h = kept (B.br_table-Keeps ctx c cs base depth table h)
  dispatch-After (Op.call i) v h = kept (P.call-Keeps ctx v c cs base i)
  dispatch-After (Op.call_indirect t i) v h = kept (P.call_indirect-Keeps ctx v c cs base t i)
  dispatch-After (Op.local_get i) v h = kept (P.local_get-Keeps ctx v c cs base i)
  dispatch-After (Op.local_set i) v h = kept (P.local_set-Keeps ctx v c cs base i)
  dispatch-After (Op.local_tee i) v h = kept (P.local_tee-Keeps ctx v c cs base i)
  dispatch-After (Op.global_get i) v h = kept (P.global_get-Keeps ctx v c cs base i)
  dispatch-After (Op.global_set i) v h = kept (P.global_set-Keeps ctx v c cs base i)
  dispatch-After (Op.table_get i) v h = kept (P.table_get-Keeps ctx v c cs base i)
  dispatch-After (Op.table_set i) v h = kept (P.table_set-Keeps ctx v c cs base i)
  dispatch-After (Op.table_grow i) v h = kept (P.table_grow-Keeps ctx v c cs base i)
  dispatch-After (Op.table_fill i) v h = kept (P.table_fill-Keeps ctx v c cs base i)
  dispatch-After (Op.throw_ i) v h = kept (P.throw-Keeps ctx v c cs base i)
  dispatch-After (Op.rethrow depth) v h = kept (P.rethrow-Keeps ctx v c cs base depth)
  dispatch-After (Op.ref_null type) v h = kept (P.ref_null-Keeps ctx v c cs base type)
  dispatch-After (Op.select type) v h = kept (P.select-Keeps ctx v c cs base type)
  dispatch-After (Op.plain f sig imm) v h = kept (P.plain-Keeps ctx v c cs base f sig imm h.0 h.1)

  -- An encodable operator visited inside the structure `c`, whose operands stand on `base`, in a
  -- well-indexed module, fails no assertion. If it is accepted, then: an operator that opens a structure opens one around the
  -- operands there were; one that neither opens nor closes keeps `base`, the structures around
  -- `c`, and the label types of `c`; and `end` leaves the structures around `c`, with the results
  -- of `c` on `base`.
  pub visit-After :
      (op : Op) (s : State)
      → IsIndexed ctx.ir
      → IsEncoded ctx.function_def op
      → Within c cs base s
      → Safe (λ _ s'. After (bracket op) c cs base s') (visit ctx op s)
  unfolding visit
  visit-After op s v h w = rw w.control (
      (dispatch-After op v h).run _ (record {
        inner = w.inner;
        own = w.own;
        control = refl;
        operands = w.operands;
        same = w.same;
        height = w.height;
      }))
