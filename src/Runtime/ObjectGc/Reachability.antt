-- ===== src/Runtime/ObjectGc/Reachability.antt =====
-- A collection as a whole: what it deletes.
use wavm.Prelude.{ℕ}
use wavm.Runtime.ObjectGc.{Compartment, candidates}
use wavm.Runtime.ObjectGc.Separate.{addresses, AreDistinct}
use wavm.Runtime.ObjectGc.Scan.{IsScannable}
use wavm.Runtime.ObjectGc.Pointers.{IsObject}

-- What a compartment must be for the collector's assertions: each object stands in it once, and
-- is of a kind that is scanned, in this compartment, with functions of allocated instances.
pub record IsCompartment (c : Compartment) : Type 0 where
  pub distinct : AreDistinct (addresses (candidates c))
  pub scannable : (x : ℕ) → IsObject c x → IsScannable c x
