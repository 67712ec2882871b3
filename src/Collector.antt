-- ===== src/Collector.antt =====
-- src/memory.c: the garbage collector. An object is a cell of the heap and its address is its index;
-- an address outside the heap belongs to no object, and marking it does nothing. `objects` is the
-- linked list of the objects that a sweep visits.
pub mod Roots
pub mod Marking
pub mod Walk
pub mod References
pub mod Tracing
pub mod Barrier
pub mod Sweeping
pub mod Collect
pub mod Safety
use xan.Base.{
  ℕ, zero, suc, ◌+◌, ◌-◌, Bool, true, false, not, List, [], ◌∷◌, ◌++◌, Option, none, some, ◌>>=◌,
  if◌then◌else◌, get_or, set, length,
}
use xan.Value.{Value, nil, bool, number, obj, Number, Strings}
use xan.Table.{Table, table_remove_white}
use xan.Collector.Roots.{Slot, walk}

-- A pointer to an object, or NULL.
abbrev pub Pointer : Type 0
Pointer = Option ℕ

-- What a collection reads of a `Compiler`: `name`, `chunk.constants` and `chunk.constantIndices`.
pub record CompilerRoots : Type 0 where
  pub name : Pointer
  pub constants : Pointer
  pub constant_indices : Pointer

-- `thread`. The stack is its cells below `stackTop`.
pub record Thread (D : Type 0) : Type 0 where
  pub stack : List (Slot D)
  pub base : ℕ
  pub exception : Value D
  pub open_upvalues : List ℕ
  pub compilers : List CompilerRoots
  pub class_compilers : List Pointer

-- The objects, with the fields that a collection reads.
pub data Body (D : Type 0) : Type 0 where
  array_body : Pointer → Pointer → List (Value D) → Body D
  bound_method_body : Value D → Pointer → Body D
  class_body : Pointer → Pointer → Body D
  closure_body : Pointer → List Pointer → Body D
  function_body : Pointer → Pointer → Pointer → Body D
  instance_body : Pointer → Pointer → Body D
  module_body : Pointer → Pointer → Pointer → Body D
  table_body : Table D → Body D
  upvalue_body : Value D → Body D
  exception_body : Pointer → Pointer → Value D → Body D
  string_body : Pointer → Pointer → Body D
  thread_body : Thread D → Body D
  native_body : Body D

pub record Object (D : Type 0) : Type 0 where
  pub is_black : Bool
  pub is_grey : Bool
  pub body : Body D

-- The gray stack has its top first.
pub record Heap (D : Type 0) : Type 0 where
  pub cells : List (Object D)
  pub objects : List ℕ
  pub gray_stack : List ℕ

-- The fields of the virtual machine that point to objects. The table of strings holds its entries weakly, and `markRoots` passes over `builtinMods`.
pub record Machine : Type 0 where
  pub init_string : Pointer
  pub new_string : Pointer
  pub globals : Pointer
  pub builtin_mods : Pointer
  pub strings : Pointer
  pub base_thread : Pointer

-- The argument of `markObject` for a value, as in `markValue`.
abbrev pub target : {D : Type 0} → Value D → Pointer
target nil = none
target (bool b) = none
target (number d) = none
target (obj p) = some p

abbrev pub targets : {D : Type 0} → List (Value D) → List Pointer
targets [] = []
targets (v ∷ vs) = target v ∷ targets vs

abbrev pub pointers : List ℕ → List Pointer
pointers [] = []
pointers (a ∷ as') = some a ∷ pointers as'

abbrev pub compiler_targets : List CompilerRoots → List Pointer
compiler_targets [] = []
compiler_targets (c ∷ cs) = c.name ∷ c.constants ∷ c.constant_indices ∷ compiler_targets cs

module _ {D : Type 0} where
  -- What `markThread` marks, in its order.
  unfoldable pub thread_targets : Thread D → List Pointer
  thread_targets t =
      targets (walk t.stack t.base)
      ++ target t.exception ∷ pointers t.open_upvalues
      ++ compiler_targets t.compilers
      ++ t.class_compilers

  -- What `blackenObject` marks, in its order.
  unfoldable pub body_targets : Body D → List Pointer
  unfolding thread_targets
  body_targets (array_body klass fields values) = klass ∷ fields ∷ targets values
  body_targets (bound_method_body receiver method) = target receiver ∷ method ∷ []
  body_targets (class_body name methods) = name ∷ methods ∷ []
  body_targets (closure_body f upvalues) = f ∷ upvalues
  body_targets (function_body name constants constant_indices) =
      name ∷ constants ∷ constant_indices ∷ []
  body_targets (instance_body klass fields) = klass ∷ fields ∷ []
  body_targets (module_body name fields klass) = name ∷ fields ∷ klass ∷ []
  body_targets (table_body t) = targets t.entries
  body_targets (upvalue_body closed) = target closed ∷ []
  body_targets (exception_body klass fields msg) = klass ∷ fields ∷ target msg ∷ []
  body_targets (string_body klass fields) = klass ∷ fields ∷ []
  body_targets (thread_body t) = thread_targets t
  body_targets native_body = []

  -- The object at an address.
  abbrev pub no_object : Object D
  no_object = record { is_black = true; is_grey = true; body = native_body }

  abbrev pub object_at : Heap D → ℕ → Object D
  object_at h a = get_or h.cells a no_object

  abbrev pub put_object : Heap D → ℕ → Object D → Heap D
  put_object h a o = record h { cells = set h.cells a o }

  abbrev push_gray : Heap D → ℕ → Heap D
  push_gray h a = record h { gray_stack = a ∷ h.gray_stack }

  unfoldable pub mark_object : Heap D → Pointer → Heap D
  mark_object h none = h
  mark_object h (some a) =
      let o = object_at h a in
      if o.is_black then h else push_gray (put_object h a (record o { is_black = true })) a

  unfoldable pub mark_all : Heap D → List Pointer → Heap D
  unfolding mark_object
  mark_all h [] = h
  mark_all h (p ∷ ps) = mark_all (mark_object h p) ps

  unfoldable pub blacken_object : Heap D → ℕ → Heap D
  unfolding mark_all body_targets
  blacken_object h a =
      let o = object_at h a in
      mark_all (put_object h a (record o { is_grey = false })) (body_targets o.body)

  -- The loop of `traceReferences`.
  unfoldable pub trace : ℕ → Heap D → Option (Heap D)
  unfolding blacken_object
  trace zero h = elim h.gray_stack [ [] ↦ some h | _ ∷ _ ↦ none ]
  trace (suc fuel) h = elim h.gray_stack [
    | [] ↦ some h
    | a ∷ rest ↦ trace fuel (blacken_object (record h { gray_stack = rest }) a)
  ]

  -- A round takes an object from the gray stack, and an object is pushed when it turns black.
  unfoldable pub trace_references : Heap D → Option (Heap D)
  unfolding trace
  trace_references h = trace (length h.cells + length h.gray_stack) h

  -- The table of strings turns black without its entries.
  abbrev pub blacken_only : Heap D → Pointer → Heap D
  blacken_only h none = h
  blacken_only h (some a) = put_object h a (record (object_at h a) { is_black = true })

  unfoldable pub mark_roots : Heap D → Machine → Heap D
  unfolding mark_all mark_object
  mark_roots h vm =
      mark_object
        (blacken_only (mark_all h (vm.init_string ∷ vm.new_string ∷ vm.globals ∷ [])) vm.strings)
        vm.base_thread

  -- `setGrey`, and `writeBarrier`, which calls it on an object that is not grey.
  unfoldable pub set_grey : Heap D → ℕ → Heap D
  set_grey h a =
      let o = object_at h a in
      let h' = put_object h a (record o { is_grey = true }) in
      if o.is_black then push_gray h' a else h'

  unfoldable pub write_barrier : Heap D → ℕ → Heap D
  unfolding set_grey
  write_barrier h a = if (object_at h a).is_grey then h else set_grey h a

  -- `allocateObject`: the new object is the first of the list.
  unfoldable pub allocate_object : Heap D → Body D → ℕ × Heap D
  allocate_object h body =
      let a = length h.cells in
      (
        a,
        record h {
          cells = h.cells ++ record { is_black = false; is_grey = true; body = body } ∷ [];
          objects = a ∷ h.objects;
        },
      )

  -- The loop of `sweep` over the list of objects: the heap, and the objects that are freed.
  unfoldable pub sweep_from : Bool → List ℕ → Heap D → Heap D × List ℕ
  sweep_from major [] h = (record h { objects = [] }, [])
  sweep_from major (a ∷ as') h =
      let o = object_at h a in
      let kept =
        sweep_from major as'
          (if major then put_object h a (record o { is_black = false }) else h) in
      let dropped = sweep_from major as' h in
      if o.is_black
      then (record kept.0 { objects = a ∷ kept.0.objects }, kept.1)
      else (dropped.0, a ∷ dropped.1)

  unfoldable pub sweep : Bool → Heap D → Heap D × List ℕ
  unfolding sweep_from
  sweep major h = sweep_from major h.objects h

module _ (N : Number) (S : Strings) where
  -- `tableRemoveWhite(vm->strings)`, where `strings` is NULL or a table.
  unfoldable pub remove_from_body : Heap N.Double → ℕ → Body N.Double → Option (Heap N.Double)
  remove_from_body h a body = elim body [
    | table_body t ↦ do
      t' ← table_remove_white N S (λ p. not (object_at h p).is_black) t
      some (put_object h a (record (object_at h a) { body = table_body t' }))
    | _ ↦ some h
  ]

  unfoldable pub remove_white_strings : Heap N.Double → Pointer → Option (Heap N.Double)
  unfolding remove_from_body
  remove_white_strings h none = some h
  remove_white_strings h (some a) = remove_from_body h a (object_at h a).body

  -- `collectGarbage`: the heap and the objects that are freed. The next collection is a major one if
  -- the allocated bytes exceed their limit.
  unfoldable pub collect_garbage : Heap N.Double → Machine → Bool → Option (Heap N.Double × List ℕ)
  unfolding trace_references mark_roots remove_white_strings sweep
  collect_garbage h vm next_gc_is_major = do
    traced ← trace_references (mark_roots h vm)
    cleaned ← remove_white_strings traced vm.strings
    some (sweep next_gc_is_major cleaned)
