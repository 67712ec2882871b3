-- ===== src/Collector/References.antt =====
-- src/type.h: the objects that an object refers to by its fields, and that these are the pointers that
-- `blackenObject` of src/memory.c marks.
use mathlib.Core.List.{append_assoc}
use xan.Base.{
  some-injective, ℕ, ◌≤◌, ◌≡◌, refl, sym, ap, ◌⊎◌, inl, inr, List, [], ◌∷◌, ◌++◌, some, length,
  IsIn, IsIn-append, IsIn-left, IsIn-right,
}
use xan.Value.{Value, nil, bool, number, obj}
use xan.Collector.Roots.{value, walk}
use xan.Collector.Walk.{IsLinked, cell, walk-Found, walk-IsLinked}
use xan.Collector.{
  Pointer, CompilerRoots, Thread, Body, array_body, bound_method_body, class_body, closure_body,
  function_body, instance_body, module_body, table_body, upvalue_body, exception_body, string_body,
  thread_body, native_body, target, targets, pointers, compiler_targets, thread_targets,
  body_targets,
}

-- The objects that a compiler refers to.
abbrev CompilerRefers : List CompilerRoots → ℕ → Type 0
CompilerRefers cs a =
    (c : CompilerRoots) × IsIn c cs
    × ((c.name ≡ some a) ⊎ ((c.constants ≡ some a) ⊎ (c.constant_indices ≡ some a)))

module _ {D : Type 0} where
  -- The objects that a thread refers to: by a cell of its stack, its exception, its open upvalues and
  -- its compilers.
  abbrev ThreadRefers : Thread D → ℕ → Type 0
  ThreadRefers t a =
      ((i : ℕ) × (cell t.stack i ≡ value (obj a)))
      ⊎ ((t.exception ≡ obj a)
          ⊎ (IsIn a t.open_upvalues
              ⊎ (CompilerRefers t.compilers a ⊎ IsIn (some a) t.class_compilers)))

  -- The objects that an object refers to, by the fields of its type.
  abbrev pub Refers : Body D → ℕ → Type 0
  Refers (array_body klass fields values) a =
      (klass ≡ some a) ⊎ ((fields ≡ some a) ⊎ IsIn (obj a) values)
  Refers (bound_method_body receiver method) a = (receiver ≡ obj a) ⊎ (method ≡ some a)
  Refers (class_body name methods) a = (name ≡ some a) ⊎ (methods ≡ some a)
  Refers (closure_body f upvalues) a = (f ≡ some a) ⊎ IsIn (some a) upvalues
  Refers (function_body name constants constant_indices) a =
      (name ≡ some a) ⊎ ((constants ≡ some a) ⊎ (constant_indices ≡ some a))
  Refers (instance_body klass fields) a = (klass ≡ some a) ⊎ (fields ≡ some a)
  Refers (module_body name fields klass) a =
      (name ≡ some a) ⊎ ((fields ≡ some a) ⊎ (klass ≡ some a))
  Refers (table_body t) a = IsIn (obj a) t.entries
  Refers (upvalue_body closed) a = closed ≡ obj a
  Refers (exception_body klass fields msg) a =
      (klass ≡ some a) ⊎ ((fields ≡ some a) ⊎ (msg ≡ obj a))
  Refers (string_body klass fields) a = (klass ≡ some a) ⊎ (fields ≡ some a)
  Refers (thread_body t) a = ThreadRefers t a
  Refers native_body a = ⊥

  -- The frames of a thread are linked.
  abbrev pub IsSound : Body D → Type 0
  IsSound b =
      (t : Thread D) → b ≡ thread_body t → IsLinked t.stack t.base × (t.base ≤ length t.stack)

  to_target : (v : Value D) (a : ℕ) → v ≡ obj a → some a ≡ target v
  to_target v a e = ap target (sym e)

  of_target : (v : Value D) (a : ℕ) → some a ≡ target v → v ≡ obj a
  of_target nil a e = cc
  of_target (bool b) a e = cc
  of_target (number d) a e = cc
  of_target (obj p) a e = ap obj (sym (some-injective e))

  to_targets : (vs : List (Value D)) (a : ℕ) → IsIn (obj a) vs → IsIn (some a) (targets vs)
  to_targets [] a i = elim i [ ]
  to_targets (v ∷ vs) a (inl e) = inl (to_target v a (sym e))
  to_targets (v ∷ vs) a (inr i) = inr (to_targets vs a i)

  of_targets : (vs : List (Value D)) (a : ℕ) → IsIn (some a) (targets vs) → IsIn (obj a) vs
  of_targets [] a i = elim i [ ]
  of_targets (v ∷ vs) a (inl e) = inl (sym (of_target v a e))
  of_targets (v ∷ vs) a (inr i) = inr (of_targets vs a i)

to_pointers : (as' : List ℕ) (a : ℕ) → IsIn a as' → IsIn (some a) (pointers as')
to_pointers [] a i = elim i [ ]
to_pointers (b ∷ as') a (inl e) = inl (ap some e)
to_pointers (b ∷ as') a (inr i) = inr (to_pointers as' a i)

of_pointers : (as' : List ℕ) (a : ℕ) → IsIn (some a) (pointers as') → IsIn a as'
of_pointers [] a i = elim i [ ]
of_pointers (b ∷ as') a (inl e) = inl (some-injective e)
of_pointers (b ∷ as') a (inr i) = inr (of_pointers as' a i)

to_compilers :
    (cs : List CompilerRoots) (a : ℕ) → CompilerRefers cs a → IsIn (some a) (compiler_targets cs)
to_compilers [] a (c, i, r) = elim i [ ]
to_compilers (d ∷ cs) a (c, inl e, inl r) = inl (sym (rw e at r))
to_compilers (d ∷ cs) a (c, inl e, inr (inl r)) = inr (inl (sym (rw e at r)))
to_compilers (d ∷ cs) a (c, inl e, inr (inr r)) = inr (inr (inl (sym (rw e at r))))
to_compilers (d ∷ cs) a (c, inr i, r) = inr (inr (inr (to_compilers cs a (c, i, r))))

of_compilers :
    (cs : List CompilerRoots) (a : ℕ) → IsIn (some a) (compiler_targets cs) → CompilerRefers cs a
of_compilers [] a i = elim i [ ]
of_compilers (d ∷ cs) a (inl e) = (d, inl refl, inl (sym e))
of_compilers (d ∷ cs) a (inr (inl e)) = (d, inl refl, inr (inl (sym e)))
of_compilers (d ∷ cs) a (inr (inr (inl e))) = (d, inl refl, inr (inr (sym e)))
of_compilers (d ∷ cs) a (inr (inr (inr i))) = let (c, j, r) = of_compilers cs a i in (c, inr j, r)

two : {a : ℕ} {p q : Pointer} → IsIn (some a) (p ∷ q ∷ []) → (p ≡ some a) ⊎ (q ≡ some a)
two (inl e) = inl (sym e)
two (inr (inl e)) = inr (sym e)
two (inr (inr n)) = elim n [ ]

three :
    {a : ℕ} {p q r : Pointer}
    → IsIn (some a) (p ∷ q ∷ r ∷ [])
    → (p ≡ some a) ⊎ ((q ≡ some a) ⊎ (r ≡ some a))
three (inl e) = inl (sym e)
three (inr i) = inr (two i)

module _ {D : Type 0} where
  thread_targets_lem :
      (t : Thread D)
      → thread_targets t
        ≡ targets (walk t.stack t.base)
          ++ (target t.exception
              ∷ (pointers t.open_upvalues ++ (compiler_targets t.compilers ++ t.class_compilers)))
  unfolding thread_targets
  thread_targets_lem t = rw (append_assoc, append_assoc) refl

  to_thread :
      (t : Thread D) (a : ℕ)
      → IsSound (thread_body t)
      → ThreadRefers t a
      → IsIn (some a) (thread_targets t)
  to_thread t a sound (inl found) =
      let (linked, on) = sound t refl in
      rw (thread_targets_lem t) (
        IsIn-left (some a) (targets (walk t.stack t.base)) _
          (to_targets (walk t.stack t.base) a ((walk-IsLinked t.stack t.base a linked on).1 found)))
  to_thread t a sound (inr (inl e)) =
      rw (thread_targets_lem t)
        (IsIn-right (some a) (targets (walk t.stack t.base)) _ (inl (to_target t.exception a e)))
  to_thread t a sound (inr (inr (inl i))) = rw (thread_targets_lem t) (
      IsIn-right (some a) (targets (walk t.stack t.base)) _
        (inr (IsIn-left (some a) (pointers t.open_upvalues) _ (to_pointers t.open_upvalues a i))))
  to_thread t a sound (inr (inr (inr (inl r)))) = rw (thread_targets_lem t) (
      IsIn-right (some a) (targets (walk t.stack t.base)) _ (
        inr (
          IsIn-right (some a) (pointers t.open_upvalues) _
            (IsIn-left (some a) (compiler_targets t.compilers) _ (to_compilers t.compilers a r)))))
  to_thread t a sound (inr (inr (inr (inr i)))) = rw (thread_targets_lem t) (
      IsIn-right (some a) (targets (walk t.stack t.base)) _ (
        inr (
          IsIn-right (some a) (pointers t.open_upvalues) _
            (IsIn-right (some a) (compiler_targets t.compilers) _ i))))

  of_thread : (t : Thread D) (a : ℕ) → IsIn (some a) (thread_targets t) → ThreadRefers t a
  of_thread t a i =
      elim (IsIn-append (some a) (targets (walk t.stack t.base)) _
        (rw (thread_targets_lem t) at i)) [
          | inl j ↦ inl (walk-Found t.stack t.base a (of_targets (walk t.stack t.base) a j))
          | inr (inl e) ↦ inr (inl (of_target t.exception a e))
          | inr (inr j) ↦ elim (IsIn-append (some a) (pointers t.open_upvalues) _ j) [
            | inl k ↦ inr (inr (inl (of_pointers t.open_upvalues a k)))
            | inr k ↦ elim (IsIn-append (some a) (compiler_targets t.compilers) _ k) [
              | inl l ↦ inr (inr (inr (inl (of_compilers t.compilers a l))))
              | inr l ↦ inr (inr (inr (inr l)))
            ]
          ]
        ]

  -- `blackenObject` marks what an object refers to, if the frames of a thread are linked.
  pub Refers-body_targets :
      (b : Body D) (a : ℕ) → IsSound b → Refers b a → IsIn (some a) (body_targets b)
  unfolding body_targets
  Refers-body_targets (array_body klass fields values) a sound (inl e) = inl (sym e)
  Refers-body_targets (array_body klass fields values) a sound (inr (inl e)) = inr (inl (sym e))
  Refers-body_targets (array_body klass fields values) a sound (inr (inr i)) =
      inr (inr (to_targets values a i))
  Refers-body_targets (bound_method_body receiver method) a sound (inl e) =
      inl (to_target receiver a e)
  Refers-body_targets (bound_method_body receiver method) a sound (inr e) = inr (inl (sym e))
  Refers-body_targets (class_body name methods) a sound (inl e) = inl (sym e)
  Refers-body_targets (class_body name methods) a sound (inr e) = inr (inl (sym e))
  Refers-body_targets (closure_body f upvalues) a sound (inl e) = inl (sym e)
  Refers-body_targets (closure_body f upvalues) a sound (inr i) = inr i
  Refers-body_targets (function_body n c ci) a sound (inl e) = inl (sym e)
  Refers-body_targets (function_body n c ci) a sound (inr (inl e)) = inr (inl (sym e))
  Refers-body_targets (function_body n c ci) a sound (inr (inr e)) = inr (inr (inl (sym e)))
  Refers-body_targets (instance_body klass fields) a sound (inl e) = inl (sym e)
  Refers-body_targets (instance_body klass fields) a sound (inr e) = inr (inl (sym e))
  Refers-body_targets (module_body n f k) a sound (inl e) = inl (sym e)
  Refers-body_targets (module_body n f k) a sound (inr (inl e)) = inr (inl (sym e))
  Refers-body_targets (module_body n f k) a sound (inr (inr e)) = inr (inr (inl (sym e)))
  Refers-body_targets (table_body t) a sound i = to_targets t.entries a i
  Refers-body_targets (upvalue_body closed) a sound e = inl (to_target closed a e)
  Refers-body_targets (exception_body k f msg) a sound (inl e) = inl (sym e)
  Refers-body_targets (exception_body k f msg) a sound (inr (inl e)) = inr (inl (sym e))
  Refers-body_targets (exception_body k f msg) a sound (inr (inr e)) =
      inr (inr (inl (to_target msg a e)))
  Refers-body_targets (string_body klass fields) a sound (inl e) = inl (sym e)
  Refers-body_targets (string_body klass fields) a sound (inr e) = inr (inl (sym e))
  Refers-body_targets (thread_body t) a sound r = to_thread t a sound r
  Refers-body_targets native_body a sound r = elim r [ ]

  -- `blackenObject` marks nothing else.
  pub body_targets-Refers : (b : Body D) (a : ℕ) → IsIn (some a) (body_targets b) → Refers b a
  unfolding body_targets
  body_targets-Refers (array_body klass fields values) a (inl e) = inl (sym e)
  body_targets-Refers (array_body klass fields values) a (inr (inl e)) = inr (inl (sym e))
  body_targets-Refers (array_body klass fields values) a (inr (inr i)) =
      inr (inr (of_targets values a i))
  body_targets-Refers (bound_method_body receiver method) a i = elim (two i) [
    | inl e ↦ inl (of_target receiver a (sym e))
    | inr e ↦ inr e
  ]
  body_targets-Refers (class_body name methods) a i = two i
  body_targets-Refers (closure_body f upvalues) a (inl e) = inl (sym e)
  body_targets-Refers (closure_body f upvalues) a (inr i) = inr i
  body_targets-Refers (function_body n c ci) a i = three i
  body_targets-Refers (instance_body klass fields) a i = two i
  body_targets-Refers (module_body n f k) a i = three i
  body_targets-Refers (table_body t) a i = of_targets t.entries a i
  body_targets-Refers (upvalue_body closed) a (inl e) = of_target closed a e
  body_targets-Refers (upvalue_body closed) a (inr n) = elim n [ ]
  body_targets-Refers (exception_body k f msg) a i = elim (three i) [
    | inl e ↦ inl e
    | inr (inl e) ↦ inr (inl e)
    | inr (inr e) ↦ inr (inr (of_target msg a (sym e)))
  ]
  body_targets-Refers (string_body klass fields) a i = two i
  body_targets-Refers (thread_body t) a i = of_thread t a i
  body_targets-Refers native_body a i = elim i [ ]
