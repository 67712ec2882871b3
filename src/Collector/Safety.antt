-- ===== src/Collector/Safety.antt =====
-- src/memory.c: `collectGarbage` frees what cannot be reached from the roots that it marks, and nothing else.
use xan.Base.{
  ℕ, ◌<◌, ◌≡◌, ◌≢◌, ◌⊎◌, true, false, not, List, [], ◌∷◌, Option, none, some, length, IsIn,
}
use xan.Value.{Val, Number, Strings, obj}
use xan.Table.{Table, is_white}
use xan.Table.Model.{Models}
use xan.Collector.{table_body, Object, Heap, Machine, object_at, put_object}
use xan.Collector.Marking.{black, body_at}
use xan.Collector.Collect.{IsLive, IsQuiet, Traced}

module _ (N : Number) (S : Strings) where
  -- What `collectGarbage` makes of the heap `h`, whose table of strings is `t` at `s` and represents `f`.
  pub record Collects (h : Heap N.Double) (vm : Machine) (s : ℕ) (f : Val N → Option (Val N))
      (h' : Heap N.Double) (freed : List ℕ) : Type 0 where
    pub kept_used : (a : ℕ) → IsIn a h'.objects → IsIn a h.objects × (IsLive h vm a ⊎ (a ≡ s))
    pub used_kept : (a : ℕ) → IsIn a h.objects → IsLive h vm a ⊎ (a ≡ s) → IsIn a h'.objects
    pub freed_unused : (a : ℕ) → IsIn a freed → IsIn a h.objects × (IsLive h vm a → ⊥)
    pub unused_freed : (a : ℕ) → IsIn a h.objects → (IsLive h vm a → ⊥) → a ≢ s → IsIn a freed
    pub modules_lost :
        (a : ℕ)
        → vm.builtin_mods ≡ some a
        → IsIn a h.objects
        → (IsLive h vm a → ⊥)
        → a ≢ s
        → IsIn a freed
    pub bodies : (a : ℕ) → a ≢ s → body_at h' a ≡ body_at h a
    pub table_after : Table N.Double
    pub strings_after : Val N → Option (Val N)
    pub strings_at : body_at h' s ≡ table_body table_after
    pub strings_model : Models N S table_after strings_after
    pub strings_kept : (p : ℕ) → IsLive h vm p → strings_after (obj p) ≡ f (obj p)
    pub strings_used :
        (p : ℕ) (w : Val N)
        → p < length h.cells
        → strings_after (obj p) ≡ some w
        → IsLive h vm p ⊎ (p ≡ s)
    pub quiet : IsQuiet h' vm

-- The heap `h1` after the trace, and the table of strings `t'` without the white strings.
module _ (N : Number) (S : Strings) (h : Heap N.Double) (vm : Machine) (s : ℕ)
    (f : Val N → Option (Val N)) (q : IsQuiet h vm)
    (apart : (a : ℕ)
      → IsIn (some a) (vm.init_string ∷ vm.new_string ∷ vm.globals ∷ [])
      → some a ≢ vm.strings)
    (at_s : vm.strings ≡ some s) (h1 : Heap N.Double) (tr : Traced h vm q apart h1)
    (t' : Table N.Double) (g : Val N → Option (Val N)) (m' : Models N S t' g)
    (spared : (v : Val N) → is_white (λ p. not (black h1 p)) v ≡ false → g v ≡ f v)
    (gone : (v : Val N) → is_white (λ p. not (black h1 p)) v ≡ true → g v ≡ none) where
  abbrev cleaned : Object N.Double
  cleaned = record (object_at h1 s) { body = table_body t' }

  abbrev h2 : Heap N.Double
  h2 = put_object h1 s cleaned
