-- ===== src/Memory/Nightly/Citations.antt =====
-- Which observations are protected from the retention steps.
use rato.Prelude.{
  ◌||◌, ◌==◌, eq_iff, refl, sym, ap, ◌∙◌, Option, Option-cases, inl, inr, ◌⊎◌, filter, String, ◌≡◌,
  Bool, true, false, some, List, [], ◌∷◌, ◌++◌, arith, eq_refl, if◌then◌else◌, leb, All,
}
use rato.Store.Sql.{Json}
use rato.Store.Order.{place, order_by}
use rato.Store.Order.Sorted.{All-of_order_by}
use rato.Store.Memories.{MemoryRow, is_listed, do_list_memories}
use rato.Store.Prune.{is_in}
use rato.Store.Pins.{Pin, insert_latest, latest_first, do_list_pins}
use rato.Memory.Nightly.{
  Env, Tables, strings, cited, cited_by_memories, cited_by_pins, protected_ids, with_archived, sort,
  dedup,
}

is_in-append_left : (k : String) (l r : List String) → is_in k l ≡ true → is_in k (l ++ r) ≡ true
unfolding is_in
is_in-append_left k [] r h = absurd (ground arith)
is_in-append_left k (x ∷ l) r h = ground (arith, is_in-append_left k l r)

is_in-append_right : (k : String) (l r : List String) → is_in k l ≡ true → is_in k (r ++ l) ≡ true
unfolding is_in
is_in-append_right k l [] h = h
is_in-append_right k l (x ∷ r) h = ground (arith, is_in-append_right k l r h)

-- Sorting and removing duplicates keep what is in a list.
is_in-place :
    (first : String → String → Bool) (k j : String) (js : List String)
    → is_in k (place first j js) ≡ is_in k (j ∷ js)
unfolding place is_in
is_in-place first k j [] = refl
is_in-place first k j (i ∷ js) = ground (arith, is_in-place first k j js)

is_in-order_by :
    (first : String → String → Bool) (k : String) (js : List String)
    → is_in k (order_by first js) ≡ is_in k js
unfolding order_by is_in
is_in-order_by first k [] = refl
is_in-order_by first k (j ∷ js) =
    is_in-place first k j (order_by first js) ∙ ap (λ b. j == k || b) (is_in-order_by first k js)

is_in-dedup : (k : String) (js : List String) → is_in k (dedup js) ≡ is_in k js
unfolding dedup is_in
is_in-dedup k [] = refl
is_in-dedup k (j ∷ []) = refl
is_in-dedup k (j ∷ i ∷ js) = ground (arith, is_in-dedup k (i ∷ js), eq_iff j i)

is_in-kept : (k : String) (js : List String) → is_in k js ≡ true → is_in k (dedup (sort js)) ≡ true
unfolding sort
is_in-kept k js h = is_in-dedup k (sort js) ∙ is_in-order_by _ k js ∙ h

module _ {V : Type 0} (P : Pin V → Type 0) where
  All-insert_if :
      (p x : Pin V) (xs inserted : List (Pin V)) (b : Bool)
      → All P (if b then p ∷ x ∷ xs else x ∷ inserted)
      → (All P inserted → P p × All P xs)
      → P p × (P x × All P xs)
  All-insert_if p x xs inserted true h later = h
  All-insert_if p x xs inserted false h later = let (pp, rest) = later h.1 in (pp, (h.0, rest))

  All-insert_latest : (p : Pin V) (xs : List (Pin V)) → All P (insert_latest p xs) → P p × All P xs
  unfolding insert_latest
  All-insert_latest p [] h = h
  All-insert_latest p (x ∷ xs) h =
      All-insert_if p x xs (insert_latest p xs) (leb x.created p.created) h (All-insert_latest p xs)

  All-latest_first : (xs : List (Pin V)) → All P (latest_first xs) → All P xs
  unfolding latest_first
  All-latest_first [] h = tt
  All-latest_first (x ∷ xs) h =
      let (first, rest) = All-insert_latest x (latest_first xs) h in
      (first, All-latest_first xs rest)

-- The elements of a list.
abbrev pub Element : {A : Type 0} → A → List A → Type 0
Element x [] = ⊥
Element x (y ∷ ys) = (x ≡ y) ⊎ Element x ys

module _ (json : Json) where
  -- The value is an array with an element that is this string.
  abbrev pub Cites : json.Value → String → Type 0
  Cites v k =
      (arr : List json.Value) × (x : json.Value) × (json.as_array v ≡ some arr)
      × Element x arr
      × (json.as_str x ≡ some k)

  strings-Element :
      (arr : List json.Value) (x : json.Value) (k : String)
      → Element x arr
      → json.as_str x ≡ some k
      → is_in k (strings json arr) ≡ true
  unfolding strings is_in
  strings-Element [] x k m e = absurd m
  strings-Element (y ∷ arr) x k (inl here) e =
      rw (strings, ap json.as_str (sym here) ∙ e) (rw (eq_refl k) refl)
  strings-Element (y ∷ arr) x k (inr later) e = elim (Option-cases (json.as_str y)) [
    | inl f ↦ rw (strings, f) (strings-Element arr x k later e)
    | inr (s, f) ↦
        rw (strings, f)
          (is_in-append_right k (strings json arr) (s ∷ []) (strings-Element arr x k later e))
  ]

  cited-Cites :
      (o : Option json.Value) (v : json.Value) (k : String)
      → o ≡ some v
      → Cites v k
      → is_in k (cited json o) ≡ true
  unfolding cited
  cited-Cites o v k e (arr, x, f, m, g) = rw e (rw (cited, f) (strings-Element arr x k m g))

  cited_by_memories-Cites :
      {F : Type 0} (Good : String → Type 0) (ms : List (MemoryRow json.Value F))
      → ((k : String) → is_in k (cited_by_memories json ms) ≡ true → Good k)
      → All (λ m. (k : String) → Cites m.memory.source_event_ids k → Good k) ms
  unfolding cited_by_memories
  cited_by_memories-Cites Good [] good = tt
  cited_by_memories-Cites Good (m ∷ ms) good = (
    λ k c. good k (is_in-append_left k _ _ (cited-Cites _ m.memory.source_event_ids k refl c)),
    cited_by_memories-Cites Good ms λ k h. good k (is_in-append_right k _ _ h),
  )

  cited_by_pins-Cites :
      (Good : String → Type 0) (ps : List (Pin json.Value))
      → ((k : String) → is_in k (cited_by_pins json ps) ≡ true → Good k)
      → All
          (λ p.
            (k : String) (v : json.Value)
            → json.get p.meta "observation_ids" ≡ some v
            → Cites v k
            → Good k)
          ps
  unfolding cited_by_pins
  cited_by_pins-Cites Good [] good = tt
  cited_by_pins-Cites Good (p ∷ ps) good = (
    λ k v e c. good k (is_in-append_left k _ _ (cited-Cites _ v k e c)),
    cited_by_pins-Cites Good ps λ k h. good k (is_in-append_right k _ _ h),
  )

module _ {V F : Type 0} (P : MemoryRow V F → Type 0) where
  All-listed : (ms : List (MemoryRow V F)) → All P (filter (is_listed with_archived) ms) → All P ms
  unfolding is_listed
  All-listed [] h = tt
  All-listed (m ∷ ms) h = (h.0, All-listed ms h.1)

module _ (env : Env) where
  -- Every string in the sources of a memory of the store, archived or not, and every string in the
  -- "observation_ids" of a pin's meta is among the ids that the deletion leaves out.
  pub protected_ids-Cites :
      (s : Tables env)
      → All
          (λ m.
            (k : String)
            → Cites env.json m.memory.source_event_ids k
            → is_in k (protected_ids env s) ≡ true)
          (env.memories.rows s.memories)
        × All
            (λ p.
              (k : String) (v : env.json.Value)
              → env.json.get p.meta "observation_ids" ≡ some v
              → Cites env.json v k
              → is_in k (protected_ids env s) ≡ true)
            (env.pins.rows s.pins)
  unfolding protected_ids do_list_pins do_list_memories
  protected_ids-Cites s = (
    All-listed _ (env.memories.rows s.memories) (
        All-of_order_by _ _ _ (
          cited_by_memories-Cites env.json _
            (do_list_memories env.json env.memories with_archived s.memories)
            λ k h. is_in-kept k _ (is_in-append_left k _ _ h))),
    All-latest_first _ (env.pins.rows s.pins) (
        cited_by_pins-Cites env.json _ (do_list_pins env.pins s.pins) λ k h. is_in-kept k _ (
          is_in-append_right k _
            (cited_by_memories env.json
              (do_list_memories env.json env.memories with_archived s.memories))
            h)),
  )
