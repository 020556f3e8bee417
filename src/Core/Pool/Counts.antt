-- ===== src/Core/Pool/Counts.antt =====
-- Every slot of a pool is free or live, and not both.
use affini_x.Base.{
  length-erase, ℕ, zero, suc, ◌+◌, ◌-◌, ◌*◌, ◌==◌, ◌≡◌, ◌<◌, refl, sym, ap, ◌∙◌, if◌then◌else◌,
  if_cases, Option, none, some, List, [], ◌∷◌, ltb, length, count, count-erase, contains, erase,
  arith,
}
use affini_x.Core.Arena.{Arena, alloc}
use affini_x.Core.Pool.{
  Pool, create, capacity, push_slots, count_chunk, grow, take_slot, ensure_free, construct, destroy,
  Action, constructs, destroys, act, run,
}

abbrev below : ℕ → ℕ → ℕ
below n i = if ltb i n then 1 else 0

record Whole (p : Pool) : Type 0 where
  some_objs : 0 < p.chunk_objs
  slots : (i : ℕ) → count i p.live + count i p.free ≡ below (capacity p) i
  counted : p.allocated ≡ length p.live

count-push_slots :
    (i first n : ℕ) (free : List ℕ)
    → count i (push_slots first n free) + below first i ≡ below (first + n) i + count i free
count-push_slots i first zero free = ground arith
count-push_slots i first (suc n) free =
    let h = count-push_slots i (first + 1) n (first ∷ free) in ground arith

one_more : (a b c : ℕ) → (a + 1) * c + b * c ≡ a * c + b * c + c
one_more a b c = grind arith

one_more_right : (a b c : ℕ) → a * c + (b + 1) * c ≡ a * c + b * c + c
one_more_right a b c = grind arith

grow-Whole : (p : Pool) → Whole p → Whole (grow p)
unfolding grow capacity
grow-Whole p h = by_alloc (alloc p.chunk_bytes p.align p.arena)
  where
    filled :
        (i m : ℕ)
        → m ≡ p.arena_chunks * p.chunk_objs + p.heap_chunks * p.chunk_objs + p.chunk_objs
        → count i p.live + count i (push_slots (capacity p) p.chunk_objs p.free) ≡ below m i
    filled i m e = omega (
      arith,
      h.slots i,
      count-push_slots i (capacity p) p.chunk_objs p.free,
      ap (λ n. below n i) e,
    )

    by_alloc :
        (r : Option ℕ × Arena)
        → Whole (record (count_chunk r.0 (record p { arena = r.1 })) {
          free = push_slots (capacity p) p.chunk_objs p.free;
        })
    by_alloc (none, a) = record {
      some_objs = h.some_objs;
      slots = λ i. filled i _ (one_more_right p.arena_chunks p.heap_chunks p.chunk_objs);
      counted = h.counted;
    }
    by_alloc (some al, a) = record {
      some_objs = h.some_objs;
      slots = λ i. filled i _ (one_more p.arena_chunks p.heap_chunks p.chunk_objs);
      counted = h.counted;
    }

take_slot-Whole : (free : List ℕ) (p : Pool) → p.free ≡ free → Whole p → Whole (take_slot free p).1
unfolding capacity
take_slot-Whole [] p e h = h
take_slot-Whole (s ∷ ss) p e h = record {
  some_objs = h.some_objs;
  slots = λ i. omega (arith, h.slots i, ap (count i) e);
  counted = omega (arith, h.counted);
}

ensure_free-Whole : (free : List ℕ) (p : Pool) → Whole p → Whole (ensure_free free p)
ensure_free-Whole [] p h = grow-Whole p h
ensure_free-Whole (s ∷ ss) p h = h

destroy-Whole : (s : ℕ) (p : Pool) → Whole p → Whole (destroy s p)
unfolding destroy capacity
destroy-Whole s p h =
    if_cases Whole (contains s p.live)
      (record p { free = s ∷ p.free; live = erase s p.live; allocated = p.allocated - 1 }) p
      (λ e. record {
        some_objs = h.some_objs;
        slots = λ i. omega (arith, h.slots i, count-erase i s p.live e);
        counted = omega (arith, h.counted, length-erase s p.live e);
      })
      (λ e. h)

construct-Whole : (p : Pool) → Whole p → Whole (construct p).1
unfolding construct
construct-Whole p h =
    let p1 = ensure_free p.free p in take_slot-Whole p1.free p1 refl (ensure_free-Whole p.free p h)

run-Whole : (as' : List Action) (p : Pool) → Whole p → Whole (run as' p)
unfolding run act
run-Whole [] p h = h
run-Whole (constructs ∷ as') p h = run-Whole as' (construct p).1 (construct-Whole p h)
run-Whole (destroys s ∷ as') p h = run-Whole as' (destroy s p) (destroy-Whole s p h)

-- A slot that is handed out is not that of a live object.
abbrev IsFresh : Pool → Option ℕ × Pool → Type 0
IsFresh p r = (s : ℕ) × (r.0 ≡ some s) × (count s p.live ≡ 0)

at_most : (n i a b : ℕ) → a + (1 + b) ≡ below n i → a ≡ 0
at_most n i a b e = ground arith

take-IsFresh :
    (p : Pool) (free : List ℕ) (p1 : Pool)
    → p1.free ≡ free
    → 0 < length free
    → p1.live ≡ p.live
    → Whole p1
    → IsFresh p (take_slot free p1)
take-IsFresh p [] p1 e k l h = absurd (omega (arith, k))
take-IsFresh p (s ∷ ss) p1 e k l h = (
  s,
  refl,
  sym (ap (count s) l)
      ∙ at_most (capacity p1) s (count s p1.live) (count s ss)
          (omega (arith, h.slots s, ap (count s) e, self s)),
)
  where
    self : (n : ℕ) → ◌≡◌ {A = ℕ} (if n == n then 1 else 0) 1
    self n = ground arith

length-push_slots :
    (first n : ℕ) (free : List ℕ) → length (push_slots first n free) ≡ n + length free
length-push_slots first zero free = omega arith
length-push_slots first (suc n) free = omega (arith, length-push_slots (first + 1) n (first ∷ free))

ensure_free-has :
    (free : List ℕ) (p : Pool)
    → p.free ≡ free
    → Whole p
    → (0 < length (ensure_free free p).free) × ((ensure_free free p).live ≡ p.live)
unfolding grow
ensure_free-has [] p e h = by_alloc (alloc p.chunk_bytes p.align p.arena)
  where
    slots_made : 0 < length (push_slots (capacity p) p.chunk_objs p.free)
    slots_made = omega (arith, length-push_slots (capacity p) p.chunk_objs p.free, h.some_objs)

    by_alloc :
        (r : Option ℕ × Arena)
        → let p1 = record (count_chunk r.0 (record p { arena = r.1 })) {
          free = push_slots (capacity p) p.chunk_objs p.free;
        } in
          (0 < length p1.free) × (p1.live ≡ p.live)
    by_alloc (none, a) = (slots_made, refl)
    by_alloc (some al, a) = (slots_made, refl)
ensure_free-has (s ∷ ss) p e h = (omega (arith, ap length e), refl)

-- Whatever is constructed and destroyed before, in whatever order, and whether chunks come from the arena or
-- the heap: a pool gives a new object a slot that no live object has, and counts the live objects.
pub construct-run :
    (arena : Arena) (bytes align objs : ℕ) (as' : List Action)
    → let p = run as' (create arena bytes align objs) in
      ((s : ℕ) × ((construct p).0 ≡ some s) × (count s p.live ≡ 0)) × (p.allocated ≡ length p.live)
unfolding create construct capacity
construct-run arena bytes align objs as' =
    let p = run as' (create arena bytes align objs) in
    let h = run-Whole as' (create arena bytes align objs) (record {
      some_objs = positive objs;
      slots = λ i. empty i (if objs == 0 then 1 else objs);
      counted = refl;
    }) in
    let p1 = ensure_free p.free p in
    let k = ensure_free-has p.free p refl h in
    (take-IsFresh p p1.free p1 refl k.0 k.1 (ensure_free-Whole p.free p h), h.counted)
  where
    positive : (n : ℕ) → 0 < (if n == 0 then 1 else n)
    positive n = ground arith

    empty : (i n : ℕ) → 0 + 0 ≡ below (0 * n + 0 * n) i
    empty i n = ground arith
