-- ===== src/Core/Pool.antt =====
-- include/afx/core/pool.hpp. A slot is its number: the slots of the n-th chunk follow those of the chunks
-- before it. `live` are the slots of the objects that are constructed; an object is destroyed only while it
-- is. A chunk comes from the arena, or from the heap where the arena has no room.
pub mod Counts
mod Tests
use affini_x.Base.{
  ℕ, zero, suc, ◌+◌, ◌-◌, ◌*◌, ◌==◌, Bool, true, false, if◌then◌else◌, Option, none, some, List, [],
  ◌∷◌, ◌++◌, contains, erase,
}
use affini_x.Core.Arena.{Arena, alloc}

pub record Pool : Type 0 where
  pub arena : Arena
  pub chunk_bytes : ℕ
  pub align : ℕ
  pub chunk_objs : ℕ
  pub free : List ℕ
  pub live : List ℕ
  pub allocated : ℕ
  pub arena_chunks : ℕ
  pub heap_chunks : ℕ

-- The bytes and the alignment of a chunk follow from the type of the objects.
pub create : Arena → ℕ → ℕ → ℕ → Pool
create arena bytes align objs_per_chunk = record {
  arena = arena;
  chunk_bytes = bytes;
  align = align;
  chunk_objs = if objs_per_chunk == 0 then 1 else objs_per_chunk;
  free = [];
  live = [];
  allocated = 0;
  arena_chunks = 0;
  heap_chunks = 0;
}

pub capacity : Pool → ℕ
capacity p = p.arena_chunks * p.chunk_objs + p.heap_chunks * p.chunk_objs

-- The slots of a chunk, from the one numbered `first`, go before the free ones.
abbrev pub push_slots : ℕ → ℕ → List ℕ → List ℕ
push_slots first zero free = free
push_slots first (suc n) free = push_slots (first + 1) n (first ∷ free)

abbrev pub count_chunk : Option ℕ → Pool → Pool
count_chunk none p = record p { heap_chunks = p.heap_chunks + 1 }
count_chunk (some al) p = record p { arena_chunks = p.arena_chunks + 1 }

pub grow : Pool → Pool
grow p =
    let r = alloc p.chunk_bytes p.align p.arena in
    let p1 = count_chunk r.0 (record p { arena = r.1 }) in
    record p1 { free = push_slots (capacity p) p.chunk_objs p.free }

abbrev pub take_slot : List ℕ → Pool → Option ℕ × Pool
take_slot [] p = (none, p)
take_slot (s ∷ ss) p =
    (some s, record p { free = ss; live = s ∷ p.live; allocated = p.allocated + 1 })

abbrev pub ensure_free : List ℕ → Pool → Pool
ensure_free [] p = grow p
ensure_free (s ∷ ss) p = p

pub construct : Pool → Option ℕ × Pool
construct p = let p1 = ensure_free p.free p in take_slot p1.free p1

pub destroy : ℕ → Pool → Pool
destroy s p =
    if contains s p.live
    then record p { free = s ∷ p.free; live = erase s p.live; allocated = p.allocated - 1 }
    else p

pub data Action : Type 0 where
  constructs : Action
  destroys : ℕ → Action

pub act : Action → Pool → Pool
act constructs p = (construct p).1
act (destroys s) p = destroy s p

pub run : List Action → Pool → Pool
run [] p = p
run (a ∷ as') p = run as' (act a p)
