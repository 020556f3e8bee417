-- ===== src/Core/HandleTable/Invariant.antt =====
-- What holds of a handle table between two calls: every slot is live, free or deferred.
use affini_x.Base.{
  ℕ, ◌+◌, ◌^◌, ◌≤◌, ◌<◌, ◌≡◌, refl, ap, ◌≢◌, inl, inr, none, some, List, ◌∷◌, reverse, arith, ◌==◌,
  if◌then◌else◌, length, get_elem?, set, count, count-append, count-reverse, get_elem?-lt,
  get_elem?-ne-none, Option-cases, ℕ_discrete,
}
use affini_x.Core.HandleTable.Slots.{
  alive, alive_count, alive_at, has_slot, GensFit, alive_count-set, alive_at-set_self,
  alive_at-set_ne, has_slot-set, has_slot-lt, GensFit-set, GensFit-get, has_slot_of_lt,
  alive_at_of_get,
}
use affini_x.Core.HandleTable.{Handle, Slot, Table, create, occupy, get, reclaim}

module _ {ℓ} {A : Type ℓ} where
  -- A slot is in exactly one place; what is no slot is in none.
  pub record IsValid (t : Table A) : Type 0 where
    pub placed :
        (i : ℕ) → count i t.free + count i t.deferred + alive_at t.slots i ≡ has_slot t.slots i
    pub gens : GensFit t.slots
    pub seed : (0 < t.first_gen) × (t.first_gen < 2 ^ 32)
    pub counted : t.live ≡ alive_count t.slots

  pub create-IsValid : (g : ℕ) → g < 2 ^ 32 → IsValid (create {A = A} g)
  unfolding create
  create-IsValid g h = record { placed = λ i. refl; gens = tt; seed = ground arith; counted = refl }

  pub reclaim-IsValid : (t : Table A) → IsValid t → IsValid (reclaim t)
  unfolding reclaim
  reclaim-IsValid t v = record {
    placed = λ i.
        omega (
          arith,
          count-append i (reverse t.deferred) t.free,
          count-reverse i t.deferred,
          v.placed i,
        );
    gens = v.gens;
    seed = v.seed;
    counted = v.counted;
  }

  -- `emplace` in a valid table: the slot it takes is dead, and it is nobody's afterwards.
  pub occupy-IsValid :
      (t : Table A) (idx : ℕ) (s : Slot A) (a : A)
      → get_elem? t.slots idx ≡ some s
      → GensFit t.slots
      → (0 < t.first_gen) × (t.first_gen < 2 ^ 32)
      → t.live ≡ alive_count t.slots
      → alive s ≡ 0
      → ((i : ℕ)
          → count i t.free + count i t.deferred + alive_at t.slots i + (if idx == i then 1 else 0)
            ≡ has_slot t.slots i)
      → IsValid (occupy t idx s a).1
  occupy-IsValid t idx s a e g q c dead p =
      let inside = get_elem?-lt t.slots idx e in
      let filled : Slot A = record s { object = some a } in
      let was = alive_at_of_get t.slots idx e in
      let fit = GensFit-get t.slots idx g e in
      record {
        placed = λ i. elim (ℕ_discrete idx i) [
          | yes same ↦ ground (
            arith,
            p i,
            has_slot-set t.slots idx i filled,
            alive_at-set_self t.slots idx filled inside,
            ap (alive_at (set t.slots idx filled)) same,
            ap (alive_at t.slots) same,
          )
          | no other ↦ ground (
            arith,
            p i,
            has_slot-set t.slots idx i filled,
            alive_at-set_ne t.slots idx i filled other,
          )
        ];
        gens = GensFit-set t.slots idx filled fit.0 fit.1 g;
        seed = q;
        counted = omega (arith, alive_count-set t.slots idx filled inside, was, dead, c);
      }

  -- A free index names a dead slot.
  pub free_dead :
      (t : Table A) (idx : ℕ) (rest : List ℕ)
      → IsValid t
      → t.free ≡ idx ∷ rest
      → (s : Slot A) × (get_elem? t.slots idx ≡ some s) × (alive s ≡ 0)
  free_dead t idx rest v e =
      let here : count idx t.free ≡ 1 + count idx rest = ground arith in
      let inside = has_slot-lt t.slots idx (omega (arith, v.placed idx, here)) in
      elim (Option-cases (get_elem? t.slots idx)) [
        | inl gone ↦ absurd (get_elem?-ne-none t.slots idx inside gone)
        | inr (s, found) ↦ (
          s,
          found,
          omega (
            arith,
            v.placed idx,
            here,
            has_slot_of_lt t.slots idx inside,
            alive_at_of_get t.slots idx found,
          ),
        )
      ]

  pub get_of_slot :
      (t : Table A) (h : Handle) (s : Slot A)
      → get_elem? t.slots h.idx ≡ some s
      → s.gen ≡ h.gen
      → h.gen ≢ 0
      → get t h ≡ s.object
  unfolding get
  get_of_slot t h s e g n = ground (arith, get_elem?-lt t.slots h.idx e)

  pub slot_of_get :
      (t : Table A) (h : Handle) (b : A)
      → get t h ≡ some b
      → (s : Slot A) × (get_elem? t.slots h.idx ≡ some s)
        × (s.gen ≡ h.gen)
        × (h.gen ≢ 0)
        × (s.object ≡ some b)
  unfolding get
  slot_of_get t h b e = elim (Option-cases (get_elem? t.slots h.idx)) [
    | inl gone ↦ absurd (ground arith)
    | inr (s, found) ↦ (s, found, ground arith, ground arith, ground arith)
  ]

  pub get_of_dead :
      (t : Table A) (h : Handle) (s : Slot A)
      → get_elem? t.slots h.idx ≡ some s
      → s.object ≡ none
      → get t h ≡ none
  unfolding get
  get_of_dead t h s e d = ground arith

  pub get_out : (t : Table A) (h : Handle) → length t.slots ≤ h.idx → get t h ≡ none
  unfolding get
  get_out t h e = ground arith

  pub dead_object : (s : Slot A) → alive s ≡ 0 → s.object ≡ none
  dead_object s h = ground arith
