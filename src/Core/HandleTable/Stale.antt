-- ===== src/Core/HandleTable/Stale.antt =====
-- `release`: a released handle is dead at once, and stays dead until its slot's generation has gone
-- round the 2^32 - 1 values that it takes.
use affini_x.Base.{
  ℕ, zero, suc, ◌+◌, ◌-◌, ◌^◌, ◌≤◌, ◌<◌, ◌%◌, ◌≡◌, ap, ◌≢◌, ◌∙◌, inl, inr, none, some, List, [],
  ◌∷◌, ◌++◌, arith, length, get_elem?, set, count-append, get_elem?-set_ne, get_elem?-lt,
  Option-cases, ℕ_discrete,
}
use affini_x.Core.HandleTable.Slots.{
  alive, alive_at, GensFit-set, GensFit-get, alive_count-set, alive_at-set_self, alive_at-set_ne,
  has_slot-set, alive_at_of_get,
}
use affini_x.Core.HandleTable.Invariant.{IsValid, get_of_slot, slot_of_get, reclaim-IsValid}
use affini_x.Core.HandleTable.Emplace.{emplace_lem}
use affini_x.Core.HandleTable.{
  Handle, Slot, Table, next_gen, get, retire, release, Op, emplaces, releases, reclaims, apply,
  emplaced,
}

next_gen_bounds : (g : ℕ) → g < 2 ^ 32 → (0 < next_gen g) × (next_gen g < 2 ^ 32)
unfolding next_gen
next_gen_bounds g h = ground arith

-- The generation after `k` releases.
aged : ℕ → ℕ → ℕ
aged g k = (g - 1 + k) % (2 ^ 32 - 1) + 1

module _ {ℓ} {A : Type ℓ} where
  abbrev gen_at : List (Slot A) → ℕ → ℕ
  gen_at [] i = 0
  gen_at (s ∷ ss) zero = s.gen
  gen_at (s ∷ ss) (suc i) = gen_at ss i

  release_of_get :
      (t : Table A) (h : Handle) {a : A} {s : Slot A}
      → get t h ≡ some a
      → get_elem? t.slots h.idx ≡ some s
      → release t h ≡ record t {
        slots = set t.slots h.idx (record { gen = next_gen s.gen; object = none });
        live = t.live - 1;
        deferred = t.deferred ++ h.idx ∷ [];
      }
  unfolding release retire
  release_of_get t h e found = ground arith

  pub retired-IsValid :
      (t : Table A) (i : ℕ) (s : Slot A)
      → IsValid t
      → get_elem? t.slots i ≡ some s
      → alive s ≡ 1
      → IsValid (record t {
        slots = set t.slots i (record { gen = next_gen s.gen; object = none });
        live = t.live - 1;
        deferred = t.deferred ++ i ∷ [];
      })
  retired-IsValid t i s v found up =
      let dead : Slot A = record { gen = next_gen s.gen; object = none } in
      let fit = next_gen_bounds s.gen (GensFit-get t.slots i v.gens found).1 in
      let inside = get_elem?-lt t.slots i found in
      let was = alive_at_of_get t.slots i found in
      record {
        placed = λ j. elim (ℕ_discrete i j) [
          | yes same ↦ ground (
            arith,
            v.placed j,
            has_slot-set t.slots i j dead,
            count-append j t.deferred (i ∷ []),
            alive_at-set_self t.slots i dead inside,
            ap (alive_at (set t.slots i dead)) same,
            ap (alive_at t.slots) same,
          )
          | no other ↦ ground (
            arith,
            v.placed j,
            has_slot-set t.slots i j dead,
            count-append j t.deferred (i ∷ []),
            alive_at-set_ne t.slots i j dead other,
          )
        ];
        gens = GensFit-set t.slots i dead fit.0 fit.1 v.gens;
        seed = v.seed;
        counted = omega (arith, alive_count-set t.slots i dead inside, was, up, v.counted);
      }

  alive_of_object : (s : Slot A) {a : A} → s.object ≡ some a → alive s ≡ 1
  alive_of_object s e = ground arith

  -- `release` keeps the table valid, whatever handle it is given.
  pub release-IsValid : (t : Table A) (h : Handle) → IsValid t → IsValid (release t h)
  unfolding release
  release-IsValid t h v = elim (Option-cases (get t h)) [
    | inl gone ↦ rw (gone, release) v
    | inr (a, e) ↦
        let (s, found, same, nz, ob) = slot_of_get t h a e in
        rw (release_of_get t h e found) (retired-IsValid t h.idx s v found (alive_of_object s ob))
  ]

  -- Every call keeps a table of fewer than 2^32 slots valid: each slot is live, free or deferred, and in one of these only;
  -- `live` counts the live ones; every generation is a positive 32-bit number.
  pub apply-IsValid :
      (t : Table A) (o : Op A) → length t.slots < 2 ^ 32 → IsValid t → IsValid (apply t o)
  unfolding apply
  apply-IsValid t (emplaces a) few v =
      let (h, t', e, p) = emplace_lem t a v few in rw (e, emplaced) p.valid
  apply-IsValid t (releases h) few v = release-IsValid t h v
  apply-IsValid t reclaims few v = reclaim-IsValid t v

  -- A release disturbs no live handle of another slot.
  pub get-release_ne :
      (t : Table A) (h h' : Handle) (b : A)
      → h.idx ≢ h'.idx
      → get t h' ≡ some b
      → get (release t h) h' ≡ some b
  unfolding release
  get-release_ne t h h' b n g = elim (Option-cases (get t h)) [
    | inl gone ↦ rw (gone, release) g
    | inr (a, e) ↦
        let (s, found, same, nz, ob) = slot_of_get t h a e in
        let (s', found', same', nz', ob') = slot_of_get t h' b g in
        rw (release_of_get t h e found)
          (get_of_slot _ h' s' (get_elem?-set_ne t.slots h.idx h'.idx _ n ∙ found') same' nz' ∙ ob')
  ]

  -- One call ages a slot by at most one release.
  Aged : Table A → ℕ → ℕ → ℕ → Type 0
  Aged t i g k = (j : ℕ) × (gen_at t.slots i ≡ aged g j) × (0 < j) × (j ≤ k)
