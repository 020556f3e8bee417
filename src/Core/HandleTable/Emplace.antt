-- ===== src/Core/HandleTable/Emplace.antt =====
-- `emplace`: the new object is found under its handle, and no other handle is disturbed.
use affini_x.Base.{
  ℕ, ◌%◌, ◌^◌, ◌<◌, ◌≡◌, refl, ap, ◌∙◌, none, some, List, [], ◌∷◌, arith, length, get_elem?,
  get_elem?-set_self, get_elem?-set_ne, get_elem?-append_left, get_elem?-append_here, get_elem?-lt,
  ℕ_discrete,
}
use affini_x.Core.HandleTable.Slots.{
  alive, GensFit-append, GensFit-get, alive_count-append, has_slot-append, alive_at-append,
}
use affini_x.Core.HandleTable.Invariant.{
  IsValid, occupy-IsValid, free_dead, get_of_slot, slot_of_get, get_of_dead, get_out, dead_object,
}
use affini_x.Core.HandleTable.{Handle, Slot, Table, fresh_slot, grown, place, occupy, emplace, get}

module _ {ℓ} {A : Type ℓ} where
  -- What `emplace` promises of the table `t'` and the handle `h` that it returns.
  pub record Emplaced (t : Table A) (a : A) (h : Handle) (t' : Table A) : Type ℓ where
    pub valid : IsValid t'
    pub found : get t' h ≡ some a
    pub new : get t h ≡ none
    pub kept : (h' : Handle) (b : A) → get t h' ≡ some b → get t' h' ≡ some b

  -- A table that has the slots of `t`, and perhaps more, keeps the handles when a dead slot is filled.
  occupy-kept :
      (u : Table A) (idx : ℕ) (s : Slot A) (a : A) (h' : Handle) (b : A)
      → get_elem? u.slots idx ≡ some s
      → alive s ≡ 0
      → get u h' ≡ some b
      → get (occupy u idx s a).1 h' ≡ some b
  occupy-kept u idx s a h' b e d g =
      let (s', e', sg, nz, ob) = slot_of_get u h' b g in
      elim (ℕ_discrete idx h'.idx) [
        | yes same ↦ absurd (ground (arith, dead_object s d, ap (get_elem? u.slots) same))
        | no other ↦
            get_of_slot (occupy u idx s a).1 h' s'
              (get_elem?-set_ne u.slots idx h'.idx _ other ∙ e') sg nz
            ∙ ob
      ]

  occupy-found :
      (u : Table A) (idx : ℕ) (s : Slot A) (a : A)
      → get_elem? u.slots idx ≡ some s
      → 0 < s.gen
      → get (occupy u idx s a).1 (record { idx = idx; gen = s.gen }) ≡ some a
  occupy-found u idx s a e g =
      get_of_slot (occupy u idx s a).1 (record { idx = idx; gen = s.gen })
        (record s { object = some a })
        (get_elem?-set_self u.slots idx _ (get_elem?-lt u.slots idx e)) refl (omega arith)

  recycle_lem :
      (t : Table A) (a : A) (idx : ℕ) (rest : List ℕ) (s : Slot A)
      → IsValid t
      → t.free ≡ idx ∷ rest
      → get_elem? t.slots idx ≡ some s
      → alive s ≡ 0
      → let r = occupy (record t { free = rest }) idx s a in Emplaced t a r.0 r.1
  recycle_lem t a idx rest s v e found dead = record {
    valid =
        occupy-IsValid (record t { free = rest }) idx s a found v.gens v.seed v.counted dead
          (λ i. ground (arith, v.placed i));
    found =
        occupy-found (record t { free = rest }) idx s a found
          (GensFit-get t.slots idx v.gens found).0;
    new = get_of_dead t _ s found (dead_object s dead);
    kept = λ h' b g.
        occupy-kept (record t { free = rest }) idx s a h' b found dead (same_slots h' b g);
  }
    where
      same_slots :
          (h' : Handle) (b : A) → get t h' ≡ some b → get (record t { free = rest }) h' ≡ some b
      same_slots h' b g =
          let (s', e', sg, nz, ob) = slot_of_get t h' b g in get_of_slot _ h' s' e' sg nz ∙ ob

  grow_lem :
      (t : Table A) (a : A)
      → IsValid t
      → t.free ≡ []
      → let r = occupy (grown t) (length t.slots) (fresh_slot t) a in Emplaced t a r.0 r.1
  grow_lem t a v e = record {
    valid =
        occupy-IsValid (grown t) (length t.slots) (fresh_slot t) a
          (get_elem?-append_here t.slots (fresh_slot t))
          (GensFit-append t.slots (fresh_slot t) v.seed.0 v.seed.1 v.gens) v.seed
          (omega (arith, v.counted, alive_count-append t.slots (fresh_slot t))) refl
          (λ i. ground (
            arith,
            v.placed i,
            has_slot-append t.slots (fresh_slot t) i,
            alive_at-append t.slots (fresh_slot t) i,
          ));
    found =
        occupy-found (grown t) (length t.slots) (fresh_slot t) a
          (get_elem?-append_here t.slots (fresh_slot t)) v.seed.0;
    new = get_out t _ (omega arith);
    kept = λ h' b g.
        occupy-kept (grown t) (length t.slots) (fresh_slot t) a h' b
          (get_elem?-append_here t.slots (fresh_slot t)) refl (more_slots h' b g);
  }
    where
      more_slots : (h' : Handle) (b : A) → get t h' ≡ some b → get (grown t) h' ≡ some b
      more_slots h' b g =
          let (s', e', sg, nz, ob) = slot_of_get t h' b g in
          get_of_slot (grown t) h' s'
            (get_elem?-append_left t.slots (fresh_slot t ∷ []) h'.idx
                (get_elem?-lt t.slots h'.idx e')
              ∙ e')
            sg nz
          ∙ ob

  pub emplace_grow :
      (t : Table A) (a : A) (s : Slot A)
      → t.free ≡ []
      → get_elem? (grown t).slots (length t.slots % 2 ^ 32) ≡ some s
      → emplace t a ≡ some (occupy (grown t) (length t.slots % 2 ^ 32) s a)
  unfolding emplace
  emplace_grow t a s e found =
      ap
        (λ free. elim free [
          | [] ↦ place (grown t) (length t.slots % 2 ^ 32) a
          | idx ∷ rest ↦ place (record t { free = rest }) idx a
        ])
        e
      ∙ ap
          (λ o. elim o [
            | none ↦ none
            | some x ↦ some (occupy (grown t) (length t.slots % 2 ^ 32) x a)
          ])
          found

  pub emplace_grow_broken :
      (t : Table A) (a : A)
      → t.free ≡ []
      → get_elem? (grown t).slots (length t.slots % 2 ^ 32) ≡ none
      → emplace t a ≡ none
  unfolding emplace
  emplace_grow_broken t a e gone = ground arith

  -- While the number of slots fits 32 bits the slot is the new one.
  emplace_grow_last :
      (t : Table A) (a : A)
      → t.free ≡ []
      → length t.slots < 2 ^ 32
      → emplace t a ≡ some (occupy (grown t) (length t.slots) (fresh_slot t) a)
  emplace_grow_last t a e few =
      let k : length t.slots % 2 ^ 32 ≡ length t.slots = omega (arith, few) in
      emplace_grow t a (fresh_slot t) e
        (ap (get_elem? (grown t).slots) k ∙ get_elem?-append_here t.slots (fresh_slot t))
      ∙ ap (λ i. some (occupy (grown t) i (fresh_slot t) a)) k

  pub emplace_recycle :
      (t : Table A) (a : A) (idx : ℕ) (rest : List ℕ) (s : Slot A)
      → t.free ≡ idx ∷ rest
      → get_elem? t.slots idx ≡ some s
      → emplace t a ≡ some (occupy (record t { free = rest }) idx s a)
  unfolding emplace
  emplace_recycle t a idx rest s e found = ground arith

  pub emplace_broken :
      (t : Table A) (a : A) (idx : ℕ) (rest : List ℕ)
      → t.free ≡ idx ∷ rest
      → get_elem? t.slots idx ≡ none
      → emplace t a ≡ none
  unfolding emplace
  emplace_broken t a idx rest e gone = ground arith

  emplace_from :
      (t : Table A) (a : A) (free : List ℕ)
      → t.free ≡ free
      → length t.slots < 2 ^ 32
      → IsValid t
      → (h : Handle) × (t' : Table A) × (emplace t a ≡ some (h, t')) × Emplaced t a h t'
  emplace_from t a [] e few v = (_, _, emplace_grow_last t a e few, grow_lem t a v e)
  emplace_from t a (idx ∷ rest) e few v =
      let (s, found, dead) = free_dead t idx rest v e in
      (_, _, emplace_recycle t a idx rest s e found, recycle_lem t a idx rest s v e found dead)

  -- In a valid table of fewer than 2^32 slots `emplace` succeeds. The new handle finds the new object, and found nothing
  -- before; every handle that found an object still finds the same one; the table stays valid.
  pub emplace_lem :
      (t : Table A) (a : A)
      → IsValid t
      → length t.slots < 2 ^ 32
      → (h : Handle) × (t' : Table A) × (emplace t a ≡ some (h, t')) × Emplaced t a h t'
  emplace_lem t a v few = emplace_from t a t.free refl few v
