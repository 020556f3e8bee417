-- ===== src/Core/HandleTable/Tests.antt =====
-- The handle table at concrete inputs.
use affini_x.Base.{ℕ, ◌≡◌, refl, some, [], ◌∷◌, arith}
use affini_x.Core.HandleTable.Invariant.{IsValid, create-IsValid}
use affini_x.Core.HandleTable.Emplace.{Emplaced, emplace_lem}
use affini_x.Core.HandleTable.Stale.{apply-IsValid}
use affini_x.Core.HandleTable.{
  Handle, Table, create, emplace, get, release, reclaim, apply, run, emplaces, reclaims, retire,
  for_each, live_from,
}

abbrev fresh : Table ℕ
fresh = create 1

fresh-IsValid : IsValid fresh
fresh-IsValid = create-IsValid 1 (omega arith)

abbrev one_live : Table ℕ
one_live = apply fresh (emplaces 40)

one_live-IsValid : IsValid one_live
unfolding create
one_live-IsValid = apply-IsValid fresh (emplaces 40) (omega arith) fresh-IsValid

abbrev handle : Handle
handle = record { idx = 0; gen = 1 }

-- The slot is used again under the next generation.
reused :
    for_each (run (release one_live handle) (reclaims ∷ emplaces 41 ∷ []))
    ≡ (41, record { idx = 0; gen = 2 }) ∷ []
unfolding for_each run apply create emplace release get retire reclaim live_from
reused = refl

emplace_lem_example :
    (h : Handle) × (t' : Table ℕ) × (emplace one_live 41 ≡ some (h, t')) × Emplaced one_live 41 h t'
unfolding apply create emplace
emplace_lem_example = emplace_lem one_live 41 one_live-IsValid (omega arith)
