-- ===== src/Itc/SpscRing/Tests.antt =====
-- The ring at concrete inputs.
use affini_x.Base.{◌-◌, min, ◌≡◌, refl, [], ◌∷◌, ◌++◌, arith, length, take}
use native.Mathlib.Nat.{dvd_of_mod-eq-zero}
use affini_x.Itc.SpscRing.{SpscRing, create, try_push_bulk}
use affini_x.Itc.SpscRing.Queue.{IsValid, contents, create-IsValid, try_push_bulk_lem}

abbrev four : SpscRing
four = create 4

four-IsValid : IsValid four
four-IsValid = create-IsValid 4 (dvd_of_mod-eq-zero 4 refl) (omega arith) (omega arith)

abbrev two_items : SpscRing
two_items = (try_push_bulk four (5 ∷ 6 ∷ [])).1

two_items-IsValid : IsValid two_items
two_items-IsValid = (try_push_bulk_lem four (5 ∷ 6 ∷ []) four-IsValid).2

try_push_bulk_lem_example :
    let n = min 3 (two_items.cap - length (contents two_items)) in
    ((try_push_bulk two_items (7 ∷ 8 ∷ 9 ∷ [])).0 ≡ n)
    × (contents (try_push_bulk two_items (7 ∷ 8 ∷ 9 ∷ [])).1
        ≡ contents two_items ++ take n (7 ∷ 8 ∷ 9 ∷ []))
    × IsValid (try_push_bulk two_items (7 ∷ 8 ∷ 9 ∷ [])).1
try_push_bulk_lem_example = try_push_bulk_lem two_items (7 ∷ 8 ∷ 9 ∷ []) two_items-IsValid
