-- ===== src/Net/TcpClient/Order.antt =====
-- The order in which the addresses of both families are tried.
use mathlib.Core.List.{Perm, perm_middle, append-nil}
use mathlib.Core.List.Perm
use affini_x.Base.{
  ◌≡◌, refl, sym, ap, subst, ◌∙◌, Bool, not, true, false, List, [], ◌∷◌, ◌++◌, All, if_cases,
  if◌then◌else◌,
}
use affini_x.Net.TcpClient.{SockAddr}
use affini_x.Net.TcpClient.Attempts.{interleave, of_family, family_order}

abbrev OfFamily : Bool → SockAddr → Type 0
OfFamily six a = a.is_v6 ≡ six

of_family-same :
    (six : Bool) (a : SockAddr) (as' : List SockAddr)
    → a.is_v6 ≡ six
    → of_family six (a ∷ as') ≡ a ∷ of_family six as'
of_family-same true a as' e = ap (λ b. if b then a ∷ of_family true as' else of_family true as') e
of_family-same false a as' e =
    ap (λ b. if b then of_family false as' else a ∷ of_family false as') e

of_family-other :
    (six : Bool) (a : SockAddr) (as' : List SockAddr)
    → a.is_v6 ≡ not six
    → of_family six (a ∷ as') ≡ of_family six as'
of_family-other true a as' e = ap (λ b. if b then a ∷ of_family true as' else of_family true as') e
of_family-other false a as' e =
    ap (λ b. if b then of_family false as' else a ∷ of_family false as') e

interleave-perm : (v6 v4 : List SockAddr) → Perm (interleave v6 v4) (v6 ++ v4)
interleave-perm [] v4 = Perm.refl v4
interleave-perm (a ∷ v6) [] = subst (Perm (a ∷ v6)) (sym (append-nil (a ∷ v6))) (Perm.refl (a ∷ v6))
interleave-perm (a ∷ v6) (b ∷ v4) =
    Perm.cons a (Perm.trans (Perm.cons b (interleave-perm v6 v4)) (Perm.symm (perm_middle v6 v4)))

of_family-perm : (as' : List SockAddr) → Perm (of_family true as' ++ of_family false as') as'
of_family-perm [] = Perm.nil
of_family-perm (a ∷ as') = by_family a.is_v6 refl (Perm.cons a (of_family-perm as'))
  where
    by_family :
        (six : Bool)
        → a.is_v6 ≡ six
        → Perm (a ∷ of_family true as' ++ of_family false as') (a ∷ as')
        → Perm (of_family true (a ∷ as') ++ of_family false (a ∷ as')) (a ∷ as')
    by_family true e p = rw (of_family-same true a as' e, of_family-other false a as' e) p
    by_family false e p =
        rw (of_family-other true a as' e, of_family-same false a as' e)
          (Perm.trans (perm_middle (of_family true as') (of_family false as')) p)

of_family-All : (six : Bool) (as' : List SockAddr) → All (OfFamily six) (of_family six as')
of_family-All true [] = tt
of_family-All false [] = tt
of_family-All true (a ∷ as') =
    if_cases (All (OfFamily true)) a.is_v6 (a ∷ of_family true as') (of_family true as')
      (λ e. (e, of_family-All true as')) (λ e. of_family-All true as')
of_family-All false (a ∷ as') =
    if_cases (All (OfFamily false)) a.is_v6 (of_family false as') (a ∷ of_family false as')
      (λ e. of_family-All false as') (λ e. (e, of_family-All false as'))

of_family_nil :
    (six : Bool) (as' : List SockAddr) → All (OfFamily (not six)) as' → of_family six as' ≡ []
of_family_nil true [] h = refl
of_family_nil false [] h = refl
of_family_nil true (a ∷ as') h = of_family-other true a as' h.0 ∙ of_family_nil true as' h.1
of_family_nil false (a ∷ as') h = of_family-other false a as' h.0 ∙ of_family_nil false as' h.1

of_family_id : (six : Bool) (as' : List SockAddr) → All (OfFamily six) as' → of_family six as' ≡ as'
of_family_id true [] h = refl
of_family_id false [] h = refl
of_family_id true (a ∷ as') h =
    of_family-same true a as' h.0 ∙ ap (◌∷◌ a) (of_family_id true as' h.1)
of_family_id false (a ∷ as') h =
    of_family-same false a as' h.0 ∙ ap (◌∷◌ a) (of_family_id false as' h.1)

-- Each family keeps its order.
interleave-of_family :
    (v6 v4 : List SockAddr)
    → All (OfFamily true) v6
    → All (OfFamily false) v4
    → (of_family true (interleave v6 v4) ≡ v6) × (of_family false (interleave v6 v4) ≡ v4)
interleave-of_family [] v4 h k = (of_family_nil true v4 k, of_family_id false v4 k)
interleave-of_family (a ∷ v6) [] h k =
    (of_family_id true (a ∷ v6) h, of_family_nil false (a ∷ v6) h)
interleave-of_family (a ∷ v6) (b ∷ v4) h k =
    let r = interleave-of_family v6 v4 h.1 k.1 in
    let rest = interleave v6 v4 in
    (
      of_family-same true a (b ∷ rest) h.0 ∙ ap (◌∷◌ a) (of_family-other true b rest k.0 ∙ r.0),
      of_family-other false a (b ∷ rest) h.0 ∙ of_family-same false b rest k.0 ∙ ap (◌∷◌ b) r.1,
    )

-- Every address of the target is tried once, and within a family the addresses come in the order in which
-- they were resolved.
pub family_order-Perm :
    (as' : List SockAddr)
    → Perm (family_order as') as'
      × (of_family true (family_order as') ≡ of_family true as')
      × (of_family false (family_order as') ≡ of_family false as')
unfolding family_order
family_order-Perm as' =
    let r =
      interleave-of_family (of_family true as') (of_family false as') (of_family-All true as')
        (of_family-All false as') in
    (
      Perm.trans (interleave-perm (of_family true as') (of_family false as')) (of_family-perm as'),
      r.0,
      r.1,
    )
