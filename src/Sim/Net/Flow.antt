-- ===== src/Sim/Net/Flow.antt =====
-- The two ends of a link across the changes of a delivery, and the mark behind which the next bytes land.
use affini_x.Base.{
  ℕ, ◌+◌, ◌≡◌, refl, sym, ap, subst, Bool, Option, none, some, List, [], ◌∷◌, if◌then◌else◌,
  get_elem?, set, get_elem?-set_ne, get_elem?-set_found, ℕ_discrete, arith,
}
use affini_x.Sim.Net.{
  Link, SimNet, bytes, event, erase_link, find_link, free_at, is_a_side, link_of, link_at, paired,
  push, push_pieces,
}

-- The descriptor at the other end of the link.
abbrev pub target : Link → ℕ → ℕ → ℕ
target l src fd = if is_a_side l src fd then l.b_fd else l.a_fd

-- When `fd` of `src` has a link, it leads to `f`, and the next bytes land no earlier than `t`.
abbrev pub LeadsTo : ℕ → ℕ → ℕ → ℕ → Option (ℕ × Link) → Type 0
LeadsTo src fd f t none = Unit
LeadsTo src fd f t (some (k, l)) = (target l src fd ≡ f) × (free_at l (is_a_side l src fd) ≡ t)

pub find_link-erase_self : (m : List (ℕ × ℕ)) (fd : ℕ) → find_link (erase_link m fd) fd ≡ none
find_link-erase_self [] fd = refl
find_link-erase_self ((k, l) ∷ m) fd = let ih = find_link-erase_self m fd in grind arith

pub find_link-erase_none :
    (m : List (ℕ × ℕ)) (fd g : ℕ) → find_link m fd ≡ none → find_link (erase_link m g) fd ≡ none
find_link-erase_none [] fd g e = refl
find_link-erase_none ((k, l) ∷ m) fd g e = let ih = find_link-erase_none m fd g in grind arith

paired-inv :
    (j : ℕ) (o : Option Link) (k : ℕ) (l : Link) → paired j o ≡ some (k, l) → (j ≡ k) × (o ≡ some l)
paired-inv j none k l e = cc
paired-inv j (some l') k l e = (cc, cc)

pub link_at-set :
    (links : List Link) (o : Option ℕ) (k : ℕ) (l l' : Link)
    → link_at links o ≡ some (k, l)
    → link_at (set links k l') o ≡ some (k, l')
link_at-set links none k l l' e = cc
link_at-set links (some j) k l l' e =
    let p = paired-inv j (get_elem? links j) k l e in
    rw p.0 (ap (paired k) (get_elem?-set_found links k l l' (rw (sym p.0) p.1)))

pub link_of-push_pieces :
    (fd due dst g : ℕ) (ps : List (List ℕ)) (n : SimNet)
    → link_of (push_pieces due dst g ps n) fd ≡ link_of n fd
unfolding push_pieces push
link_of-push_pieces fd due dst g [] n = refl
link_of-push_pieces fd due dst g (p ∷ ps) n =
    link_of-push_pieces fd (due + 1) dst g ps (push (event due (bytes p) dst g 0 0) n)

-- A partition, begun or ended, of any link leaves the ends and the mark of a link as they were.
pub LeadsTo-set_partitioned :
    (src fd f t : ℕ) (links : List Link) (o : Option ℕ) (k : ℕ) (l : Link) (p : Bool)
    → get_elem? links k ≡ some l
    → LeadsTo src fd f t (link_at links o)
    → LeadsTo src fd f t (link_at (set links k (record l { partitioned = p })) o)
LeadsTo-set_partitioned src fd f t links none k l p e w = tt
LeadsTo-set_partitioned src fd f t links (some j) k l p e w = elim (ℕ_discrete k j) [
  | yes same ↦
      let at_j : get_elem? links j ≡ some l = rw (sym same) e in
      let set_j = get_elem?-set_found links j l (record l { partitioned = p }) at_j in
      let w' : LeadsTo src fd f t (paired j (some l)) =
        subst (λ x. LeadsTo src fd f t (paired j x)) at_j w in
      rw same (rw set_j w')
  | no apart ↦ rw (get_elem?-set_ne links k j (record l { partitioned = p }) apart) w
]
