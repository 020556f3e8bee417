-- ===== src/Itc/MpscRing/Load.antt =====
-- The loads of a push.
use native.Mathlib.Nat.{mod-lt}
use affini_x.Base.{
  if_cases, ℕ, ◌+◌, ◌%◌, ◌^◌, ◌≤◌, ◌<◌, ◌≡◌, ◌≢◌, inl, inr, refl, sym, ap, subst, ◌∙◌, true, Option,
  none, some, arith, ◌==◌, length, dec_lt,
}
use affini_x.Itc.SpscRing.{sub_size}
use affini_x.Itc.MpscRing.{
  Producer, idle, looks, swaps, reloads, System, index, put, load_pos, load_seq,
}
use affini_x.Itc.MpscRing.Sound.{owned, Knows, low_of, IsSound, update-All, Apart-update}
use affini_x.Itc.MpscRing.Word.{sub_size_zero, wrap_lem, mod_round}

-- Few enough items have been pushed for positions to stay below 2^63.
abbrev pub IsShort : System → Type 0
IsShort s = length s.claimed + s.ring.cap + 1 < 2 ^ 63

pub put-IsSound :
    (k : ℕ) (p : Producer) (s : System)
    → IsSound s
    → Knows s.ring.cap s.ring.cells (low_of s) s.claimed p
    → ((j q : ℕ) → k ≢ j → owned p ≡ some q → owned (s.producers j) ≢ some q)
    → IsSound (put k p s)
put-IsSound k p s w e h = record {
  wide = w.wide;
  tail = w.tail;
  above = w.above;
  within = w.within;
  cells = w.cells;
  owners =
      update-All (Knows s.ring.cap s.ring.cells (low_of s) s.claimed) s.producers k p e w.owners;
  apart = Apart-update s.producers k p w.apart h;
  follows = w.follows;
  seqs = w.seqs;
  order = w.order;
}

pub some-injective : {a b : ℕ} → ◌≡◌ {A = Option ℕ} (some a) (some b) → a ≡ b
some-injective e = cc

pub unowned : (p : Producer) → owned p ≡ none → (q : ℕ) → owned p ≢ some q
unowned p e q h = absurd (lemma (sym e ∙ h))
  where
    lemma : {o : ℕ} → ◌≡◌ {A = Option ℕ} none (some o) → ⊥
    lemma h = cc

pub load_pos-IsSound : (k v : ℕ) (s : System) → IsSound s → IsSound (load_pos k v s)
load_pos-IsSound k v s w =
    put-IsSound k (looks v s.ring.enq_pos) s w (omega (arith, w.tail))
      (λ j q h e. absurd (unowned (looks v s.ring.enq_pos) refl q e))

-- A sequence number equal to a position at the tail is that of a free cell of the round.
pub free_within :
    (s : System) (p : ℕ)
    → IsSound s
    → (s.ring.cells (p % s.ring.cap)).seq ≡ p
    → length s.claimed ≡ p
    → p < low_of s + s.ring.cap
free_within s p w e t = elim (dec_lt p (low_of s + s.ring.cap)) [
  | yes lt ↦ lt
  | no ge ↦
      let top : p ≡ low_of s + s.ring.cap = omega (arith, w.within, ge, t) in
      let same : (s.ring.cells (low_of s % s.ring.cap)).seq ≡ p =
        ap (λ i. (s.ring.cells i).seq)
          (sym (mod_round (low_of s) s.ring.cap (omega (arith, w.wide)))
            ∙ ap (λ q. q % s.ring.cap) (sym top))
        ∙ e in
      elim (w.cells (low_of s) (omega arith) (omega (arith, w.wide))) [
        | inl f ↦ omega (arith, f, same, top, w.wide)
        | inr f ↦ omega (arith, f.1, same, top, w.wide)
      ]
]

pub load_seq-IsSound :
    (k v pos : ℕ) (s : System)
    → IsShort s
    → IsSound s
    → s.producers k ≡ looks v pos
    → IsSound (load_seq k v pos s)
load_seq-IsSound k v pos s b w e =
    let known : pos ≤ length s.claimed =
      subst (Knows s.ring.cap s.ring.cells (low_of s) s.claimed) e (w.owners k) in
    let at : index s.ring pos ≡ pos % s.ring.cap =
      wrap_lem pos s.ring.cap (omega (arith, b, known)) in
    let small = w.seqs (pos % s.ring.cap) (mod-lt pos (omega (arith, w.wide))) in
    if_cases IsSound _ _ _
      (λ z.
        let equal : (s.ring.cells (pos % s.ring.cap)).seq ≡ pos =
          sub_size_zero _ pos small (omega (arith, b, known))
            (subst (λ i. sub_size (s.ring.cells i).seq pos == 0 ≡ true) at z) in
        put-IsSound k (swaps v pos) s w (known, λ t. free_within s pos w equal t)
          (λ j q h d. absurd (unowned (swaps v pos) refl q d)))
      (λ _.
        if_cases IsSound _ _ _
          (λ _. put-IsSound k (reloads v) s w tt (λ j q h d. absurd (unowned (reloads v) refl q d)))
          (λ _.
            let u = put-IsSound k idle s w tt (λ j q h d. absurd (unowned idle refl q d)) in
            record {
              wide = u.wide;
              tail = u.tail;
              above = u.above;
              within = u.within;
              cells = u.cells;
              owners = u.owners;
              apart = u.apart;
              follows = u.follows;
              seqs = u.seqs;
              order = u.order;
            }))
