-- ===== src/Sys/Endian/Orders.antt =====
-- The wire order does not depend on the machine.
use affini_x.Base.{
  ℕ, zero, suc, ◌+◌, ◌*◌, ◌/◌, ◌%◌, ◌^◌, ◌<◌, ◌≡◌, refl, ap, ap₂, ◌∙◌, Bool, true, false, List, [],
  ◌∷◌, ◌++◌, reverse, arith, length, length-append, All,
}
use mathlib.Core.List.{reverse-cons, reverse-reverse}
use affini_x.Sys.Endian.{to_bytes, of_bytes, byteswap, le, be, in_memory}

length-to_bytes : (w v : ℕ) → length (to_bytes w v) ≡ w
unfolding to_bytes
length-to_bytes zero v = refl
length-to_bytes (suc w) v = ap suc (length-to_bytes w (v / 256))

All-to_bytes : (w v : ℕ) → All (λ b. b < 256) (to_bytes w v)
unfolding to_bytes
All-to_bytes zero v = tt
All-to_bytes (suc w) v = (omega arith, All-to_bytes w (v / 256))

of_bytes-to_bytes : (w v : ℕ) → v < 256 ^ w → of_bytes (to_bytes w v) ≡ v
unfolding to_bytes of_bytes
of_bytes-to_bytes zero v h = omega (arith, h)
of_bytes-to_bytes (suc w) v h = omega (arith, of_bytes-to_bytes w (v / 256) (omega (arith, h)))

to_bytes-of_bytes :
    (w : ℕ) (bs : List ℕ) → length bs ≡ w → All (λ b. b < 256) bs → to_bytes w (of_bytes bs) ≡ bs
unfolding to_bytes of_bytes
to_bytes-of_bytes zero [] l a = refl
to_bytes-of_bytes zero (b ∷ bs) l a = absurd (omega arith)
to_bytes-of_bytes (suc w) [] l a = absurd (omega arith)
to_bytes-of_bytes (suc w) (b ∷ bs) l a =
    let low : (b + 256 * of_bytes bs) % 256 ≡ b = omega (arith, a.0) in
    let high : (b + 256 * of_bytes bs) / 256 ≡ of_bytes bs = omega (arith, a.0) in
    ap₂ (λ x xs. x ∷ xs) low (ap (to_bytes w) high ∙ to_bytes-of_bytes w bs (omega arith) a.1)

length-reverse : (bs : List ℕ) → length (reverse bs) ≡ length bs
length-reverse [] = refl
length-reverse (b ∷ bs) =
    rw reverse-cons (omega (arith, length-append (reverse bs) (b ∷ []), length-reverse bs))

All-append :
    (bs cs : List ℕ) → All (λ b. b < 256) bs → All (λ b. b < 256) cs → All (λ b. b < 256) (bs ++ cs)
All-append [] cs a c = c
All-append (b ∷ bs) cs a c = (a.0, All-append bs cs a.1 c)

All-reverse : (bs : List ℕ) → All (λ b. b < 256) bs → All (λ b. b < 256) (reverse bs)
All-reverse [] a = tt
All-reverse (b ∷ bs) a =
    rw reverse-cons (All-append (reverse bs) (b ∷ []) (All-reverse bs a.1) (a.0, tt))

to_bytes-byteswap : (w v : ℕ) → to_bytes w (byteswap w v) ≡ reverse (to_bytes w v)
unfolding byteswap
to_bytes-byteswap w v =
    to_bytes-of_bytes w (reverse (to_bytes w v))
      (length-reverse (to_bytes w v) ∙ length-to_bytes w v)
      (All-reverse (to_bytes w v) (All-to_bytes w v))

byteswap-byteswap : (w v : ℕ) → v < 256 ^ w → byteswap w (byteswap w v) ≡ v
unfolding byteswap
byteswap-byteswap w v h =
    ap (λ bs. of_bytes (reverse bs)) (to_bytes-byteswap w v)
    ∙ ap of_bytes (reverse-reverse (to_bytes w v))
    ∙ of_bytes-to_bytes w v h

-- On a machine of either order, what `be` and `le` give stands in memory with the highest and the lowest
-- byte first, and applying either twice gives back a value that fits into the width.
pub be_le_lem :
    (little : Bool) (w v : ℕ)
    → v < 256 ^ w
    → (in_memory little w (be little w v) ≡ reverse (to_bytes w v))
      × (in_memory little w (le little w v) ≡ to_bytes w v)
      × (be little w (be little w v) ≡ v)
      × (le little w (le little w v) ≡ v)
unfolding be le in_memory
be_le_lem true w v h = (to_bytes-byteswap w v, refl, byteswap-byteswap w v h, refl)
be_le_lem false w v h = (
  refl,
  ap reverse (to_bytes-byteswap w v) ∙ reverse-reverse (to_bytes w v),
  refl,
  byteswap-byteswap w v h,
)
