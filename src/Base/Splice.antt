-- ===== src/Base/Splice.antt =====
-- Writes of a run of bytes into an array, and the runs that are read back.
use Prim.Native.Nat.{ℕ, zero, suc, ◌+◌, ◌-◌, ◌≤◌}
use mathlib.Core.Path.{◌≡◌, refl, sym, ap, ◌∙◌}
use mathlib.Core.List.{List, [], ◌∷◌, ◌++◌, append-nil}
use native.Mathlib.Omega.{arith}
use affini_x.Base.Lists.{length, take, drop, length-append, length-take, length-drop}

module _ {ℓ} {A : Type ℓ} where
  -- `xs` written over the array from index `i` on; the caller sees to it that they fit.
  abbrev pub splice : List A → ℕ → List A → List A
  splice [] i xs = []
  splice (b ∷ bs) zero xs = xs ++ drop (length xs) (b ∷ bs)
  splice (b ∷ bs) (suc i) xs = b ∷ splice bs i xs

  abbrev pub slice : List A → ℕ → ℕ → List A
  slice bs i n = take n (drop i bs)

  pub length-splice :
      (bs : List A) (i : ℕ) (xs : List A)
      → i + length xs ≤ length bs
      → length (splice bs i xs) ≡ length bs
  length-splice [] i xs h = refl
  length-splice (b ∷ bs) zero xs h =
      omega (arith, length-append xs (drop (length xs) (b ∷ bs)), length-drop (length xs) (b ∷ bs))
  length-splice (b ∷ bs) (suc i) xs h = ap suc (length-splice bs i xs (omega arith))

  take_all : (xs : List A) (n : ℕ) → length xs ≤ n → take n xs ≡ xs
  take_all [] zero h = refl
  take_all [] (suc n) h = refl
  take_all (x ∷ xs) zero h = absurd (omega arith)
  take_all (x ∷ xs) (suc n) h = ap (◌∷◌ x) (take_all xs n (omega arith))

  take-append_self : (xs ys : List A) → take (length xs) (xs ++ ys) ≡ xs
  take-append_self [] ys = refl
  take-append_self (x ∷ xs) ys = ap (◌∷◌ x) (take-append_self xs ys)

  take-splice :
      (bs : List A) (n m : ℕ) (xs : List A)
      → m ≡ n + length xs
      → m ≤ length bs
      → take m (splice bs n xs) ≡ take n bs ++ xs
  take-splice [] zero zero [] e h = refl
  take-splice [] zero zero (x ∷ xs) e h = absurd (omega arith)
  take-splice [] zero (suc m) xs e h = absurd (omega arith)
  take-splice [] (suc n) zero xs e h = absurd (omega arith)
  take-splice [] (suc n) (suc m) xs e h = absurd (omega arith)
  take-splice (b ∷ bs) zero m xs e h =
      let e' : m ≡ length xs = omega arith in
      ap (λ k. take k (xs ++ drop (length xs) (b ∷ bs))) e' ∙ take-append_self xs _
  take-splice (b ∷ bs) (suc n) zero xs e h = absurd (omega arith)
  take-splice (b ∷ bs) (suc n) (suc m) xs e h =
      ap (◌∷◌ b) (take-splice bs n m xs (omega arith) (omega arith))

  -- Bytes written right behind a run extend it.
  pub slice-splice :
      (bs : List A) (s n m : ℕ) (xs : List A) (i : ℕ)
      → i ≡ s + n
      → m ≡ n + length xs
      → s + m ≤ length bs
      → slice (splice bs i xs) s m ≡ slice bs s n ++ xs
  slice-splice bs zero n m xs i d e h =
      let d' : i ≡ n = omega arith in
      ap (λ k. take m (splice bs k xs)) d' ∙ take-splice bs n m xs e (omega arith)
  slice-splice [] (suc s) n m xs i d e h = absurd (omega arith)
  slice-splice (b ∷ bs) (suc s) n m xs zero d e h = absurd (omega arith)
  slice-splice (b ∷ bs) (suc s) n m xs (suc i) d e h =
      slice-splice bs s n m xs i (omega arith) e (omega arith)

  splice-zero :
      (bs xs : List A) → length xs ≤ length bs → splice bs 0 xs ≡ xs ++ drop (length xs) bs
  splice-zero [] [] h = refl
  splice-zero [] (x ∷ xs) h = absurd (omega arith)
  splice-zero (b ∷ bs) xs h = refl

  take-append_more :
      (xs ys : List A) (n m : ℕ) → m ≡ length xs + n → take m (xs ++ ys) ≡ xs ++ take n ys
  take-append_more [] ys n m e = let e' : m ≡ n = omega arith in ap (λ k. take k ys) e'
  take-append_more (x ∷ xs) ys n zero e = absurd (omega arith)
  take-append_more (x ∷ xs) ys n (suc m) e = ap (◌∷◌ x) (take-append_more xs ys n m (omega arith))

  -- Bytes written right before a run.
  pub slice-splice_front :
      (bs : List A) (s n : ℕ) (xs : List A) (i m : ℕ)
      → s ≡ i + length xs
      → m ≡ length xs + n
      → i + m ≤ length bs
      → slice (splice bs i xs) i m ≡ xs ++ slice bs s n
  slice-splice_front bs s n xs zero m d e h =
      let d' : length xs ≡ s = omega arith in
      ap (take m) (splice-zero bs xs (omega arith))
      ∙ take-append_more xs (drop (length xs) bs) n m e
      ∙ ap (λ k. xs ++ take n (drop k bs)) d'
  slice-splice_front [] s n xs (suc i) m d e h = absurd (omega arith)
  slice-splice_front (b ∷ bs) zero n xs (suc i) m d e h = absurd (omega arith)
  slice-splice_front (b ∷ bs) (suc s) n xs (suc i) m d e h =
      slice-splice_front bs s n xs i m (omega arith) e (omega arith)

  drop-take : (ys : List A) (n m k : ℕ) → n ≡ m + k → drop k (take n ys) ≡ take m (drop k ys)
  drop-take ys n m zero e = let e' : n ≡ m = omega arith in ap (λ j. take j ys) e'
  drop-take [] zero m (suc k) e = absurd (omega arith)
  drop-take [] (suc n) zero (suc k) e = refl
  drop-take [] (suc n) (suc m) (suc k) e = refl
  drop-take (y ∷ ys) zero m (suc k) e = absurd (omega arith)
  drop-take (y ∷ ys) (suc n) m (suc k) e = drop-take ys n m k (omega arith)

  pub drop-drop : (bs : List A) (s k t : ℕ) → t ≡ s + k → drop t bs ≡ drop k (drop s bs)
  drop-drop bs zero k t e = let e' : t ≡ k = omega arith in ap (λ j. drop j bs) e'
  drop-drop bs (suc s) k zero e = absurd (omega arith)
  drop-drop [] (suc s) zero (suc t) e = refl
  drop-drop [] (suc s) (suc k) (suc t) e = refl
  drop-drop (b ∷ bs) (suc s) k (suc t) e = drop-drop bs s k t (omega arith)

  -- A shorter run from further on.
  pub slice-drop :
      (bs : List A) (s n k : ℕ) → k ≤ n → slice bs (s + k) (n - k) ≡ drop k (slice bs s n)
  slice-drop bs s n k h =
      ap (take (n - k)) (drop-drop bs s k (s + k) refl)
      ∙ sym (drop-take (drop s bs) n (n - k) k (omega arith))

  pub length-slice : (bs : List A) (s n : ℕ) → s + n ≤ length bs → length (slice bs s n) ≡ n
  length-slice bs s n h = length-take n (drop s bs) (omega (arith, length-drop s bs))

  -- A run that is overwritten with itself, or written into a larger array, reads the same.
  pub slice-splice_self :
      (bs xs : List A) (i : ℕ)
      → i + length xs ≤ length bs
      → slice (splice bs i xs) i (length xs) ≡ xs
  slice-splice_self bs xs i h =
      slice-splice_front bs (i + length xs) 0 xs i (length xs) refl (omega arith) h ∙ append-nil xs

  unfoldable pub replicate : ℕ → A → List A
  replicate zero a = []
  replicate (suc n) a = a ∷ replicate n a

  pub length-replicate : (n : ℕ) (a : A) → length (replicate n a) ≡ n
  unfolding replicate
  length-replicate zero a = refl
  length-replicate (suc n) a = ap suc (length-replicate n a)
