-- ===== src/Backend/Sim/Stream.antt =====
-- The bytes that are fed to a descriptor come out of its reads, all and in order.
use affini_x.Base.{
  ℕ, min, ◌≡◌, refl, sym, ap, ◌∙◌, Bool, true, false, not, List, [], ◌∷◌, ◌++◌, ◌&&◌, ◌||◌, arith,
  ◌==◌, if◌then◌else◌, length, take, drop, take-append-drop,
}
use mathlib.Core.List.{append_assoc, append-nil}
use affini_x.Backend.Sim.{
  Completion, FdState, Outcome, received, value, fails, pump_recv, arm_recv, feed_fd, close_fd,
  fail_fd, cancel_fd, push, ecanceled,
}

-- What may happen to a descriptor that is read from.
pub data FdOp : Type 0 where
  reads : ℕ → ℕ → FdOp
  feeds : List ℕ → FdOp
  peer_closes : FdOp
  peer_fails : ℕ → FdOp
  cancels : ℕ → FdOp

pub apply : FdOp → FdState → FdState × List Completion
apply (reads u size) s = arm_recv u size s
apply (feeds bytes) s = feed_fd bytes s
apply peer_closes s = close_fd s
apply (peer_fails err) s = fail_fd err s
apply (cancels u) s = cancel_fd u s

pub run : List FdOp → FdState → FdState × List Completion
unfolding apply
run [] s = (s, [])
run (o ∷ os) s = let (s1, cs) = apply o s in let (s2, cs') = run os s1 in (s2, cs ++ cs')

abbrev pub payload : Outcome → List ℕ
payload (received bs) = bs
payload (value n) = []
payload (fails e) = []

abbrev pub bytes_of : List Completion → List ℕ
bytes_of [] = []
bytes_of (c ∷ cs) = payload c.result ++ bytes_of cs

abbrev pub fed : List FdOp → List ℕ
fed [] = []
fed (feeds bytes ∷ os) = bytes ++ fed os
fed (o ∷ os) = fed os

bytes_of-append : (cs ds : List Completion) → bytes_of (cs ++ ds) ≡ bytes_of cs ++ bytes_of ds
bytes_of-append [] ds = refl
bytes_of-append (c ∷ cs) ds =
    ap (λ k. payload c.result ++ k) (bytes_of-append cs ds)
    ∙ sym (append_assoc (payload c.result) (bytes_of cs) (bytes_of ds))

abbrev Streams : List ℕ → FdState × List Completion → Type 0
Streams bytes (s', cs) = bytes_of cs ++ s'.inbound ≡ bytes

pump-Streams : (s : FdState) → Streams s.inbound (pump_recv s)
unfolding pump_recv
pump-Streams s =
    let n = min (length s.inbound) s.recv_size in
    let e : (take n s.inbound ++ []) ++ drop n s.inbound ≡ s.inbound =
      ap (λ k. k ++ drop n s.inbound) (append-nil (take n s.inbound))
      ∙ take-append-drop n s.inbound in
    ground (arith, e)

cancel-Streams : (u : ℕ) (s : FdState) → Streams s.inbound (cancel_fd u s)
unfolding cancel_fd
cancel-Streams u s =
    let r = s.recv_armed && (s.recv_ud == u) in
    let a = s.accept_armed && (s.accept_ud == u) in
    let c = s.connect_pending && (s.connect_ud == u) in ap (λ k. k ++ s.inbound) (three r a c)
  where
    three :
        (r a c : Bool)
        → bytes_of (
            (if r then push u (fails ecanceled) else [])
            ++ (if a then push u (fails ecanceled) else [])
            ++ (if c then push u (fails ecanceled) else []))
          ≡ []
    three true true true = refl
    three true true false = refl
    three true false true = refl
    three true false false = refl
    three false true true = refl
    three false true false = refl
    three false false true = refl
    three false false false = refl

apply-Streams : (o : FdOp) (s : FdState) → Streams (s.inbound ++ fed (o ∷ [])) (apply o s)
unfolding apply arm_recv feed_fd close_fd fail_fd
apply-Streams (reads u size) s =
    pump-Streams (record s { recv_armed = true; recv_ud = u; recv_size = size })
    ∙ sym (append-nil s.inbound)
apply-Streams (feeds bytes) s =
    let p = pump-Streams (record s { inbound = s.inbound ++ bytes }) in
    let e = ap (λ k. s.inbound ++ k) (append-nil bytes) in ground (arith, p, e)
apply-Streams peer_closes s =
    let p = pump-Streams (record s { peer_closed = true }) in
    ground (arith, p, append-nil s.inbound)
apply-Streams (peer_fails err) s =
    let p = pump-Streams (record s { peer_err = err }) in ground (arith, p, append-nil s.inbound)
apply-Streams (cancels u) s = cancel-Streams u s ∙ sym (append-nil s.inbound)

fed-cons : (o : FdOp) (os : List FdOp) → fed (o ∷ os) ≡ fed (o ∷ []) ++ fed os
fed-cons (reads u size) os = refl
fed-cons (feeds bytes) os = ap (λ k. k ++ fed os) (sym (append-nil bytes))
fed-cons peer_closes os = refl
fed-cons (peer_fails err) os = refl
fed-cons (cancels u) os = refl

-- Whatever happens to a descriptor, reads of any size, cancels and failures included: the bytes that
-- its reads returned and then those that wait are the bytes that waited first and then those fed.
pub run_stream :
    (os : List FdOp) (s : FdState)
    → let (s', cs) = run os s in bytes_of cs ++ s'.inbound ≡ s.inbound ++ fed os
unfolding run
run_stream [] s = sym (append-nil s.inbound)
run_stream (o ∷ os) s =
    let (s1, cs) = apply o s in
    let (s2, cs') = run os s1 in
    ap (λ k. k ++ s2.inbound) (bytes_of-append cs cs')
    ∙ append_assoc (bytes_of cs) (bytes_of cs') s2.inbound
    ∙ ap (λ k. bytes_of cs ++ k) (run_stream os s1)
    ∙ sym (append_assoc (bytes_of cs) s1.inbound (fed os))
    ∙ ap (λ k. k ++ fed os) (apply-Streams o s)
    ∙ append_assoc s.inbound (fed (o ∷ [])) (fed os)
    ∙ ap (λ k. s.inbound ++ k) (sym (fed-cons o os))

-- Nothing that would complete a read is there while one is armed.
IsPumped : FdState → Type 0
IsPumped s =
    s.recv_armed ≡ true → (s.peer_err ≡ 0) × (length s.inbound ≡ 0) × (s.peer_closed ≡ false)

pump-IsPumped : (s : FdState) → IsPumped (pump_recv s).0
unfolding pump_recv IsPumped
pump-IsPumped s = λ e. (ground (arith, e), ground (arith, e), ground (arith, e))

if_armed-IsPumped :
    (s : FdState) (b : Bool) → s.recv_armed ≡ b → IsPumped (if b then pump_recv s else (s, [])).0
unfolding IsPumped
if_armed-IsPumped s true e = pump-IsPumped s
if_armed-IsPumped s false e = λ e'. absurd (ground (arith, e, e'))

apply-IsPumped : (o : FdOp) (s : FdState) → IsPumped s → IsPumped (apply o s).0
unfolding apply arm_recv feed_fd close_fd fail_fd cancel_fd IsPumped
apply-IsPumped (reads u size) s w =
    pump-IsPumped (record s { recv_armed = true; recv_ud = u; recv_size = size })
apply-IsPumped (feeds bytes) s w =
    let s' : FdState = record s { inbound = s.inbound ++ bytes } in
    if_armed-IsPumped s' s'.recv_armed refl
apply-IsPumped peer_closes s w =
    let s' : FdState = record s { peer_closed = true } in if_armed-IsPumped s' s'.recv_armed refl
apply-IsPumped (peer_fails err) s w =
    let s' : FdState = record s { peer_err = err } in if_armed-IsPumped s' s'.recv_armed refl
apply-IsPumped (cancels u) s w =
    λ e. (ground (arith, e, w), ground (arith, e, w), ground (arith, e, w))

run-IsPumped : (os : List FdOp) (s : FdState) → IsPumped s → IsPumped (run os s).0
unfolding run
run-IsPumped [] s w = w
run-IsPumped (o ∷ os) s w = run-IsPumped os (apply o s).0 (apply-IsPumped o s w)

-- A read is armed though there are bytes, a close or a failure that it could complete with.
abbrev pub is_stuck : FdState → Bool
is_stuck s = s.recv_armed && (not (s.peer_err == 0) || not (length s.inbound == 0) || s.peer_closed)

not_stuck : (s : FdState) → is_stuck s ≡ false → IsPumped s
unfolding IsPumped
not_stuck s e = λ a. (ground (arith, e, a), ground (arith, e, a), ground (arith, e, a))

pumped : (s : FdState) → IsPumped s → is_stuck s ≡ false
unfolding IsPumped
pumped s w = ground (arith, w)

-- Whatever happens to a descriptor, a read is never left armed while bytes, a close or a failure wait.
pub run-is_stuck :
    (os : List FdOp) (s : FdState) → is_stuck s ≡ false → is_stuck (run os s).0 ≡ false
run-is_stuck os s e = pumped (run os s).0 (run-IsPumped os s (not_stuck s e))
