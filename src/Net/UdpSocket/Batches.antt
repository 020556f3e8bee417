-- ===== src/Net/UdpSocket/Batches.antt =====
-- The batches that a datagram is handed over in, against its messages one by one.
use affini_x.Base.{
  ℕ, zero, suc, ◌+◌, ◌==◌, ◌≡◌, ◌≤◌, ◌<◌, refl, sym, ap, ◌∙◌, Bool, true, false, if◌then◌else◌,
  if_cases, List, [], ◌∷◌, ◌++◌, length, length-drop, drop, arith,
}
use mathlib.Core.List.{append-nil, append_assoc}
use affini_x.Net.Protocol.{ParseResult, message, need_more, error}
use affini_x.Net.UdpSocket.{
  Event, on_datagram, on_messages, on_error, Fault, truncated, framing, UdpSocket, Datagram, tell,
  flush, deliver_step, deliver_from, deliver,
}

module _ {M : Type 0} (parse : List ℕ → ParseResult M) where
  -- The messages that a datagram holds: parsed one after the other from its start, until what follows is no
  -- message.
  abbrev next_message : (ℕ → List M) → ParseResult M → List M
  next_message rest (message m n) = m ∷ rest n
  next_message rest (need_more n) = []
  next_message rest (error e) = []

  pub messages_in : ℕ → List ℕ → List M
  messages_in zero bytes = []
  messages_in (suc fuel) [] = []
  messages_in (suc fuel) (b ∷ bs) =
      next_message (λ n. messages_in fuel (drop n (b ∷ bs))) (parse (b ∷ bs))

  -- The messages that were handed over.
  pub handed_over : List (Event M) → List M
  handed_over [] = []
  handed_over (on_messages from ms ∷ es) = ms ++ handed_over es
  handed_over (on_datagram from bs ∷ es) = handed_over es
  handed_over (on_error f ∷ es) = handed_over es

  handed_over-flush : (from : ℕ) (msgs : List M) → handed_over (flush parse from msgs) ≡ msgs
  unfolding handed_over
  handed_over-flush from [] = refl
  handed_over-flush from (m ∷ ms) = append-nil (m ∷ ms)

  handed_over-tell :
      (told : Bool) (f : Fault) (es : List (Event M))
      → handed_over (tell parse told f ++ es) ≡ handed_over es
  unfolding handed_over
  handed_over-tell true f es = refl
  handed_over-tell false f es = refl

  handed_over-deliver_step :
      (s : UdpSocket) (from : ℕ) (msgs : List M) (rest : ℕ → List M → List (Event M))
      (left : ℕ → List M) (r : ParseResult M)
      → ((n : ℕ) (ms : List M) → handed_over (rest n ms) ≡ ms ++ left n)
      → handed_over (deliver_step parse s from msgs rest r) ≡ msgs ++ next_message left r
  unfolding handed_over
  handed_over-deliver_step s from msgs rest left (message m n) h =
      let all = msgs ++ m ∷ [] in
      let is_full = length all == s.capacity in
      let after = rest n (if is_full then [] else all) in
      if_cases (λ es. handed_over es ≡ msgs ++ m ∷ left n) is_full (on_messages from all ∷ after)
        after
        (λ e.
          ap (λ es. all ++ es)
            (h n (if is_full then [] else all) ∙ ap (λ b. (if b then [] else all) ++ left n) e)
          ∙ append_assoc msgs (m ∷ []) (left n))
        (λ e.
          h n (if is_full then [] else all)
          ∙ ap (λ b. (if b then [] else all) ++ left n) e
          ∙ append_assoc msgs (m ∷ []) (left n))
  handed_over-deliver_step s from msgs rest left (need_more n) h =
      handed_over-tell s.has_on_error truncated (flush parse from msgs)
      ∙ handed_over-flush from msgs
      ∙ sym (append-nil msgs)
  handed_over-deliver_step s from msgs rest left (error x) h =
      handed_over-tell s.has_on_error (framing x) (flush parse from msgs)
      ∙ handed_over-flush from msgs
      ∙ sym (append-nil msgs)

  handed_over-deliver_from :
      (fuel : ℕ) (s : UdpSocket) (from : ℕ) (bytes : List ℕ) (msgs : List M)
      → handed_over (deliver_from parse fuel s from bytes msgs) ≡ msgs ++ messages_in fuel bytes
  unfolding deliver_from messages_in
  handed_over-deliver_from zero s from bytes msgs =
      handed_over-flush from msgs ∙ sym (append-nil msgs)
  handed_over-deliver_from (suc fuel) s from [] msgs =
      handed_over-flush from msgs ∙ sym (append-nil msgs)
  handed_over-deliver_from (suc fuel) s from (b ∷ bs) msgs =
      handed_over-deliver_step s from msgs
        (λ n ms. deliver_from parse fuel s from (drop n (b ∷ bs)) ms)
        (λ n. messages_in fuel (drop n (b ∷ bs))) (parse (b ∷ bs))
        (λ n ms. handed_over-deliver_from fuel s from (drop n (b ∷ bs)) ms)

  -- More fuel than there are bytes changes nothing, where every frame takes a byte at least.
  messages_in-enough :
      ((bs : List ℕ) (m : M) (n : ℕ) → parse bs ≡ message m n → 0 < n)
      → (fuel : ℕ) (bytes : List ℕ) → length bytes ≤ fuel
      → messages_in (suc fuel) bytes ≡ messages_in fuel bytes
  unfolding messages_in
  messages_in-enough g zero [] h = refl
  messages_in-enough g zero (b ∷ bs) h = absurd (omega (arith, h))
  messages_in-enough g (suc fuel) [] h = refl
  messages_in-enough g (suc fuel) (b ∷ bs) h =
      by_parse (parse (b ∷ bs)) (g (b ∷ bs))
        (λ n k. messages_in-enough g fuel (drop n (b ∷ bs)) (shorter n k))
    where
      shorter : (n : ℕ) → 0 < n → length (drop n (b ∷ bs)) ≤ fuel
      shorter n k = omega (arith, h, length-drop n (b ∷ bs))

      by_parse :
          (r : ParseResult M)
          → ((m : M) (n : ℕ) → r ≡ message m n → 0 < n)
          → ((n : ℕ)
              → 0 < n
              → messages_in (suc fuel) (drop n (b ∷ bs)) ≡ messages_in fuel (drop n (b ∷ bs)))
          → next_message (λ n. messages_in (suc fuel) (drop n (b ∷ bs))) r
            ≡ next_message (λ n. messages_in fuel (drop n (b ∷ bs))) r
      by_parse (message m n) k ih = ap (◌∷◌ m) (ih n (k m n refl))
      by_parse (need_more n) k ih = refl
      by_parse (error e) k ih = refl

  messages_in-more :
      ((bs : List ℕ) (m : M) (n : ℕ) → parse bs ≡ message m n → 0 < n)
      → (more : ℕ) (bytes : List ℕ)
      → messages_in (more + length bytes) bytes ≡ messages_in (length bytes) bytes
  messages_in-more g zero bytes = ap (λ n. messages_in n bytes) (zero_plus (length bytes))
    where
      zero_plus : (n : ℕ) → 0 + n ≡ n
      zero_plus n = omega arith
  messages_in-more g (suc more) bytes =
      ap (λ n. messages_in n bytes) (suc_plus more (length bytes))
      ∙ messages_in-enough g (more + length bytes) bytes (omega arith)
      ∙ messages_in-more g more bytes
    where
      suc_plus : (m n : ℕ) → suc m + n ≡ suc (m + n)
      suc_plus m n = omega arith

-- A socket with on_messages and no on_datagram, where every frame takes a byte at least: over all its calls
-- on_messages is handed the messages of a datagram in their order, none twice and none left out, as they
-- are parsed one after the other with any number of rounds that is no less than that of the bytes.
pub handed_over-deliver :
    {M : Type 0} (parse : List ℕ → ParseResult M) (s : UdpSocket) (d : Datagram) (more : ℕ)
    → ((bs : List ℕ) (m : M) (n : ℕ) → parse bs ≡ message m n → 0 < n)
    → s.has_on_datagram ≡ false
    → s.has_on_messages ≡ true
    → handed_over parse (deliver parse s d) ≡ messages_in parse (more + length d.bytes) d.bytes
unfolding deliver
handed_over-deliver parse s d more g h k =
    let parsed = deliver_from parse (length d.bytes) s d.from d.bytes [] in
    ap
      (λ b.
        handed_over parse
          (if b then on_datagram d.from d.bytes ∷ [] else if s.has_on_messages then parsed else []))
      h
    ∙ ap (λ b. handed_over parse (if b then parsed else [])) k
    ∙ handed_over-deliver_from parse (length d.bytes) s d.from d.bytes []
    ∙ sym (messages_in-more parse g more d.bytes)
