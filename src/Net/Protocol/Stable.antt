-- ===== src/Net/Protocol/Stable.antt =====
-- A framer's answer and the bytes that come later.
use affini_x.Base.{
  ℕ, ◌+◌, ◌-◌, ◌^◌, ◌≤◌, ◌<◌, ◌≡◌, refl, sym, ap, ◌∙◌, subst, true, false, List, ◌++◌, arith, ltb,
  length, take, drop, slice, length-append, length-take, take-append_left, drop-append_left,
  length-drop, dec_lt,
}
use affini_x.Net.Protocol.{
  ParseResult, message, need_more, error, Result, ok, fail, FrameView, FixedHeaderProtocol, parse,
  parse_valid, parse_body, parse_frame,
}

module _ {H : Type 0} where
  -- What the answer to `inp` says of the answer to more bytes.
  Foretells : FixedHeaderProtocol H → List ℕ → List ℕ → ParseResult (FrameView H) → Type 0
  Foretells p inp more (message m k) =
      (parse p (inp ++ more) ≡ message m k)
      × (p.header_size ≤ k)
      × (k ≤ length inp)
      × (length m.body + p.header_size ≡ k)
  Foretells p inp more (error e) = parse p (inp ++ more) ≡ error e
  Foretells p inp more (need_more n) =
      (0 < n) × (length more < n → parse p (inp ++ more) ≡ need_more (n - length more))

  -- The sizes that the protocol answers fit a `size_t` together with the header.
  abbrev pub Fits : FixedHeaderProtocol H → Type 0
  Fits p = (h : H) (size : ℕ) → p.body_size h ≡ ok size → p.header_size + size < 2 ^ 64

  body-Foretells :
      (p : FixedHeaderProtocol H) (inp more : List ℕ) (h : H) (r : Result ℕ)
      → ((size : ℕ) → r ≡ ok size → p.header_size + size < 2 ^ 64)
      → parse p (inp ++ more) ≡ parse_body p h r (inp ++ more)
      → p.header_size ≤ length inp
      → Foretells p inp more (parse_body p h r inp)
  unfolding Foretells
  body-Foretells p inp more h (fail e) fit long ge = long
  body-Foretells p inp more h (ok size) fit long ge =
      subst (Foretells p inp more) (sym (exact inp))
        (go (dec_lt (length inp) (p.header_size + size)))
    where
      exact :
          (bytes : List ℕ)
          → parse_body p h (ok size) bytes ≡ parse_frame p h size (p.header_size + size) bytes
      exact bytes = ap (λ t. parse_frame p h size t bytes) (omega (arith, fit size refl))

      go :
          Dec (length inp < p.header_size + size)
          → Foretells p inp more (parse_frame p h size (p.header_size + size) inp)
      go (yes lt) =
          let e : ltb (length inp) (p.header_size + size) ≡ true = ground arith in
          rw e (
            omega (arith, lt),
            λ few.
                let f : ltb (length (inp ++ more)) (p.header_size + size) ≡ true =
                  ground (arith, few, length-append inp more) in
                long
                ∙ exact (inp ++ more)
                ∙ rw f (ap need_more (omega (arith, length-append inp more))),
          )
      go (no le) =
          let e : ltb (length inp) (p.header_size + size) ≡ false = ground arith in
          let f : ltb (length (inp ++ more)) (p.header_size + size) ≡ false =
            ground (arith, length-append inp more) in
          let b : slice (inp ++ more) p.header_size size ≡ slice inp p.header_size size =
            ap (take size) (drop-append_left p.header_size inp more ge)
            ∙ take-append_left size (drop p.header_size inp) more
                (omega (arith, le, length-drop p.header_size inp)) in
          rw e (
            long
                ∙ exact (inp ++ more)
                ∙ rw f
                    (ap (λ k. message (record { header = h; body = k }) (p.header_size + size)) b),
            omega arith,
            omega (arith, le),
            omega (
              arith,
              le,
              length-take size (drop p.header_size inp)
                  (omega (arith, le, length-drop p.header_size inp)),
            ),
          )

  valid-Foretells :
      (p : FixedHeaderProtocol H) (inp more : List ℕ) (h : H) (r : Result Unit)
      → Fits p
      → parse p (inp ++ more) ≡ parse_valid p h r (inp ++ more)
      → p.header_size ≤ length inp
      → Foretells p inp more (parse_valid p h r inp)
  unfolding Foretells
  valid-Foretells p inp more h (fail e) fit long ge = long
  valid-Foretells p inp more h (ok u) fit long ge =
      body-Foretells p inp more h (p.body_size h) (fit h) long ge

  parse-Foretells :
      (p : FixedHeaderProtocol H) (inp more : List ℕ) → Fits p → Foretells p inp more (parse p inp)
  unfolding parse Foretells
  parse-Foretells p inp more fit = go (dec_lt (length inp) p.header_size)
    where
      go : Dec (length inp < p.header_size) → Foretells p inp more (parse p inp)
      go (yes lt) =
          let e : ltb (length inp) p.header_size ≡ true = ground arith in
          rw e (
            omega (arith, lt),
            λ few.
                let f : ltb (length (inp ++ more)) p.header_size ≡ true =
                  ground (arith, few, length-append inp more) in
                rw f (ap need_more (omega (arith, length-append inp more))),
          )
      go (no ge) =
          let e : ltb (length inp) p.header_size ≡ false = ground arith in
          let f : ltb (length (inp ++ more)) p.header_size ≡ false =
            ground (arith, length-append inp more) in
          let t = take-append_left p.header_size inp more (omega (arith, ge)) in
          let h = p.decode (take p.header_size inp) in
          rw e
            (valid-Foretells p inp more h (p.validate h) fit (rw f (rw t refl)) (omega (arith, ge)))

  -- Where every size that the protocol answers fits a `size_t` together with the header: a frame that was
  -- found is found again, the same, whatever bytes follow; it lies within the input, and its header and body
  -- are all that it consumes.
  pub parse_message-append :
      (p : FixedHeaderProtocol H) (inp more : List ℕ) (m : FrameView H) (k : ℕ)
      → Fits p
      → parse p inp ≡ message m k
      → (parse p (inp ++ more) ≡ message m k)
        × (p.header_size ≤ k)
        × (k ≤ length inp)
        × (length m.body + p.header_size ≡ k)
  unfolding Foretells
  parse_message-append p inp more m k fit e =
      subst (Foretells p inp more) e (parse-Foretells p inp more fit)

  -- Under the same bound, the number of bytes that are said to be needed is not 0, and as long as fewer have come the answer is
  -- the rest of it: the framer never answers early and never asks for too much.
  pub parse_need-append :
      (p : FixedHeaderProtocol H) (inp more : List ℕ) (n : ℕ)
      → Fits p
      → parse p inp ≡ need_more n
      → length more < n
      → (0 < n) × (parse p (inp ++ more) ≡ need_more (n - length more))
  unfolding Foretells
  parse_need-append p inp more n fit e few =
      let f = subst (Foretells p inp more) e (parse-Foretells p inp more fit) in (f.0, f.1 few)
