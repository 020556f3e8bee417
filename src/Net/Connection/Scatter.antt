-- ===== src/Net/Connection/Scatter.antt =====
-- A scattered send is one send of the parts put together.
use affini_x.Base.{
  ℕ, ◌≡◌, refl, sym, ◌∙◌, List, [], ◌∷◌, ◌++◌, arith, length, drop, length-append, drop-drop,
}
use mathlib.Core.List.{append_assoc, append-nil}
use affini_x.Net.Connection.{
  Connection, WriteOverflow, disconnect, drop_newest, drop_oldest, stop_reading, send, send_scatter,
  total_size, consume_each, append_each, overflowed, overflowed_parts, apply_overflow,
  apply_overflow_parts, hit_watermark, pause_reads,
}

pub joined : List (List ℕ) → List ℕ
joined [] = []
joined (p ∷ ps) = p ++ joined ps

total_size-joined : (ps : List (List ℕ)) → total_size ps ≡ length (joined ps)
unfolding total_size joined
total_size-joined [] = refl
total_size-joined (p ∷ ps) = omega (arith, length-append p (joined ps), total_size-joined ps)

append_each-joined : (ps : List (List ℕ)) (buf : List ℕ) → append_each ps buf ≡ buf ++ joined ps
unfolding append_each joined
append_each-joined [] buf = sym (append-nil buf)
append_each-joined (p ∷ ps) buf = append_each-joined ps (buf ++ p) ∙ append_assoc buf p (joined ps)

consume_each-joined :
    (ps : List (List ℕ)) (buf : List ℕ) → consume_each ps buf ≡ drop (length (joined ps)) buf
unfolding consume_each joined
consume_each-joined [] buf = refl
consume_each-joined (p ∷ ps) buf =
    consume_each-joined ps (drop (length p) buf)
    ∙ sym (
        drop-drop buf (length p) (length (joined ps)) (length (p ++ joined ps))
          (length-append p (joined ps)))

module _ {M : Type 0} where
  overflowed_parts-joined :
      (o : WriteOverflow) (ps : List (List ℕ)) (c : Connection M)
      → overflowed_parts o ps c ≡ overflowed o (joined ps) c
  unfolding overflowed_parts overflowed
  overflowed_parts-joined disconnect ps c = refl
  overflowed_parts-joined drop_newest ps c = refl
  overflowed_parts-joined drop_oldest ps c =
      rw (consume_each-joined ps c.write_buf)
        (rw (append_each-joined ps (drop (length (joined ps)) c.write_buf)) refl)
  overflowed_parts-joined stop_reading ps c =
      rw (append_each-joined ps (pause_reads c).write_buf) refl

  -- On every branch, the overflow policies included, `send_scatter` answers and does what `send` of the
  -- concatenation does.
  pub send_scatter-send :
      (ps : List (List ℕ)) (c : Connection M) → send_scatter ps c ≡ send (joined ps) c
  unfolding send_scatter send apply_overflow_parts apply_overflow
  send_scatter-send ps c = rw (total_size-joined ps) (
      rw (append_each-joined ps c.write_buf)
        (rw (overflowed_parts-joined c.params.on_overflow ps (hit_watermark c)) refl))
