-- ===== src/Network/MessageBuffer/Framing.antt =====
-- A buffer that holds the beginning of a stream of frames gives the messages that are complete.
use native.Mathlib.Decide.{dec_lt}
use veltix.Prelude.{
  ℕ, zero, suc, ◌+◌, ◌≤◌, ◌<◌, ◌≡◌, refl, sym, ap, ◌∙◌, subst, inl, inr, some, List, [], ◌∷◌, ◌++◌,
  map, arith, ltb, lt→ltb, le→ltb_false, Bool-cases, length, take, drop, All, length-append,
  length-drop, take-append_le, drop-append_le, take-length-append, drop-length-append,
  take-append-drop, ok, eq_nat, eq_string, eq_list,
}
use veltix.Prelude.Bytes.{Bytes, from_be, slice, from_be-be32}
use veltix.Network.Types.{Registry, get}
use veltix.Network.Request.{Codec, magic, header_size, Request}
use veltix.Network.Response.{Response}
use veltix.Network.Parser.{default_max_message_size, parse}
use veltix.Network.Wire.{IsSendable, frame, received, length-frame, parse-frame}
use veltix.Network.MessageBuffer.{
  need_more, delivered, parse_head, extract_step, continue, extract_loop,
}

-- A request whose frame a peer with this limit accepts: its type is registered there, and the frame
-- is within both the buffer's limit and the parser's own.
pub record IsDeliverable (reg : Registry) (max : ℕ) (r : Request) : Type 0 where
  pub sendable : IsSendable r
  pub known : get r.type.code reg ≡ some r.type
  pub fits : header_size + length r.content ≤ max
  pub fits_parser : header_size + length r.content ≤ default_max_message_size

-- Equal lists cut at the same place.
take-of_append : (n : ℕ) (b rest s : Bytes) → b ++ rest ≡ s → n ≤ length b → take n b ≡ take n s
take-of_append n b rest s e h = sym (take-append_le n b rest h) ∙ ap (take n) e

slice-of_append :
    (i n : ℕ) (b rest s : Bytes) → b ++ rest ≡ s → i + n ≤ length b → slice i n b ≡ slice i n s
slice-of_append i n b rest s e h =
    sym (take-append_le n (drop i b) rest (omega (arith, length-drop i b)))
    ∙ ap (take n) (sym (drop-append_le i b rest (omega arith)) ∙ ap (drop i) e)

nil_of_append : (b rest : Bytes) → b ++ rest ≡ [] → b ≡ []
nil_of_append [] rest e = refl
nil_of_append (x ∷ b) rest e = cc

pub split_prefix :
    (f more b rest : Bytes)
    → b ++ rest ≡ f ++ more
    → length f ≤ length b
    → (b ≡ f ++ drop (length f) b) × (drop (length f) b ++ rest ≡ more)
split_prefix f more b rest e h = (
  sym (take-append-drop (length f) b) ∙ ap (λ t. t ++ drop (length f) b) front,
  sym (drop-append_le (length f) b rest h) ∙ ap (drop (length f)) e ∙ drop-length-append f more,
)
  where
    front : take (length f) b ≡ f
    front = take-of_append (length f) b rest (f ++ more) e h ∙ take-length-append f more

module _ (codec : Codec) where
  -- The bytes of a sequence of requests.
  abbrev pub stream : List Request → Bytes
  stream [] = []
  stream (r ∷ rs) = frame codec r ++ stream rs

  frame-magic : (r : Request) (more : Bytes) → slice 0 2 (frame codec r ++ more) ≡ magic
  unfolding frame
  frame-magic r more = refl

  frame_size :
      (r : Request) (more : Bytes) → from_be (slice 5 4 (frame codec r ++ more)) ≡ length r.content
  unfolding frame
  frame_size r more = from_be-be32 (length r.content)

  parse_head-eq :
      (reg : Registry) (b : Bytes) (n : ℕ) (msg : Bytes) (x : Response codec) (more : Bytes)
      → take n b ≡ msg
      → parse codec reg msg default_max_message_size ≡ ok x
      → drop n b ≡ more
      → parse_head codec reg b n ≡ delivered x more
  unfolding parse_head
  parse_head-eq reg b n msg x more t p d =
      let e = ap (λ m. parse codec reg m default_max_message_size) t ∙ p in
      rw (e, parse_head) (rw d)

  -- One round at a complete frame delivers its message.
  pub extract_step-frame :
      (reg : Registry) (max : ℕ) (r : Request) (more : Bytes)
      → IsDeliverable reg max r
      → extract_step codec reg max (frame codec r ++ more) ≡ delivered (received codec r) more
  unfolding extract_step
  extract_step-frame reg max r more v =
      let n = header_size + length r.content in
      let len : length (frame codec r ++ more) ≡ n + length more =
        omega (arith, length-append (frame codec r) more, length-frame codec r) in
      let whole : take n (frame codec r ++ more) ≡ frame codec r =
        subst (λ k. take k (frame codec r ++ more) ≡ frame codec r) (length-frame codec r)
          (take-length-append (frame codec r) more) in
      let rest : drop n (frame codec r ++ more) ≡ more =
        subst (λ k. drop k (frame codec r ++ more) ≡ more) (length-frame codec r)
          (drop-length-append (frame codec r) more) in
      rw (le→ltb_false (length (frame codec r ++ more)) header_size (omega arith)) (
        rw (frame-magic r more) (
          rw (frame_size r more) (
            rw (le→ltb_false max n v.fits) (
              rw (le→ltb_false (length (frame codec r ++ more)) n (omega arith)) (
                parse_head-eq reg (frame codec r ++ more) n (frame codec r) (received codec r) more
                  whole (parse-frame codec reg r default_max_message_size v.known v.fits_parser)
                  rest)))))

  -- One round at a proper beginning of a frame waits.
  pub extract_step-partial :
      (reg : Registry) (max : ℕ) (r : Request) (b rest more : Bytes)
      → IsDeliverable reg max r
      → b ++ rest ≡ frame codec r ++ more
      → length b < header_size + length r.content
      → extract_step codec reg max b ≡ need_more
  unfolding extract_step
  extract_step-partial reg max r b rest more v e h =
      elim (Bool-cases (ltb (length b) header_size)) [
        | inl short ↦ rw short refl
        | inr long ↦
            let low : header_size ≤ length b = ground arith in
            let m : slice 0 2 b ≡ magic =
              slice-of_append 0 2 b rest (frame codec r ++ more) e (omega arith)
              ∙ frame-magic r more in
            let s : from_be (slice 5 4 b) ≡ length r.content =
              ap from_be (slice-of_append 5 4 b rest (frame codec r ++ more) e (omega arith))
              ∙ frame_size r more in
            rw long (
              rw m (
                rw s (
                  rw (le→ltb_false max (header_size + length r.content) v.fits)
                    (rw (lt→ltb (length b) (header_size + length r.content) h)))))
      ]

  -- What the call leaves of the stream, and how much of it has come out.
  pub record Drained (reg : Registry) (max : ℕ) (rs : List Request) (rest : Bytes)
      (out : List (Response codec) × Bytes) : Type 0 where
    pub done : List Request
    pub left : List Request
    pub splits : rs ≡ done ++ left
    pub all_out : out.0 ≡ map (received codec) done
    pub goes_on : out.1 ++ rest ≡ stream left
    pub small : length out.1 ≤ max

  Drained-cons :
      (reg : Registry) (max : ℕ) (r : Request) (rs : List Request) (rest : Bytes)
      (out : List (Response codec) × Bytes)
      → Drained reg max rs rest out
      → Drained reg max (r ∷ rs) rest (received codec r ∷ out.0, out.1)
  Drained-cons reg max r rs rest out d = record {
    done = r ∷ d.done;
    left = d.left;
    splits = ap (λ t. r ∷ t) d.splits;
    all_out = ap (λ t. received codec r ∷ t) d.all_out;
    goes_on = d.goes_on;
    small = d.small;
  }

  -- From the beginning of a stream of deliverable frames, the loop delivers the complete ones.
  pub extract_loop-Drained :
      (f : ℕ) (reg : Registry) (max : ℕ) (rs : List Request) (b rest : Bytes)
      → All (IsDeliverable reg max) rs
      → b ++ rest ≡ stream rs
      → length b < f
      → Drained reg max rs rest (extract_loop codec f reg max b)
  unfolding extract_loop continue extract_step
  extract_loop-Drained zero reg max rs b rest v e h = absurd (omega arith)
  extract_loop-Drained (suc f) reg max [] b rest v e h =
      let empty = nil_of_append b rest e in
      rw empty (record {
        done = [];
        left = [];
        splits = refl;
        all_out = refl;
        goes_on = rw empty at e;
        small = omega arith;
      })
  extract_loop-Drained (suc f) reg max (r ∷ rs) b rest v e h =
      elim (dec_lt (length b) (header_size + length r.content)) [
        | yes short ↦ rw (extract_step-partial reg max r b rest (stream rs) v.0 e short) (record {
          done = [];
          left = r ∷ rs;
          splits = refl;
          all_out = refl;
          goes_on = e;
          small = omega (arith, v.0.fits);
        })
        | no full ↦
            let n = length (frame codec r) in
            let long : n ≤ length b = omega (arith, length-frame codec r) in
            let (front, back) = split_prefix (frame codec r) (stream rs) b rest e long in
            let step : extract_step codec reg max b ≡ delivered (received codec r) (drop n b) =
              ap (extract_step codec reg max) front ∙ extract_step-frame reg max r (drop n b) v.0 in
            rw step (
              Drained-cons reg max r rs rest (extract_loop codec f reg max (drop n b)) (
                extract_loop-Drained f reg max rs (drop n b) rest v.1 back
                  (omega (arith, length-drop n b, length-frame codec r))))
      ]
