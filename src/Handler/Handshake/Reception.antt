-- ===== src/Handler/Handshake/Reception.antt =====
-- Receiving a payload in chunks (src/veltix/handler/handshake_handler.py).
use veltix.Prelude.{
  ℕ, zero, suc, ◌-◌, ◌≤◌, ◌<◌, ◌≡◌, refl, sym, ap, ◌∙◌, subst, false, some, [], ◌∷◌, ◌++◌, arith,
  ltb, le→ltb_false, length, take, ok, eq_nat, eq_string, eq_list,
}
use veltix.Prelude.Bytes.{Bytes, be16, from_be, from_be-be16}
use veltix.Handler.Handshake.{
  Json, Peer, decode, behind, next_chunk, recv_all, decoded, read_payload, read_header,
  recv_handshake,
}

module _ (peer : Peer) where
  open peer use {World, recv, dumps, loads}

  -- The socket gives `n` bytes, in chunks that are not empty and no longer than asked for.
  pub data Gives : ℕ → World → Bytes → World → Type 0 where
    all_came : {w : World} → Gives 0 w [] w
    chunk_came :
        {n : ℕ} {w w' w'' : World} (b : ℕ) (bs : Bytes) {rest : Bytes}
        → recv (suc n) w ≡ (ok (b ∷ bs), w')
        → length (b ∷ bs) ≤ suc n
        → Gives (suc n - length (b ∷ bs)) w' rest w''
        → Gives (suc n) w (b ∷ (bs ++ rest)) w''

  -- The socket gives the frame of `j`.
  pub record Arrives (w : World) (j : Json) (w' : World) : Type 0 where
    pub body : Bytes
    pub between : World
    pub some_body : 0 < length body
    pub header_came : Gives 2 w (be16 (length body)) between
    pub body_came : Gives (length body) between body w'
    pub reads : loads body ≡ ok j

  recv_all-Gives :
      (f n : ℕ) (w : World) (bs : Bytes) (w' : World)
      → n < f
      → Gives n w bs w'
      → recv_all peer f n w ≡ (ok (some bs), w')
  unfolding recv_all next_chunk behind
  recv_all-Gives zero n w bs w' h g = absurd (omega arith)
  recv_all-Gives (suc f) n w bs w' h (all_came) = refl
  recv_all-Gives (suc f) n w bs w' h
        (chunk_came {n = m} {w' = w1} b cs {rest = rest} came short g) =
      ap (λ r. next_chunk peer r (λ k v. recv_all peer f (suc m - k) v)) came
      ∙ ap (behind peer (b ∷ cs))
          (recv_all-Gives f (suc m - length (b ∷ cs)) w1 rest w' (omega arith) g)

  take-all : (b : Bytes) → take (length b) b ≡ b
  take-all [] = refl
  take-all (x ∷ b) = ap (λ t. x ∷ t) (take-all b)

  decode-body :
      (body : Bytes) (j : Json)
      → loads body ≡ ok j
      → decode peer (be16 (length body) ++ body) ≡ ok j
  unfolding decode
  decode-body body j reads =
      ap (λ m. loads (take m body)) (from_be-be16 (length body)) ∙ ap loads (take-all body) ∙ reads

  read_payload-body :
      (body : Bytes) (j : Json) (w : World)
      → 0 < length body
      → loads body ≡ ok j
      → read_payload peer (be16 (length body)) (ok (some body), w) ≡ (some j, w)
  unfolding read_payload decoded
  read_payload-body [] j w nonempty reads = absurd (omega arith)
  read_payload-body (b ∷ bs) j w nonempty reads =
      let whole : ltb (length (b ∷ bs)) (from_be (be16 (length (b ∷ bs)))) ≡ false =
        le→ltb_false (length (b ∷ bs)) (from_be (be16 (length (b ∷ bs))))
          (omega (arith, from_be-be16 (length (b ∷ bs)))) in
      rw whole (ap (λ r. (decoded peer r, w)) (decode-body (b ∷ bs) j reads))

  -- Whatever the chunks in which the frame of a payload comes, _recv_handshake reads the payload.
  pub recv_handshake-Arrives :
      (w : World) (j : Json) (w' : World) → Arrives w j w' → recv_handshake peer w ≡ (some j, w')
  unfolding recv_handshake read_header read_payload decode decoded
  recv_handshake-Arrives w j w' a =
      let size = length a.body in
      let header = be16 size in
      let body_read : recv_all peer (suc (from_be header)) (from_be header) a.between
          ≡ (ok (some a.body), w') =
        subst (λ m. recv_all peer (suc m) m a.between ≡ (ok (some a.body), w'))
          (sym (from_be-be16 size))
          (recv_all-Gives (suc size) size a.between a.body w' (omega arith) a.body_came) in
      ap (read_header peer) (recv_all-Gives 3 2 w header a.between (omega arith) a.header_came)
      ∙ ap (read_payload peer header) body_read
      ∙ read_payload-body a.body j w' a.some_body a.reads
