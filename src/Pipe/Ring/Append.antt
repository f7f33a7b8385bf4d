-- ===== src/Pipe/Ring/Append.antt =====
-- What `pipe_put` does to the ring buffer that it writes to.
use luasys.Base.{
  ℕ, ◌+◌, ◌%◌, ◌^◌, ◌≤◌, ◌<◌, ◌≡◌, refl, ◌≢◌, inl, inr, List, [], ◌∷◌, ◌++◌, length, arith, ap, ◌∙◌,
}
use luasys.Pipe.{Memory, copy_in, Buffer, wrap, append}
use luasys.Pipe.Ring.{
  IsMessage, Laid-le, Laid-Same, Laid-snoc, copy_in-At, copy_in-outside, Straight, Turned,
}

module _ (b : Buffer) (m : List ℕ) (im : IsMessage m) where
  -- Room behind the last message.
  pub append-Straight :
      (ms : List (List ℕ))
      → Straight b ms
      → b.end + length m ≤ b.len
      → Straight (append b m) (ms ++ m ∷ [])
  unfolding append
  append-Straight ms s fits =
      let small = s.small in
      let e : (b.end + length m) % 2 ^ 32 ≡ b.end + length m = omega arith in
      let le = Laid-le ms b.mem b.begin b.end s.laid in
      record {
        laid = rw e (
            Laid-snoc ms m (copy_in b.mem b.end m) b.begin b.end
              (Laid-Same ms b.mem (copy_in b.mem b.end m) b.begin b.end
                (λ a p q. copy_in-outside b.mem b.end m a (inl q)) s.laid)
              im (copy_in-At b.mem b.end m));
        inside = rw e fits;
        reset = λ h. absurd (omega (arith, im.has_header));
        small = s.small;
      }

  -- Room between the last message and the oldest one, with a byte to spare.
  pub append-Turned :
      (xs ys : List (List ℕ)) (turn : ℕ)
      → Turned b xs ys turn
      → b.end + length m < b.begin
      → Turned (append b m) xs (ys ++ m ∷ []) turn
  unfolding append
  append-Turned xs ys turn t fits =
      let small = t.small in
      let behind = t.not_last in
      let e : (b.end + length m) % 2 ^ 32 ≡ b.end + length m = omega arith in
      let le = Laid-le xs b.mem b.begin turn t.older in
      record {
        older =
            Laid-Same xs b.mem (copy_in b.mem b.end m) b.begin turn
              (λ a p q. copy_in-outside b.mem b.end m a (inr (omega arith))) t.older;
        newer = rw e (
            Laid-snoc ys m (copy_in b.mem b.end m) 0 b.end
              (Laid-Same ys b.mem (copy_in b.mem b.end m) 0 b.end
                (λ a p q. copy_in-outside b.mem b.end m a (inl q)) t.newer)
              im (copy_in-At b.mem b.end m));
        behind = rw e fits;
        some_newer = omega (arith, t.some_newer);
        inside = t.inside;
        not_last = t.not_last;
        mark_low = copy_in-outside b.mem b.end m turn (inr (omega arith)) ∙ t.mark_low;
        mark_high = copy_in-outside b.mem b.end m (turn + 1) (inr (omega arith)) ∙ t.mark_high;
        small = t.small;
      }

  -- Room in front of the oldest message: the end is marked, and the message goes to the start.
  pub append-wrap :
      (ms : List (List ℕ))
      → Straight b ms
      → length m < b.begin
      → Turned (append (wrap b) m) ms (m ∷ []) b.end
  unfolding append wrap
  append-wrap ms s fits =
      let small = s.small in
      let inside = s.inside in
      let le = Laid-le ms b.mem b.begin b.end s.laid in
      let ne : b.begin ≢ b.end = λ h. omega (arith, s.reset h) in
      let e : (0 + length m) % 2 ^ 32 ≡ 0 + length m = omega arith in
      let marked : Memory = copy_in b.mem b.end (0 ∷ 0 ∷ []) in
      let mark = copy_in-At b.mem b.end (0 ∷ 0 ∷ []) in
      record {
        older =
            Laid-Same ms b.mem (copy_in marked 0 m) b.begin b.end
              (λ a p q.
                copy_in-outside marked 0 m a (inr (omega arith))
                ∙ copy_in-outside b.mem b.end (0 ∷ 0 ∷ []) a (inl q))
              s.laid;
        newer = rw e (Laid-snoc [] m (copy_in marked 0 m) 0 0 refl im (copy_in-At marked 0 m));
        behind = rw e (omega arith);
        some_newer = rw e (omega (arith, im.has_header));
        inside = s.inside;
        not_last = omega arith;
        mark_low =
            copy_in-outside marked 0 m b.end (inr (omega arith))
            ∙ ap marked (let p : b.end ≡ b.end + 0 = omega arith in p)
            ∙ mark 0 (omega arith);
        mark_high =
            copy_in-outside marked 0 m (b.end + 1) (inr (omega arith)) ∙ mark 1 (omega arith);
        small = s.small;
      }
