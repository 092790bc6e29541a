-- ===== src/Segment/Logs/Walk.antt =====
-- lib/segment.c: the walk over the logs of a segment (nilfs_psegment_for_each) stays inside it and ends.
use nilfs_utils.Base.{
  ℕ, zero, suc, ◌<◌, refl, Bool, true, false, arith, if◌then◌else◌, Result, ok, ◌>>=◌,
}
use nilfs_utils.Segment.{
  Segment, Psegment, psegment_init, psegment_is_end, psegment_next, psegment_for_each,
}
use nilfs_utils.Segment.Logs.{
  IsSegment, IsAt, IsLog, Next, psegment_is_end-Safe, psegment_next-Safe,
}
use nilfs_utils.Segment.Bytes.{Safe, Safe-bind}

module _ {ℓ} {S : Type ℓ} (Inv : S → Type 0) (seg : Segment) (fine : IsSegment seg)
    (body : Psegment → S → Result S)
    (keeps : (p : Psegment) (s : S) → IsLog seg p → Inv s → Safe Inv (body p s)) where
  -- One round of the loop, given the rounds that follow.
  round :
      (rest : Psegment → S → Result (S × Psegment)) (p : Psegment) (ahead : ℕ) (s : S)
      → IsAt seg p ahead
      → Inv s
      → ((q : Psegment) (next : ℕ) (t : S)
          → IsAt seg q next
          → q.blkcnt < p.blkcnt
          → Inv t
          → Safe (λ r. Inv r.0) (rest q t))
      → (r : Bool × Psegment) → Next seg fine p r
      → Safe
          (λ r. Inv r.0)
          (if r.0
            then ok (s, r.1)
            else (body r.1 s >>= λ t. psegment_next seg r.1 >>= λ q. rest q t))
  round rest p ahead s at inv later (true, q) end = inv
  round rest p ahead s at inv later (false, q) (same, log, enough) = rw same (
      Safe-bind (λ r. Inv r.0) (body p s) (λ t. psegment_next seg p >>= λ q. rest q t)
        (keeps p s log inv)
        (λ t kept.
          let (next, ran, (further, there), less) =
            psegment_next-Safe seg fine p ahead at enough log in
          rw ran (later next further t there less kept)))

  walk :
      (fuel : ℕ) (p : Psegment) (ahead : ℕ) (s : S)
      → IsAt seg p ahead
      → p.blkcnt < fuel
      → Inv s
      → Safe (λ r. Inv r.0) (psegment_for_each seg fuel body p s)
  unfolding psegment_for_each
  walk zero p ahead s at enough inv = absurd (omega arith)
  walk (suc fuel) p ahead s at enough inv =
      Safe-bind (λ r. Inv r.0) (psegment_is_end seg p)
        (λ r.
          if r.0
          then ok (s, r.1)
          else (body r.1 s >>= λ t.
              psegment_next seg r.1 >>= λ q. psegment_for_each seg fuel body q t))
        (psegment_is_end-Safe seg fine p ahead at)
        (round (λ q t. psegment_for_each seg fuel body q t) p ahead s at inv
          (λ q next t there less kept. walk fuel q next t there (omega arith) kept))

  -- For a mapped segment and a body that keeps an invariant, without a fault, at every log that lies
  -- inside the segment: the walk over the logs, begun at the start of the segment, reads nothing
  -- outside it, ends within one round more than the segment has blocks, and keeps the invariant. The
  -- bytes of the segment are arbitrary.
  pub psegment_for_each-Safe :
      (blkcnt : ℕ) (s : S)
      → Inv s
      → Safe
          (λ r. Inv r.0)
          (psegment_for_each seg (suc seg.nblocks) body (psegment_init seg blkcnt) s)
  unfolding psegment_init
  psegment_for_each-Safe blkcnt s inv =
      walk (suc seg.nblocks) (psegment_init seg blkcnt) 0 s
        (record {
          bits = refl;
          place = omega arith;
          number = omega arith;
          inside = λ more. omega arith;
        })
        (omega arith) inv
