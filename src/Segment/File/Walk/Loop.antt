-- ===== src/Segment/File/Walk/Loop.antt =====
-- lib/segment.c: the loop over the files of a log (nilfs_file_for_each).
use nilfs_utils.Base.{ℕ, ◌+◌, ◌^◌, ◌≤◌, ◌<◌, Bool, true, false, Result, ok, ◌>>=◌, if◌then◌else◌}
use nilfs_utils.Segment.{Segment, Psegment}
use nilfs_utils.Segment.Bytes.{Safe, Safe-bind}
use nilfs_utils.Segment.Logs.{IsSegment, IsLog}
use nilfs_utils.Segment.File.{File, file_next}
use nilfs_utils.Segment.File.Walk.{cut, summary_end, IsRead, IsFile, Next, file_next-Safe}

module _ (whole : Segment) (fine : IsSegment whole) (p : Psegment) (log : IsLog whole p) (limit : ℕ)
    (reaches : summary_end whole p log ≤ limit) where
  abbrev seg : Segment
  seg = cut whole limit

module _ {ℓ} {S : Type ℓ} (Inv : S → Type 0) (whole : Segment) (fine : IsSegment whole)
    (p : Psegment) (log : IsLog whole p) (limit : ℕ) (reaches : summary_end whole p log ≤ limit)
    (body : File → S → Result S)
    (keeps : (f : File) (s : S)
      → IsFile whole fine p log limit reaches f
      → Inv s
      → Safe Inv (body f s)) where
  -- One round of the loop, given the rounds that follow.
  round :
      (rest : File → S → Result (S × File)) (nfinfo index : ℕ) (f : File) (s : S)
      → nfinfo < 2 ^ 32
      → IsRead whole fine p log limit reaches nfinfo index f
      → Inv s
      → ((g : File) (t : S)
          → IsRead whole fine p log limit reaches nfinfo (index + 1) g
          → index < nfinfo
          → Inv t
          → Safe (λ r. Inv r.0) (rest g t))
      → (r : Bool × File) → Next whole fine p log limit reaches f nfinfo index r
      → Safe
          (λ r. Inv r.0)
          (if r.0
            then ok (s, r.1)
            else (body r.1 s >>= λ t. file_next (cut whole limit) p r.1 >>= λ g. rest g t))
  round rest nfinfo index f s small read inv later (true, g) end = inv
  round rest nfinfo index f s small read inv later (false, g) (same, file, less) = rw same (
      Safe-bind (λ r. Inv r.0) (body f s) (λ t. file_next (cut whole limit) p f >>= λ g. rest g t)
        (keeps f s file inv)
        (λ t kept.
          let (next, ran, there) =
            file_next-Safe whole fine p log limit reaches nfinfo index f read file less small in
          rw ran (later next t there less kept)))
