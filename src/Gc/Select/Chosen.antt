-- ===== src/Gc/Select/Chosen.antt =====
-- nilfs_acc_blocks leaves exactly the segments that may be cleaned.
use nilfs_utils.Base.{ℕ, ◌≡◌, Bool, false, not, ◌&&◌, ◌||◌, List, ◌++◌, Result, ok, fault, take}
use nilfs_utils.Segment.{Segment}
use nilfs_utils.Segment.Bytes.{Safe, SafeOr}
use nilfs_utils.Gc.{Vdesc, Bdesc}
use nilfs_utils.Gc.Accumulate.{Found, acc_blocks_segment}
use nilfs_utils.Gc.Select.{
  Suinfo, Selection, suinfo_reclaimable, suinfo_empty, cnt64_ge, acc_blocks_loop,
}
use nilfs_utils.Gc.Toss.Runs.{keep_if}

module _ (get_suinfo : ℕ → Result Suinfo) (get_segment : ℕ → Result Segment) (protseq : ℕ) where
  -- The segment's sequence number is not in the protected range.
  unfoldable pub is_unprotected : ℕ → Bool
  is_unprotected segnum = elim (get_segment segnum) [
    | ok seg ↦ not (cnt64_ge seg.seqnum protseq)
    | _ ↦ false
  ]

  -- May the segment be cleaned? It is reclaimable, and it is empty or not protected.
  unfoldable pub is_chosen : ℕ → Bool
  is_chosen segnum = elim (get_suinfo segnum) [
    | ok si ↦ suinfo_reclaimable si && (suinfo_empty si || is_unprotected segnum)
    | _ ↦ false
  ]

module _ (alloc : ℕ → Bool) (junk_vdesc : Vdesc) (junk_bdesc : Bdesc)
    (get_suinfo : ℕ → Result Suinfo) (get_segment : ℕ → Result Segment)
    (put_segment : Segment → Result ℕ) (protseq : ℕ)
    (reads_suinfo : (segnum : ℕ) → Safe (λ si. Unit) (get_suinfo segnum))
    (reads_segment : (segnum : ℕ) → Safe (λ seg. Unit) (get_segment segnum))
    (puts_segment : (seg : Segment) → Safe (λ n. Unit) (put_segment seg)) where
  -- The blocks of a segment that was read could not be collected without a fault.
  abbrev pub IsGarbled : Type 0
  IsGarbled =
      (t : ℕ) × (si : Suinfo) × (seg : Segment) × (found : Found) × (get_suinfo t ≡ ok si)
      × (get_segment t ≡ ok seg)
      × (acc_blocks_segment alloc junk_vdesc junk_bdesc seg si.sui_nblocks found ≡ fault)

  abbrev chosen : ℕ → Bool
  chosen = is_chosen get_suinfo get_segment protseq

  -- The loop from `i` on, at a selection given by its parts.
  abbrev run : ℕ → List ℕ → ℕ → ℕ → Found → Result Selection
  run fuel segnums nsegs i found =
      acc_blocks_loop alloc junk_vdesc junk_bdesc get_suinfo get_segment put_segment protseq fuel
        (record { segnums = segnums; nsegs = nsegs; found = found }) i

  -- The selection at the end: `done`, and what is chosen of `todo`.
  abbrev Ends : List ℕ → List ℕ → Result Selection → Type 0
  Ends done todo m = SafeOr IsGarbled (λ r. take r.nsegs r.segnums ≡ done ++ keep_if chosen todo) m
