-- ===== src/Gc/Select.antt =====
-- nilfs_deselect_segment and nilfs_acc_blocks of lib/gc.c: go over the selected segments, move those
-- that must not be cleaned behind the others, and collect the blocks of the rest. The calls that
-- read the file system (nilfs_get_suinfo, nilfs_get_segment, nilfs_put_segment) are parameters.
pub mod Deselect
pub mod Chosen
use nilfs_utils.Base.{
  ℕ, zero, suc, ◌+◌, ◌-◌, ◌/◌, ◌%◌, ◌^◌, Bool, not, ◌&&◌, ◌||◌, List, ltb, leb, ◌==◌, if◌then◌else◌,
  Result, ok, err, fault, unset, ◌>>=◌, checked, get_elem?, set, sub64,
}
use nilfs_utils.Vector.{memmove}
use nilfs_utils.Segment.{Segment}
use nilfs_utils.Gc.{Vdesc, Bdesc}
use nilfs_utils.Gc.Accumulate.{Found, acc_blocks_segment}

-- struct nilfs_suinfo
pub record Suinfo : Type 0 where
  pub sui_lastmod : ℕ
  pub sui_nblocks : ℕ
  pub sui_flags : ℕ

-- nilfs_suinfo_active, _dirty and _error: bits 0, 1 and 2 of the flags
abbrev pub suinfo_bit : ℕ → Suinfo → Bool
suinfo_bit weight si = si.sui_flags / weight % 2 == 1

abbrev pub suinfo_active : Suinfo → Bool
suinfo_active = suinfo_bit 1

abbrev pub suinfo_dirty : Suinfo → Bool
suinfo_dirty = suinfo_bit 2

abbrev pub suinfo_error : Suinfo → Bool
suinfo_error = suinfo_bit 4

-- nilfs_suinfo_reclaimable
unfoldable pub suinfo_reclaimable : Suinfo → Bool
suinfo_reclaimable si = suinfo_dirty si && not (suinfo_active si) && not (suinfo_error si)

-- nilfs_suinfo_empty
unfoldable pub suinfo_empty : Suinfo → Bool
suinfo_empty si = si.sui_nblocks == 0

-- cnt64_ge: the difference of the counters, as a signed number, is not negative
unfoldable pub cnt64_ge : ℕ → ℕ → Bool
cnt64_ge a b = ltb (sub64 a b) (2 ^ 63)

-- nilfs_deselect_segment: the array and the new number of selected segments
unfoldable pub deselect_segment : List ℕ → ℕ → ℕ → Result (List ℕ × ℕ)
unfolding memmove
deselect_segment segnums nsegs nr =
    if leb nsegs nr || nsegs == 0
    then err unset
    else if ltb nr (nsegs - 1)
    then (checked (get_elem? segnums nr) >>= λ tn.
        memmove segnums nr (nr + 1) (nsegs - 1 - nr) >>= λ moved.
        ok (set moved (nsegs - 1) tn, nsegs - 1))
    else ok (segnums, nsegs - 1)

-- The segment is put back after its blocks were collected, or failed to be.
unfoldable pub put_after : Result ℕ → Result Found → Result Found
put_after put fault = fault
put_after put (ok found) = put >>= λ done. ok found
put_after put (err e) = put >>= λ done. err e

-- What nilfs_acc_blocks changes: the array, and the descriptors.
pub record Selection : Type 0 where
  pub segnums : List ℕ
  pub nsegs : ℕ
  pub found : Found

module _ (alloc : ℕ → Bool) (junk_vdesc : Vdesc) (junk_bdesc : Bdesc)
    (get_suinfo : ℕ → Result Suinfo) (get_segment : ℕ → Result Segment)
    (put_segment : Segment → Result ℕ) (protseq : ℕ) where
  -- The loop of nilfs_acc_blocks from index `i` on.
  unfoldable pub acc_blocks_loop : ℕ → Selection → ℕ → Result Selection
  acc_blocks_loop zero s i = fault
  acc_blocks_loop (suc fuel) s i =
      let next = acc_blocks_loop fuel in
      if ltb i s.nsegs
      then (checked (get_elem? s.segnums i) >>= λ segnum. get_suinfo segnum >>= λ si.
          if not (suinfo_reclaimable si)
          then (deselect_segment s.segnums s.nsegs i >>= λ r.
              next (record s { segnums = r.0; nsegs = r.1 }) i)
          else if suinfo_empty si
          then next s (i + 1)
          else (get_segment segnum >>= λ seg.
              if cnt64_ge seg.seqnum protseq
              then (deselect_segment s.segnums s.nsegs i >>= λ r.
                  put_segment seg >>= λ done. next (record s { segnums = r.0; nsegs = r.1 }) i)
              else (put_after (put_segment seg)
                    (acc_blocks_segment alloc junk_vdesc junk_bdesc seg si.sui_nblocks s.found)
                  >>= λ found. next (record s { found = found }) (i + 1))))
      else ok s

  -- nilfs_acc_blocks
  unfoldable pub acc_blocks : List ℕ → ℕ → Found → Result Selection
  acc_blocks segnums nsegs found =
      acc_blocks_loop (suc nsegs) (record { segnums = segnums; nsegs = nsegs; found = found }) 0
