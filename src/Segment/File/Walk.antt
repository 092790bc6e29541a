-- ===== src/Segment/File/Walk.antt =====
-- lib/segment.c: the walk over the files of a log reads the header and the summary of the log, and ends.
pub mod Loop
use native.Mathlib.Nat.{mul-le-mul_right}
use nilfs_utils.Base.{
  take, max, All, length-take, ◌*◌, List, [], ◌∷◌, ℕ, zero, suc, ◌+◌, ◌-◌, ◌^◌, ◌≤◌, ◌<◌, ◌≡◌, refl,
  subst, sym, inl, inr, ◌⊎◌, Bool, true, false, arith, ltb, Bool-cases, ltb→le, ltb→lt, Result, ok,
  ◌>>=◌, if◌then◌else◌, u32, u64, length, ◌==◌,
}
use nilfs_utils.Segment.{Segment, Psegment, ss_nblocks}
use nilfs_utils.Segment.Bytes.{IsByte, le-Safe}
use nilfs_utils.Segment.Logs.{IsSegment, IsLog}
use nilfs_utils.Segment.File.{
  File, FileError, adjust_finfo_position, file_info_size, file_init_from_finfo, file_init,
  file_next, file_for_each, fi_ino, fi_nblocks, finfo_size, psegment_blksize, rest_of_block,
}

All-take : (n : ℕ) (xs : List ℕ) → All IsByte xs → All IsByte (take n xs)
All-take zero xs fine = tt
All-take (suc n) [] fine = tt
All-take (suc n) (x ∷ xs) (small, fine) = (small, All-take n xs fine)

-- A segment of which the memory up to `limit` alone can be read.
abbrev pub cut : Segment → ℕ → Segment
cut seg limit = record seg { addr = take limit seg.addr }

-- The bytes that the walk may read: the summary, and the header of the log, which has 64.
abbrev pub summary_end : (seg : Segment) (p : Psegment) → IsLog seg p → ℕ
summary_end seg p log = p.segsum + max 64 log.sumbytes

module _ (whole : Segment) (fine : IsSegment whole) (p : Psegment) (log : IsLog whole p) (limit : ℕ)
    (reaches : summary_end whole p log ≤ limit) where
  abbrev seg : Segment
  seg = cut whole limit

  pub header_inside : p.segsum + 1024 ≤ whole.segsize
  header_inside =
      let less : (log.ahead + 1) * 2 ^ whole.blkbits ≤ whole.nblocks * 2 ^ whole.blkbits =
        mul-le-mul_right (2 ^ whole.blkbits) (omega (arith, log.inside, log.payload)) in
      omega (arith, less, fine.whole, fine.block, log.place)

  pub readable : summary_end whole p log ≤ length (seg.addr)
  readable =
      omega (arith, length-take limit whole.addr, fine.mapped, header_inside, log.summary, reaches)

  pub bytes_left : All IsByte (seg.addr)
  bytes_left = All-take limit whole.addr fine.bytes

  -- The pointer agrees with the offset.
  record IsPlaced (nfinfo index : ℕ) (f : File) : Type 0 where
    place : f.finfo ≡ p.segsum + f.offset
    bytes : f.sumbytes ≡ log.sumbytes
    files : f.nfinfo ≡ nfinfo
    count : f.index ≡ index

  -- The finfo lies inside the summary, or the length is the dummy that no check passes.
  record IsRead (nfinfo index : ℕ) (f : File) : Type 0 where
    placed : IsPlaced nfinfo index f
    room :
        (f.offset + finfo_size ≤ f.sumbytes)
        ⊎ ((f.sumlen ≡ finfo_size) × (f.sumbytes < f.offset + finfo_size))

  -- A file that passed the checks: its descriptions lie inside the summary.
  pub record IsFile (f : File) : Type 0 where
    pub place : f.finfo ≡ p.segsum + f.offset
    pub first : f.offset + finfo_size ≤ log.sumbytes
    pub last : f.offset + f.sumlen ≤ log.sumbytes

  adjust-IsPlaced :
      (nfinfo index : ℕ) (f : File)
      → IsPlaced nfinfo index f
      → f.offset ≤ log.sumbytes
      → IsPlaced nfinfo index (adjust_finfo_position f (psegment_blksize seg p))
  unfolding adjust_finfo_position
  adjust-IsPlaced nfinfo index f placed inside =
      elim (Bool-cases (ltb (rest_of_block f.offset (2 ^ p.blkbits)) 24)) [
        | inl few ↦ rw few (record {
          place = omega (arith, placed.place, ltb→lt _ _ few, fine.small, fine.block, log.summary);
          bytes = placed.bytes;
          files = placed.files;
          count = placed.count;
        })
        | inr many ↦ rw many placed
      ]

  file_info_size-Safe :
      (nfinfo index : ℕ) (f : File)
      → IsPlaced nfinfo index f
      → f.offset + finfo_size ≤ f.sumbytes
      → (n : ℕ) × (file_info_size seg p f ≡ ok n)
  unfolding file_info_size
  file_info_size-Safe nfinfo index f placed inside =
      let (nblocks, r1, _) =
        le-Safe 4 seg.addr (f.finfo + 16) bytes_left
          (omega (arith, readable, placed.place, placed.bytes)) in
      let (ndatablk, r2, _) =
        le-Safe 4 seg.addr (f.finfo + 20) bytes_left
          (omega (arith, readable, placed.place, placed.bytes)) in
      rw (r1, r2) (_, refl)

  file_init_from_finfo-Safe :
      (nfinfo index : ℕ) (f : File)
      → IsPlaced nfinfo index f
      → (g : File) × (file_init_from_finfo seg p f ≡ ok g) × IsRead nfinfo index g
  unfolding file_init_from_finfo
  file_init_from_finfo-Safe nfinfo index f placed =
      elim (Bool-cases (ltb f.sumbytes (f.offset + 24))) [
        | inl few ↦ rw few (
          record f { sumlen = 24 },
          refl,
          record {
            placed = record {
              place = placed.place;
              bytes = placed.bytes;
              files = placed.files;
              count = placed.count;
            };
            room = inr (refl, ltb→lt _ _ few);
          },
        )
        | inr enough ↦
            let (ino, r1, _) =
              le-Safe 8 seg.addr f.finfo bytes_left
                (omega (arith, readable, placed.place, placed.bytes, ltb→le _ _ enough)) in
            let g : File = record f { use_real_blocknr = ino == 3 } in
            let (n, r2) =
              file_info_size-Safe nfinfo index g
                (record {
                  place = placed.place;
                  bytes = placed.bytes;
                  files = placed.files;
                  count = placed.count;
                })
                (ltb→le _ _ enough) in
            rw (enough, r1, r2)
              (
                record g { sumlen = n },
                refl,
                record {
                  placed = record {
                    place = placed.place;
                    bytes = placed.bytes;
                    files = placed.files;
                    count = placed.count;
                  };
                  room = inl (ltb→le _ _ enough);
                },
              )
      ]

  -- What a positive answer of the checks means.
  abbrev Checked : File → Bool × File → Type 0
  Checked f (true, g) = (g ≡ f) × IsFile f
  Checked f (false, g) = Unit

  -- What the answer that there is a file means.
  abbrev Next : File → ℕ → ℕ → Bool × File → Type 0
  Next f nfinfo index (true, g) = Unit
  Next f nfinfo index (false, g) = (g ≡ f) × IsFile f × (index < nfinfo)

  file_next-Safe :
      (nfinfo index : ℕ) (f : File)
      → IsRead nfinfo index f
      → IsFile f
      → index < nfinfo
      → nfinfo < 2 ^ 32
      → (g : File) × (file_next seg p f ≡ ok g) × IsRead nfinfo (index + 1) g
  unfolding file_next
  file_next-Safe nfinfo index f read file less small =
      let place = (read.placed).place in
      let (nblocks, r1, _) =
        le-Safe 4 seg.addr (f.finfo + 16) bytes_left (omega (arith, readable, place, file.first)) in
      let g : File = record f {
        blocknr = u64 (f.blocknr + nblocks);
        offset = u32 (f.offset + f.sumlen);
        finfo = f.finfo + f.sumlen;
      } in
      let moved =
        adjust-IsPlaced nfinfo index g
          (record {
            place = omega (arith, place, file.last, log.summary, fine.small);
            bytes = (read.placed).bytes;
            files = (read.placed).files;
            count = (read.placed).count;
          })
          (omega (arith, file.last, log.summary, fine.small)) in
      let (h, r2, done) =
        file_init_from_finfo-Safe nfinfo index (adjust_finfo_position g (psegment_blksize seg p))
          moved in
      rw (r1, r2)
        (
          record h { index = u32 (h.index + 1) },
          refl,
          record {
            placed = record {
              place = (done.placed).place;
              bytes = (done.placed).bytes;
              files = (done.placed).files;
              count = omega (arith, (done.placed).count);
            };
            room = done.room;
          },
        )
