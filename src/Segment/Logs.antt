-- ===== src/Segment/Logs.antt =====
-- lib/segment.c: the checks of a log, and the step to the next one, at a position inside a segment.
pub mod Walk
use native.Mathlib.Nat.{mul-le-mul_right, add-mul}
use nilfs_utils.Base.{
  ℕ, zero, suc, ◌+◌, ◌-◌, ◌*◌, ◌/◌, ◌^◌, ◌≤◌, ◌<◌, ◌≡◌, refl, subst, ◌%◌, sym, ◌∙◌, inl, inr, Bool,
  true, false, not, arith, ltb, leb, ◌==◌, ◌||◌, take, drop, Bool-cases, if◌then◌else◌, ltb→le,
  ltb→lt, Result, ok, ◌>>=◌, length, All, u64, get_elem?,
}
use nilfs_utils.Segment.{
  Segment, Psegment, psegment_init, psegment_is_end, psegment_is_valid, psegment_sane,
  psegment_next, psegment_for_each, segsum_magic, ss_nblocks, ss_sumbytes, ss_bytes,
}
use nilfs_utils.Segment.Bytes.{le32, le-Safe, slice-Safe, IsByte, All-slice, Safe, Safe-bind}
use nilfs_utils.Segment.Crc.{crc32_le-reference, crc_reference}

-- A segment in memory: `nblocks` blocks of at least 1024 bytes, numbered with 64 bits.
pub record IsSegment (seg : Segment) : Type 0 where
  pub mapped : length seg.addr ≡ seg.segsize
  pub bytes : All IsByte seg.addr
  pub whole : seg.segsize ≡ seg.nblocks * 2 ^ seg.blkbits
  pub block : 1024 ≤ 2 ^ seg.blkbits
  pub numbers : seg.blocknr + seg.nblocks + 2 ^ 32 ≤ 2 ^ 64
  pub small : seg.segsize + 2 ^ seg.blkbits < 2 ^ 32

-- The iterator stands at the block `ahead` of the segment, and the blocks it counts are inside.
record IsAt (seg : Segment) (p : Psegment) (ahead : ℕ) : Type 0 where
  bits : p.blkbits ≡ seg.blkbits
  place : p.segsum ≡ ahead * 2 ^ seg.blkbits
  number : p.blocknr ≡ seg.blocknr + ahead
  inside : (0 < p.blkcnt) → ahead + p.blkcnt ≤ seg.nblocks

-- A log that passed the checks: its blocks lie inside the segment, and its summary in front of its
-- last block.
pub record IsLog (seg : Segment) (p : Psegment) : Type 0 where
  pub ahead : ℕ
  pub nblocks : ℕ
  pub sumbytes : ℕ
  pub hdrsize : ℕ
  pub bits : p.blkbits ≡ seg.blkbits
  pub place : p.segsum ≡ ahead * 2 ^ seg.blkbits
  pub number : p.blocknr ≡ seg.blocknr + ahead
  pub nblocks_is : ss_nblocks seg.addr p.segsum ≡ ok nblocks
  pub sumbytes_is : ss_sumbytes seg.addr p.segsum ≡ ok sumbytes
  pub hdrsize_is : ss_bytes seg.addr p.segsum ≡ ok hdrsize
  pub header : hdrsize ≤ sumbytes
  pub inside : ahead + nblocks ≤ seg.nblocks
  pub payload : (sumbytes + (2 ^ seg.blkbits - 1)) / 2 ^ seg.blkbits < nblocks
  pub summary : p.segsum + sumbytes < seg.segsize

module _ (seg : Segment) (fine : IsSegment seg) (p : Psegment) where
  -- What a positive answer of the checks means.
  abbrev Checked : Bool × Psegment → Type 0
  Checked (true, q) = (q ≡ p) × IsLog seg p
  Checked (false, q) = Unit

  -- What the answer that there is a log means.
  abbrev Next : Bool × Psegment → Type 0
  Next (true, q) = Unit
  Next (false, q) = (q ≡ p) × IsLog seg p × (2 ≤ p.blkcnt)

  header_inside : (ahead : ℕ) → IsAt seg p ahead → 2 ≤ p.blkcnt → p.segsum + 2048 ≤ length seg.addr
  header_inside ahead at enough =
      let less : (ahead + 2) * 2 ^ seg.blkbits ≤ seg.nblocks * 2 ^ seg.blkbits =
        mul-le-mul_right (2 ^ seg.blkbits) (omega (arith, at.inside (omega arith))) in
      omega (arith, less, fine.mapped, fine.whole, fine.block, at.place)

  log :
      (ahead sumbytes hdrsize nblocks : ℕ)
      → IsAt seg p ahead
      → ahead ≤ seg.nblocks
      → ss_sumbytes seg.addr p.segsum ≡ ok sumbytes
      → p.segsum + sumbytes < seg.segsize
      → ss_bytes seg.addr p.segsum ≡ ok hdrsize
      → ss_nblocks seg.addr p.segsum ≡ ok nblocks
      → nblocks < 2 ^ 32
      → u64 (p.blocknr + nblocks) ≤ u64 (seg.blocknr + seg.nblocks)
      → hdrsize ≤ sumbytes
      → (sumbytes + (2 ^ p.blkbits - 1)) / 2 ^ p.blkbits < nblocks
      → IsLog seg p
  log ahead sumbytes hdrsize nblocks at before r0 summary r1 r2 short fits header payload = record {
    ahead = ahead;
    nblocks = nblocks;
    sumbytes = sumbytes;
    hdrsize = hdrsize;
    bits = at.bits;
    place = at.place;
    number = at.number;
    nblocks_is = r2;
    sumbytes_is = r0;
    hdrsize_is = r1;
    header = header;
    inside = omega (arith, fine.numbers, at.number);
    payload = subst (λ b. (sumbytes + (2 ^ b - 1)) / 2 ^ b < nblocks) at.bits payload;
    summary = summary;
  }

  psegment_sane-Safe :
      (ahead sumbytes : ℕ)
      → IsAt seg p ahead
      → 2 ≤ p.blkcnt
      → ss_sumbytes seg.addr p.segsum ≡ ok sumbytes
      → p.segsum + sumbytes < seg.segsize
      → Safe Checked (psegment_sane seg p sumbytes)
  unfolding psegment_sane
  psegment_sane-Safe ahead sumbytes at enough sumbytes_is summary =
      let roomy = header_inside ahead at enough in
      let (hdrsize, r1, _) = le-Safe 2 seg.addr (p.segsum + 12) fine.bytes (omega arith) in
      let (nblocks, r2, short) = le-Safe 4 seg.addr (p.segsum + 40) fine.bytes (omega arith) in
      rw (r1, r2)
        (elim (Bool-cases (not (hdrsize % 8 == 0))) [
          | inl odd ↦ rw odd tt
          | inr even ↦
              rw even
                (elim (Bool-cases
                  (ltb (u64 (seg.blocknr + seg.nblocks)) (u64 (p.blocknr + nblocks)))) [
                    | inl big ↦ rw big tt
                    | inr fits ↦ rw fits (elim (Bool-cases (ltb sumbytes hdrsize)) [
                      | inl big ↦ rw big tt
                      | inr header ↦
                          rw header
                            (elim (Bool-cases
                              (leb nblocks ((sumbytes + (2 ^ p.blkbits - 1)) / 2 ^ p.blkbits))) [
                                | inl big ↦ rw big tt
                                | inr payload ↦ rw payload (
                                  refl,
                                  log ahead sumbytes hdrsize nblocks at
                                      (omega (arith, at.inside (omega arith))) sumbytes_is summary
                                      r1 r2 (omega arith) (ltb→le _ _ fits) (ltb→le _ _ header)
                                      (ground arith),
                                )
                              ])
                    ])
                  ])
        ])

  psegment_is_valid-Safe :
      (ahead : ℕ) → IsAt seg p ahead → 2 ≤ p.blkcnt → Safe Checked (psegment_is_valid seg p)
  unfolding psegment_is_valid
  psegment_is_valid-Safe ahead at enough =
      let roomy = header_inside ahead at enough in
      let (magic, r1, _) = le-Safe 4 seg.addr (p.segsum + 8) fine.bytes (omega arith) in
      let (sumbytes, r2, _) = le-Safe 4 seg.addr (p.segsum + 48) fine.bytes (omega arith) in
      let (sumsum, r3, _) = le-Safe 4 seg.addr (p.segsum + 4) fine.bytes (omega arith) in
      rw (r1, r2, r3)
        (elim (Bool-cases (not (magic == segsum_magic))) [
          | inl bad ↦ rw bad tt
          | inr good ↦
              rw good (elim (Bool-cases (ltb sumbytes 8 || leb seg.segsize (p.segsum + sumbytes))) [
                | inl out ↦ rw out tt
                | inr within ↦
                    rw
                      (
                        within,
                        slice-Safe seg.addr (p.segsum + 8) (sumbytes - 8)
                            (ground (arith, fine.mapped)),
                        crc32_le-reference seg.seed
                            (take (sumbytes - 8) (drop (p.segsum + 8) seg.addr))
                            (All-slice seg.addr (p.segsum + 8) (sumbytes - 8) fine.bytes),
                      )
                      (elim (Bool-cases (
                        not (
                          sumsum
                          == crc_reference seg.seed
                              (take (sumbytes - 8) (drop (p.segsum + 8) seg.addr))))) [
                                | inl bad ↦ rw bad tt
                                | inr same ↦
                                    rw same (
                                      psegment_sane-Safe ahead sumbytes at enough r2 (ground arith))
                              ])
              ])
        ])

  psegment_is_end-Safe : (ahead : ℕ) → IsAt seg p ahead → Safe Next (psegment_is_end seg p)
  unfolding psegment_is_end
  psegment_is_end-Safe ahead at = elim (Bool-cases (ltb p.blkcnt 2)) [
    | inl few ↦ rw few tt
    | inr enough ↦ rw enough (
        Safe-bind Next (psegment_is_valid seg p) (λ r. ok (not (r.0), r.1))
          (psegment_is_valid-Safe ahead at (ltb→le _ _ enough)) (answer (ltb→le _ _ enough)))
  ]
    where
      answer : 2 ≤ p.blkcnt → (r : Bool × Psegment) → Checked r → Safe Next (ok (not (r.0), r.1))
      answer enough (true, q) (same, log) = (same, log, enough)
      answer enough (false, q) c = tt

  psegment_next-Safe :
      (ahead : ℕ)
      → IsAt seg p ahead
      → 2 ≤ p.blkcnt
      → IsLog seg p
      → (q : Psegment) × (psegment_next seg p ≡ ok q)
        × ((next : ℕ) × IsAt seg q next)
        × (q.blkcnt < p.blkcnt)
  unfolding psegment_next
  psegment_next-Safe ahead at enough log =
      let b = 2 ^ seg.blkbits in
      let part : log.nblocks * b ≤ seg.nblocks * b =
        mul-le-mul_right b (omega (arith, log.inside)) in
      let sum : (ahead + log.nblocks) * b ≡ ahead * b + log.nblocks * b =
        add-mul ahead log.nblocks b in
      let fits : log.ahead ≡ ahead = omega (arith, log.number, at.number) in
      let bytes : u64 (log.nblocks * 2 ^ p.blkbits) ≡ log.nblocks * b =
        subst (λ k. u64 (log.nblocks * 2 ^ k) ≡ log.nblocks * b) (sym at.bits)
          (omega (arith, part, fine.whole, fine.small)) in
      rw log.nblocks_is (
        record {
          segsum = p.segsum + u64 (log.nblocks * 2 ^ p.blkbits);
          blkcnt = if leb log.nblocks p.blkcnt then p.blkcnt - log.nblocks else 0;
          blocknr = u64 (p.blocknr + log.nblocks);
          blkbits = p.blkbits;
          error = p.error;
        },
        refl,
        (
          ahead + log.nblocks,
          record {
            bits = at.bits;
            place = omega (arith, bytes, sum, at.place);
            number = omega (arith, at.number, fine.numbers, log.inside, fits);
            inside = λ more. ground (arith, at.inside (omega arith), more);
          },
        ),
        ground (arith, log.payload),
      )
