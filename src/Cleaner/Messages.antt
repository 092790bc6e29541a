-- ===== src/Cleaner/Messages.antt =====
-- The requests to the cleaner daemon (include/cleaner_msg.h, include/nilfs_cleaner.h) and their
-- handlers in sbin/cleanerd.c. A message is the list of its bytes, on a little-endian machine; a
-- read past its end is a fault. A handler leaves the state, and the response that reached the
-- client's queue or the failure to send it.
use nilfs_utils.Base.{
  ℕ, suc, ◌+◌, Bool, true, false, not, ◌&&◌, ◌||◌, List, [], ◌∷◌, Option, none, some, ltb, ◌==◌,
  if◌then◌else◌, Result, ok, err, fault, ◌>>=◌, Errno, einval, eopnotsupp, unset, length, drop, u32,
  u64, ℤ, pos, ltb_ℤ, eqb_ℤ,
}
use nilfs_utils.Segment.Bytes.{le, le32}
use nilfs_utils.Cleaner.Args.{sizeof_args, read_args, accepted, rejected, set_args}
use nilfs_utils.Cleaner.{
  Config, Cleanerd, suspended, in_manual, manual_suspend, manual_resume, manual_run, manual_stop,
  reconfig,
}

-- struct nilfs_cleaner_response: ACK or NACK, the status, errno and the job.
pub record Response : Type 0 where
  pub acked : Bool
  pub status : ℕ
  pub error : Option Errno
  pub job : ℕ

abbrev pub ack : Response
ack = record { acked = true; status = 0; error = none; job = 0 }

abbrev pub nack : Errno → Response
nack e = record { acked = false; status = 0; error = some e; job = 0 }

-- The answers of the message queues: does mq_open, does mq_send succeed?
pub record Mailbox : Type 0 where
  pub opens : Bool
  pub sends : Bool

-- The bytes up to the first zero byte, or all.
unfoldable pub strnlen : List ℕ → ℕ
strnlen [] = 0
strnlen (b ∷ bytes) = if b == 0 then 0 else suc (strnlen bytes)

module _ (box : Mailbox) (uuid : ℕ) where
  -- mq_send
  unfoldable pub send : Response → Cleanerd → Cleanerd × Result Response
  send res c = (c, if box.sends then ok res else err unset)

  -- mq_open, then mq_send
  unfoldable pub open_and_send : Response → Cleanerd → Cleanerd × Result Response
  open_and_send res c =
      if box.opens
      then send res (record c { client = some uuid })
      else (record c { client = none }, err unset)

  -- nilfs_cleanerd_respond
  unfoldable pub respond : Cleanerd → Response → Cleanerd × Result Response
  respond c res = elim (c.client) [
    | some known ↦ if known == uuid then send res c else open_and_send res c
    | none ↦ open_and_send res c
  ]

  unfoldable pub nak : Errno → Cleanerd → Cleanerd × Result Response
  nak e c = respond c (nack e)

  unfoldable pub cmd_getstat : Cleanerd → Cleanerd × Result Response
  cmd_getstat c = respond c (record ack {
    status = if eqb_ℤ c.running (pos 0) then 0 else if ltb_ℤ (pos 0) c.running then 1 else 2;
  })

  unfoldable pub cmd_run : ℕ → List ℕ → Cleanerd → Result (Cleanerd × Result Response)
  cmd_run blocks_per_segment buf c =
      if ltb (length buf) sizeof_args
      then ok (respond c (nack einval))
      else (read_args buf >>= λ args. elim (set_args blocks_per_segment args c) [
        | rejected d ↦ ok (respond d (nack einval))
        | accepted d ↦
            let started = manual_run d in
            let jobid = u64 (started.jobid + 1) in
            ok (respond (record started { jobid = jobid }) (record ack { job = u32 jobid }))
      ])

  unfoldable pub cmd_suspend : Cleanerd → Cleanerd × Result Response
  cmd_suspend c = respond (if not (eqb_ℤ c.running suspended) then manual_suspend c else c) ack

  unfoldable pub cmd_resume : Cleanerd → Cleanerd × Result Response
  cmd_resume c = respond (if eqb_ℤ c.running suspended then manual_resume c else c) ack

  -- the same for nilfs_cleanerd_cmd_tune and nilfs_cleanerd_cmd_wait
  unfoldable pub cmd_tune : Cleanerd → Cleanerd × Result Response
  cmd_tune c = nak eopnotsupp c

  unfoldable pub cmd_wait : Cleanerd → Cleanerd × Result Response
  cmd_wait c = nak eopnotsupp c

  unfoldable pub cmd_stop : Cleanerd → Cleanerd × Result Response
  cmd_stop c = respond (if in_manual c || eqb_ℤ c.running suspended then manual_stop c else c) ack

  unfoldable pub cmd_shutdown : Cleanerd → Cleanerd × Result Response
  cmd_shutdown c = respond (record c { shutdown = true }) ack

  -- The answer to a reload, after nilfs_cleanerd_reconfig.
  unfoldable pub report_reload : Cleanerd × Result (Unit {0}) → Cleanerd × Result Response
  report_reload r = elim (r.1) [
    | ok done ↦ respond r.0 ack
    | err e ↦ respond r.0 (nack e)
    | fault ↦ (r.0, fault)
  ]

  -- `read` is nilfs_cldconfig_read; without a path it reads the file of the command line.
  unfoldable pub cmd_reload :
      Option ℤ → (Option (List ℕ) → Result Config) → List ℕ → Cleanerd → Cleanerd × Result Response
  cmd_reload override read buf c =
      if length buf == 0 || length buf == 1 && strnlen buf == 0
      then report_reload (reconfig override (read none) c)
      else if ltb (strnlen buf) (length buf)
      then report_reload (reconfig override (read (some buf)) c)
      else respond c (nack einval)

-- What surrounds the handlers: nilfs_get_blocks_per_segment, the protection period of the command
-- line, and nilfs_cldconfig_read.
pub record Surroundings : Type 0 where
  pub blocks_per_segment : ℕ
  pub override : Option ℤ
  pub read : Option (List ℕ) → Result Config

-- sizeof(struct nilfs_cleaner_request)
abbrev pub sizeof_request : ℕ
sizeof_request = 24

-- The switch of nilfs_cleanerd_handle_message.
unfoldable pub dispatch :
    Surroundings → Mailbox → ℕ → ℕ → List ℕ → Cleanerd → Result (Cleanerd × Result Response)
dispatch env box cmd uuid buf c =
    if cmd == 0
    then ok (cmd_getstat box uuid c)
    else if cmd == 1
    then cmd_run box uuid env.blocks_per_segment buf c
    else if cmd == 2
    then ok (cmd_suspend box uuid c)
    else if cmd == 3
    then ok (cmd_resume box uuid c)
    else if cmd == 4
    then ok (cmd_tune box uuid c)
    else if cmd == 5
    then ok (cmd_reload box uuid env.override env.read buf c)
    else if cmd == 6
    then ok (cmd_wait box uuid c)
    else if cmd == 7
    then ok (cmd_stop box uuid c)
    else if cmd == 8
    then ok (cmd_shutdown box uuid c)
    else ok (nak box uuid einval c)

-- nilfs_cleanerd_handle_message
unfoldable pub handle_message :
    Surroundings → Mailbox → List ℕ → Cleanerd → Result (Cleanerd × Result Response)
handle_message env box message c =
    if ltb (length message) sizeof_request
    then ok (c, err unset)
    else (le32 message 4 >>= λ argsize.
        if ltb (length message) (sizeof_request + argsize)
        then ok (c, err unset)
        else (le32 message 0 >>= λ cmd.
            le 16 message 8 >>= λ uuid. dispatch env box cmd uuid (drop sizeof_request message) c))
