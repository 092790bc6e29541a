-- ===== src/Cleaner/Interval/Replies.antt =====
-- The messages to the cleaner daemon of sbin/cleanerd.c keep its times well-formed, if the times of a
-- run and of a configuration file are.
use nilfs_utils.Base.{
  ℕ, ◌+◌, ◌≤◌, ◌≡◌, refl, Bool, true, false, not, ◌||◌, ◌==◌, if◌then◌else◌, Bool-cases, ltb, inl,
  inr, arith, Result, ok, err, fault, ◌>>=◌, List, Option, some, none, length, drop, ℤ, eqb_ℤ, u32,
  u64, einval, unset, ltb→le,
}
use nilfs_utils.Segment.Bytes.{Safe, le}
use nilfs_utils.Cleaner.{
  Config, Cleanerd, in_manual, suspended, manual_suspend, manual_resume, manual_run, manual_stop,
  reconfig, override_protection_period,
}
use nilfs_utils.Cleaner.Args.{Checked, accepted, rejected, set_args}
use nilfs_utils.Cleaner.Accept.{outcome}
use nilfs_utils.Cleaner.Messages.{
  Response, ack, nack, Mailbox, Surroundings, respond, send, open_and_send, nak, cmd_getstat,
  cmd_run, cmd_suspend, cmd_resume, cmd_tune, cmd_wait, cmd_stop, cmd_shutdown, cmd_reload,
  report_reload, dispatch, handle_message,
}
use nilfs_utils.Cleaner.Control.{field, args_of}
use nilfs_utils.Cleaner.Control.Decode.{le-number, read_args_lem}
use nilfs_utils.Cleaner.Interval.Requests.{WellTimed, aside, set_args-IsPaced}
use nilfs_utils.Cleaner.Interval.Paced.{IsTimed, IsPaced, Paced_either, retime, second}

-- What the daemon keeps while it answers.
abbrev pub Kept : Cleanerd × Result Response → Type 0
Kept r = IsPaced r.0

Kept-either :
    (b : Bool) (r t : Cleanerd × Result Response) → Kept r → Kept t → Kept (if b then r else t)
Kept-either true r t p q = p
Kept-either false r t p q = q

-- The time-out of a pause.
pub pause_lem :
    (c d : Cleanerd)
    → IsPaced c
    → d.config ≡ c.config
    → d.cleaning_interval ≡ c.cleaning_interval
    → d.mm_protection_period ≡ c.mm_protection_period
    → d.mm_cleaning_interval ≡ c.mm_cleaning_interval
    → d.target ≡ c.target
    → d.timeout ≡ (c.config).cf_clean_check_interval
    → IsPaced d
pause_lem c d paced a b e f g h =
    retime c d paced a b e f (rw g paced.target) (rw h (paced.config).check)

module _ (box : Mailbox) (uuid : ℕ) where
  open_and_send-Kept :
      (c : Cleanerd) (res : Response) → IsPaced c → Kept (open_and_send box uuid res c)
  unfolding open_and_send send
  open_and_send-Kept c res paced =
      Kept-either box.opens _ _ (aside c paced _ refl refl refl refl refl refl)
        (aside c paced _ refl refl refl refl refl refl)

  respond_cases :
      (c : Cleanerd) (res : Response) (client : Option ℕ)
      → IsPaced c
      → Kept (elim client [
        | some known ↦ if known == uuid then send box uuid res c else open_and_send box uuid res c
        | none ↦ open_and_send box uuid res c
      ])
  unfolding send
  respond_cases c res none paced = open_and_send-Kept c res paced
  respond_cases c res (some known) paced =
      Kept-either (known == uuid) _ _ paced (open_and_send-Kept c res paced)

  respond-Kept : (c : Cleanerd) (res : Response) → IsPaced c → Kept (respond box uuid c res)
  unfolding respond
  respond-Kept c res paced = respond_cases c res c.client paced

  cmd_suspend-Kept : (c : Cleanerd) → IsPaced c → Kept (cmd_suspend box uuid c)
  unfolding cmd_suspend manual_suspend
  cmd_suspend-Kept c paced = respond-Kept _ ack (
      Paced_either (not (eqb_ℤ c.running suspended)) _ c
        (pause_lem c _ paced refl refl refl refl refl refl) paced)

  cmd_resume-Kept : (c : Cleanerd) → IsPaced c → Kept (cmd_resume box uuid c)
  unfolding cmd_resume manual_resume
  cmd_resume-Kept c paced = respond-Kept _ ack (
      Paced_either (eqb_ℤ c.running suspended) _ c (aside c paced _ refl refl refl refl refl refl)
        paced)

  cmd_stop-Kept : (c : Cleanerd) → IsPaced c → Kept (cmd_stop box uuid c)
  unfolding cmd_stop manual_stop
  cmd_stop-Kept c paced = respond-Kept _ ack (
      Paced_either (in_manual c || eqb_ℤ c.running suspended) _ c
        (pause_lem c _ paced refl refl refl refl refl refl) paced)

  ran :
      (r : Checked)
      → IsPaced (outcome r)
      → Safe Kept (elim r [
        | rejected d ↦ ok (respond box uuid d (nack einval))
        | accepted d ↦
            let started = manual_run d in
            let jobid = u64 (started.jobid + 1) in
            ok
              (respond box uuid (record started { jobid = jobid }) (record ack { job = u32 jobid }))
      ])
  unfolding manual_run
  ran (accepted d) paced = respond-Kept _ _ (aside d paced _ refl refl refl refl refl refl)
  ran (rejected d) paced = respond-Kept d _ paced

  cmd_run-Kept :
      (blocks_per_segment : ℕ) (buf : List ℕ) (c : Cleanerd)
      → WellTimed (args_of buf)
      → IsPaced c
      → Safe Kept (cmd_run box uuid blocks_per_segment buf c)
  unfolding cmd_run
  cmd_run-Kept blocks_per_segment buf c well paced = elim (Bool-cases (ltb (length buf) 48)) [
    | inl short ↦ rw short (respond-Kept c (nack einval) paced)
    | inr long ↦
        rw (long, read_args_lem buf (ltb→le _ _ long))
          (ran (set_args blocks_per_segment (args_of buf) c)
            (set_args-IsPaced blocks_per_segment (args_of buf) c well paced))
  ]

override-IsTimed :
    (override : Option ℤ) (cf : Config)
    → IsTimed cf
    → IsTimed (override_protection_period override cf)
unfolding override_protection_period
override-IsTimed none cf timed = timed
override-IsTimed (some seconds) cf timed = record {
  period = second seconds;
  check = timed.check;
  interval = timed.interval;
  mc_interval = timed.mc_interval;
  retry = timed.retry;
}

-- nilfs_cleanerd_reconfig, with a configuration file whose times are well-formed.
pub reconfig-IsPaced :
    (override : Option ℤ) (read : Result Config) (c : Cleanerd)
    → Safe IsTimed read
    → IsPaced c
    → IsPaced (reconfig override read c).0
unfolding reconfig
reconfig-IsPaced override (ok cf) c timed paced =
    let new = override-IsTimed override cf timed in
    record {
      config = new;
      interval = new.interval;
      mm_period = paced.mm_period;
      mm_interval = paced.mm_interval;
      target = paced.target;
      timeout = paced.timeout;
    }
reconfig-IsPaced override (err e) c timed paced = paced
reconfig-IsPaced override fault c timed paced = absurd timed

report-Kept :
    (box : Mailbox) (uuid : ℕ) (override : Option ℤ) (read : Result Config) (c : Cleanerd)
    → Safe IsTimed read
    → IsPaced c
    → Kept (report_reload box uuid (reconfig override read c))
unfolding report_reload
report-Kept box uuid override read c timed paced =
    let new = reconfig-IsPaced override read c timed paced in cases (reconfig override read c) new
  where
    cases : (r : Cleanerd × Result (Unit {0})) → IsPaced r.0 → Kept (report_reload box uuid r)
    cases (d, ok x) p = respond-Kept box uuid d ack p
    cases (d, err e) p = respond-Kept box uuid d (nack e) p
    cases (d, fault) p = p

module _ (env : Surroundings) (reads : (file : Option (List ℕ)) → Safe IsTimed (env.read file))
    (box : Mailbox) where
  cmd_reload-Kept :
      (uuid : ℕ) (buf : List ℕ) (c : Cleanerd)
      → IsPaced c
      → Kept (cmd_reload box uuid env.override env.read buf c)
  unfolding cmd_reload
  cmd_reload-Kept uuid buf c paced =
      let load = λ (file : Option (List ℕ)).
        report-Kept box uuid env.override (env.read file) c (reads file) paced in
      Kept-either _ _ _ (load none)
        (Kept-either _ _ _ (load (some buf)) (respond-Kept box uuid c (nack einval) paced))

  Kept-ok :
      (b : Bool) (r t : Result (Cleanerd × Result Response))
      → Safe Kept r
      → Safe Kept t
      → Safe Kept (if b then r else t)
  Kept-ok true r t p q = p
  Kept-ok false r t p q = q

  dispatch-Kept :
      (cmd uuid : ℕ) (buf : List ℕ) (c : Cleanerd)
      → WellTimed (args_of buf)
      → IsPaced c
      → Safe Kept (dispatch env box cmd uuid buf c)
  unfolding dispatch cmd_getstat cmd_tune cmd_wait cmd_shutdown nak
  dispatch-Kept cmd uuid buf c well paced =
      let reply = λ (res : Response). respond-Kept box uuid c res paced in
      Kept-ok (cmd == 0) _ _ (reply _) (
        Kept-ok (cmd == 1) _ _ (cmd_run-Kept box uuid env.blocks_per_segment buf c well paced) (
          Kept-ok (cmd == 2) _ _ (cmd_suspend-Kept box uuid c paced) (
            Kept-ok (cmd == 3) _ _ (cmd_resume-Kept box uuid c paced) (
              Kept-ok (cmd == 4) _ _ (reply _) (
                Kept-ok (cmd == 5) _ _ (cmd_reload-Kept uuid buf c paced) (
                  Kept-ok (cmd == 6) _ _ (reply _) (
                    Kept-ok (cmd == 7) _ _ (cmd_stop-Kept box uuid c paced) (
                      Kept-ok (cmd == 8) _ _
                        (respond-Kept box uuid _ ack
                          (aside c paced _ refl refl refl refl refl refl))
                        (reply _)))))))))

  framed :
      (bytes : List ℕ) (c : Cleanerd)
      → WellTimed (args_of (drop 24 bytes))
      → IsPaced c
      → 24 ≤ length bytes
      → Safe Kept (
          if ltb (length bytes) (24 + field bytes 4 4)
          then ok (c, err unset)
          else (le 4 bytes 0 >>= λ cmd.
              le 16 bytes 8 >>= λ uuid. dispatch env box cmd uuid (drop 24 bytes) c))
  framed bytes c well paced long =
      let header = le 4 bytes 0 >>= λ cmd.
      le 16 bytes 8 >>= λ uuid. dispatch env box cmd uuid (drop 24 bytes) c in
      Kept-ok (ltb (length bytes) (24 + field bytes 4 4)) (ok (c, err unset)) header paced (
        rw (le-number 4 bytes 0 (omega arith), le-number 16 bytes 8 (omega arith))
          (dispatch-Kept (field bytes 0 4) (field bytes 8 16) (drop 24 bytes) c well paced))

  pub handle_message-Kept :
      (bytes : List ℕ) (c : Cleanerd)
      → WellTimed (args_of (drop 24 bytes))
      → IsPaced c
      → Safe Kept (handle_message env box bytes c)
  unfolding handle_message
  handle_message-Kept bytes c well paced = elim (Bool-cases (ltb (length bytes) 24)) [
    | inl short ↦ rw short paced
    | inr long ↦
        rw (long, le-number 4 bytes 4 (omega (arith, ltb→le _ _ long)))
          (framed bytes c well paced (ltb→le _ _ long))
  ]
