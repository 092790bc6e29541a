-- ===== src/Cleaner/Control/Handle.antt =====
-- A whole message to the cleaner daemon, from its bytes to its reply.
use nilfs_utils.Base.{
  ℕ, ◌+◌, ◌≤◌, ◌≡◌, refl, ap, sym, ◌∙◌, ◌||◌, ◌&&◌, Bool, true, false, List, ltb, ◌==◌,
  if◌then◌else◌, Bool-cases, inl, inr, arith, Result, ok, err, fault, ◌>>=◌, einval, eopnotsupp,
  length, drop, Option, some, none, ltb→le, u32, u64, unset,
}
use nilfs_utils.Segment.Bytes.{Safe, le}
use nilfs_utils.Cleaner.{Cleanerd, Config, manual_run, reconfig}
use nilfs_utils.Cleaner.Args.{set_args, Checked, accepted, rejected}
use nilfs_utils.Cleaner.Accept.{acceptable, set_args-Answers, outcome, is_accepted, SameBut}
use nilfs_utils.Cleaner.Messages.{
  Response, ack, nack, Mailbox, Surroundings, respond, cmd_run, cmd_tune, cmd_wait, cmd_reload,
  strnlen, report_reload, dispatch, handle_message,
}
use nilfs_utils.Cleaner.Control.{
  View, IsView, Order, field, args_of, run_order, order, message_order, reload_order,
  reload_response,
}
use nilfs_utils.Cleaner.Control.Decode.{le-number, read_args_lem}
use nilfs_utils.Cleaner.Control.Refine.{
  Meets, respond-Meets, nak-Meets, cmd_getstat-Meets, cmd_suspend-Meets, cmd_resume-Meets,
  cmd_stop-Meets, cmd_shutdown-Meets, same_view,
}

-- A result that meets the order.
abbrev pub MeetsOk :
    (Option (List ℕ) → Result Config)
    → Mailbox
    → ℕ
    → Option ℕ
    → Order
    → View
    → Result (Cleanerd × Result Response)
    → Type 0
MeetsOk read box uuid client o v (ok r) = Meets read box uuid client o v r
MeetsOk read box uuid client o v (err e) = ⊥
MeetsOk read box uuid client o v fault = ⊥

module _ (env : Surroundings) (reads : (file : Option (List ℕ)) → Safe (λ cf. Unit) (env.read file))
    (box : Mailbox) (uuid : ℕ) (v : View) (c : Cleanerd) (sees : IsView c v) where
  -- What this message is owed.
  abbrev Right : Order → View → Result (Cleanerd × Result Response) → Type 0
  Right = MeetsOk env.read box uuid c.client

  either-Right :
      (b : Bool) (o p : Order) (r t : Result (Cleanerd × Result Response))
      → Right o v r
      → Right p v t
      → Right (if b then o else p) v (if b then r else t)
  either-Right true o p r t m n = m
  either-Right false o p r t m n = n

  -- The end of nilfs_cleanerd_cmd_run.
  ran :
      (fine : Bool) (r : Checked)
      → (is_accepted r ≡ fine) × SameBut c (outcome r)
      → Right (if fine then Order.start else Order.refuse einval) v (elim r [
        | rejected d ↦ ok (respond box uuid d (nack einval))
        | accepted d ↦
            let started = manual_run d in
            let jobid = u64 (started.jobid + 1) in
            ok
              (respond box uuid (record started { jobid = jobid }) (record ack { job = u32 jobid }))
      ])
  unfolding manual_run
  ran true (accepted d) (e, same) =
      respond-Meets env.read box uuid Order.start v _ _ c.client same.client
        (record {
          mode = refl;
          stopping = same.shutdown ∙ sees.stopping;
          jobs = ap (λ n. u64 (n + 1)) (same.jobid ∙ sees.jobs);
        })
        (ap (λ n. some (record ack { job = u32 (u64 (n + 1)) })) (sym (same.jobid ∙ sees.jobs)))
  ran false (accepted d) (e, same) = absurd (cc e)
  ran true (rejected d) (e, same) = absurd (cc e)
  ran false (rejected d) (e, same) =
      respond-Meets env.read box uuid (Order.refuse einval) v (nack einval) d c.client same.client
        (same_view c d v sees same.running same.shutdown same.jobid) refl

  refused : Right (Order.refuse einval) v (ok (respond box uuid c (nack einval)))
  refused =
      respond-Meets env.read box uuid (Order.refuse einval) v (nack einval) c c.client refl sees
        refl

  cmd_run-Meets :
      (buf : List ℕ)
      → Right
          (run_order env.blocks_per_segment buf)
          v
          (cmd_run box uuid env.blocks_per_segment buf c)
  unfolding cmd_run run_order
  cmd_run-Meets buf = elim (Bool-cases (ltb (length buf) 48)) [
    | inl short ↦ rw short refused
    | inr long ↦
        rw (long, read_args_lem buf (ltb→le _ _ long))
          (ran (acceptable env.blocks_per_segment (args_of buf))
            (set_args env.blocks_per_segment (args_of buf) c)
            (set_args-Answers env.blocks_per_segment (args_of buf) c))
  ]

  report :
      (file : Option (List ℕ))
      → Meets env.read box uuid c.client
          (Order.reload file)
          v
          (report_reload box uuid (reconfig env.override (env.read file) c))
  unfolding report_reload reconfig
  report file = go (env.read file) refl (reads file)
    where
      go :
          (r : Result Config)
          → env.read file ≡ r
          → Safe (λ cf. Unit) r
          → Meets env.read box uuid c.client
              (Order.reload file)
              v
              (report_reload box uuid (reconfig env.override r c))
      go (ok cf) e safe =
          respond-Meets env.read box uuid (Order.reload file) v ack _ c.client refl
            (same_view c _ v sees refl refl refl) (ap reload_response e)
      go (err d) e safe =
          respond-Meets env.read box uuid (Order.reload file) v (nack d) c c.client refl sees
            (ap reload_response e)
      go fault e safe = absurd safe

  cmd_reload-Meets :
      (buf : List ℕ)
      → Right (reload_order buf) v (ok (cmd_reload box uuid env.override env.read buf c))
  unfolding cmd_reload reload_order
  cmd_reload-Meets buf =
      pick (length buf == 0 || length buf == 1 && strnlen buf == 0) _ _ _ _ (report none)
        (pick (ltb (strnlen buf) (length buf)) _ _ _ _ (report (some buf)) refused)
    where
      pick :
          (b : Bool) (o p : Order) (r t : Cleanerd × Result Response)
          → Meets env.read box uuid c.client o v r
          → Meets env.read box uuid c.client p v t
          → Meets env.read box uuid c.client (if b then o else p) v (if b then r else t)
      pick true o p r t m n = m
      pick false o p r t m n = n

  dispatch-Meets :
      (cmd : ℕ) (buf : List ℕ)
      → Right (order env.blocks_per_segment cmd buf) v (dispatch env box cmd uuid buf c)
  unfolding dispatch order cmd_tune cmd_wait
  dispatch-Meets cmd buf =
      either-Right (cmd == 0) _ _ _ _ (cmd_getstat-Meets env.read box uuid v c sees) (
        either-Right (cmd == 1) _ _ _ _ (cmd_run-Meets buf) (
          either-Right (cmd == 2) _ _ _ _ (cmd_suspend-Meets env.read box uuid v c sees) (
            either-Right (cmd == 3) _ _ _ _ (cmd_resume-Meets env.read box uuid v c sees) (
              either-Right (cmd == 4) _ _ _ _ (nak-Meets env.read box uuid v c sees eopnotsupp) (
                either-Right (cmd == 5) _ _ _ _ (cmd_reload-Meets buf) (
                  either-Right (cmd == 6) _ _ _ _ (nak-Meets env.read box uuid v c sees eopnotsupp)
                    (either-Right (cmd == 7) _ _ _ _ (cmd_stop-Meets env.read box uuid v c sees) (
                      either-Right (cmd == 8) _ _ _ _
                        (cmd_shutdown-Meets env.read box uuid v c sees)
                        (nak-Meets env.read box uuid v c sees einval)))))))))

module _ (env : Surroundings) (reads : (file : Option (List ℕ)) → Safe (λ cf. Unit) (env.read file))
    (box : Mailbox) where
  -- What the client of a message, which writes its number behind the command and the size, is owed.
  abbrev pub MessageMeets : List ℕ → View → Cleanerd → Result (Cleanerd × Result Response) → Type 0
  MessageMeets message v c =
      MeetsOk env.read box (field message 8 16) c.client
        (message_order env.blocks_per_segment message) v

  ignored :
      (uuid : ℕ) (v : View) (c : Cleanerd)
      → IsView c v
      → MeetsOk env.read box uuid c.client Order.noise v (ok (c, err unset))
  ignored uuid v c sees = (sees, (refl, refl))

  -- The part after the length of the header is known.
  framed :
      (message : List ℕ) (v : View) (c : Cleanerd)
      → IsView c v
      → 24 ≤ length message
      → MeetsOk env.read box
          (field message 8 16)
          c.client
          (if ltb (length message) (24 + field message 4 4)
            then Order.noise
            else order env.blocks_per_segment (field message 0 4) (drop 24 message))
          v
          (if ltb (length message) (24 + field message 4 4)
            then ok (c, err unset)
            else (le 4 message 0 >>= λ cmd.
                le 16 message 8 >>= λ uuid. dispatch env box cmd uuid (drop 24 message) c))
  framed message v c sees long =
      either-Right env reads box (field message 8 16) v c sees
        (ltb (length message) (24 + field message 4 4)) _ _ _ _
        (ignored (field message 8 16) v c sees)
        (rw (le-number 4 message 0 (omega arith), le-number 16 message 8 (omega arith))
          (dispatch-Meets env reads box (field message 8 16) v c sees (field message 0 4)
            (drop 24 message)))

  -- For a configuration file whose reading answers or fails: every message, whatever its bytes, is
  -- handled without a read past its end, and acts on the daemon as its order does on the abstract
  -- view: a query and a reload change nothing; an acceptable run starts a manual run under a new job
  -- number; a suspension, a resumption (to the idle mode), a stop and a shutdown do what they say, in
  -- every mode; and anything else leaves the view alone. Unless it is too short, the message is answered
  -- with the response of its order, a reload by how the file that it names was read. The response goes
  -- to the queue of the client that the message names, which stays open, and is opened before unless
  -- it is the one that is; the result is a failure exactly if that queue cannot be opened or sent to.
  pub handle_message-Meets :
      (message : List ℕ) (v : View) (c : Cleanerd)
      → IsView c v
      → MessageMeets message v c (handle_message env box message c)
  unfolding handle_message message_order
  handle_message-Meets message v c sees = elim (Bool-cases (ltb (length message) 24)) [
    | inl short ↦ rw short (ignored (field message 8 16) v c sees)
    | inr long ↦
        rw (long, le-number 4 message 4 (omega (arith, ltb→le _ _ long)))
          (framed message v c sees (ltb→le _ _ long))
  ]
