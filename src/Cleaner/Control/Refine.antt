-- ===== src/Cleaner/Control/Refine.antt =====
-- The message handlers of sbin/cleanerd.c refine the abstract orders.
use nilfs_utils.Base.{
  ap, sym, subst, ℕ, ◌≡◌, refl, ◌∙◌, Bool, true, false, ◌==◌, ◌||◌, if◌then◌else◌, arith, List,
  ◌&&◌, Result, ok, err, Errno, some, none, Option, ltb_ℤ, eqb_ℤ, pos, ℤ, not, unset,
}
use nilfs_utils.Cleaner.{
  Cleanerd, Config, manual_suspend, manual_resume, manual_stop, suspended, in_manual,
}
use nilfs_utils.Cleaner.Messages.{
  Response, ack, nack, Mailbox, respond, send, open_and_send, nak, cmd_getstat, cmd_suspend,
  cmd_resume, cmd_stop, cmd_shutdown,
}
use nilfs_utils.Cleaner.Control.{
  Mode, code, View, IsView, Order, obey, status_of, response_to, knows, Delivers,
}

-- What a handler owes to a client: the view that the order asks for, and the response.
abbrev pub Meets :
    (Option (List ℕ) → Result Config)
    → Mailbox
    → ℕ
    → Option ℕ
    → Order
    → View
    → Cleanerd × Result Response
    → Type 0
Meets read box uuid client o v r =
    IsView r.0 (obey o v) × Delivers box uuid client (response_to read o v) r

query_reply :
    (m : Mode) (running : ℤ)
    → running ≡ code m
    → record ack {
      status = if eqb_ℤ running (pos 0) then 0 else if ltb_ℤ (pos 0) running then 1 else 2;
    }
      ≡ record ack { status = status_of m }
query_reply Mode.suspended running e = rw e refl
query_reply Mode.idle running e = rw e refl
query_reply Mode.automatic running e = rw e refl
query_reply Mode.manual running e = rw e refl

suspend-IsView :
    (m : Mode) (s : Bool) (n : ℕ) (c : Cleanerd)
    → IsView c (record { mode = m; stopping = s; jobs = n })
    → IsView
        (if not (eqb_ℤ c.running suspended) then manual_suspend c else c)
        (obey Order.suspend (record { mode = m; stopping = s; jobs = n }))
unfolding manual_suspend
suspend-IsView Mode.suspended s n c sees = ground arith
suspend-IsView Mode.idle s n c sees = ground arith
suspend-IsView Mode.automatic s n c sees = ground arith
suspend-IsView Mode.manual s n c sees = ground arith

resume-IsView :
    (m : Mode) (s : Bool) (n : ℕ) (c : Cleanerd)
    → IsView c (record { mode = m; stopping = s; jobs = n })
    → IsView
        (if eqb_ℤ c.running suspended then manual_resume c else c)
        (obey Order.resume (record { mode = m; stopping = s; jobs = n }))
unfolding manual_resume
resume-IsView Mode.suspended s n c sees = ground arith
resume-IsView Mode.idle s n c sees = ground arith
resume-IsView Mode.automatic s n c sees = ground arith
resume-IsView Mode.manual s n c sees = ground arith

stop-IsView :
    (m : Mode) (s : Bool) (n : ℕ) (c : Cleanerd)
    → IsView c (record { mode = m; stopping = s; jobs = n })
    → IsView
        (if in_manual c || eqb_ℤ c.running suspended then manual_stop c else c)
        (obey Order.stop (record { mode = m; stopping = s; jobs = n }))
unfolding manual_stop
stop-IsView Mode.suspended s n c sees = ground arith
stop-IsView Mode.idle s n c sees = ground arith
stop-IsView Mode.automatic s n c sees = ground arith
stop-IsView Mode.manual s n c sees = ground arith

pub same_view :
    (c d : Cleanerd) (v : View)
    → IsView c v
    → d.running ≡ c.running
    → d.shutdown ≡ c.shutdown
    → d.jobid ≡ c.jobid
    → IsView d v
same_view c d v sees a b e = record {
  mode = a ∙ sees.mode;
  stopping = b ∙ sees.stopping;
  jobs = e ∙ sees.jobs;
}

-- The view, the result and the client that a response leaves, when the queue is open or can be opened
-- (`opens`) and can be sent to (`sends`).
abbrev Sent : Bool → Bool → ℕ → Response → View → Cleanerd × Result Response → Type 0
Sent opens sends uuid res v r =
    IsView r.0 v
    × (r.1 ≡ (if opens && sends then ok res else err unset))
    × ((r.0).client ≡ (if opens then some uuid else none))

module _ (box : Mailbox) (uuid : ℕ) where
  open_and_send-Sent :
      (v : View) (res : Response) (c : Cleanerd)
      → IsView c v
      → Sent box.opens box.sends uuid res v (open_and_send box uuid res c)
  unfolding open_and_send send
  open_and_send-Sent v res c sees = go box.opens
    where
      go :
          (opens : Bool)
          → Sent opens box.sends uuid res v (
              if opens
              then (record c { client = some uuid }, if box.sends then ok res else err unset)
              else (record c { client = none }, err unset))
      go true = (same_view c _ v sees refl refl refl, refl, refl)
      go false = (same_view c _ v sees refl refl refl, refl, refl)

  respond_cases :
      (v : View) (res : Response) (c : Cleanerd) (client : Option ℕ)
      → c.client ≡ client
      → IsView c v
      → Sent (knows client uuid || box.opens) box.sends uuid res v (elim client [
        | some known ↦ if known == uuid then send box uuid res c else open_and_send box uuid res c
        | none ↦ open_and_send box uuid res c
      ])
  unfolding send
  respond_cases v res c none same sees = open_and_send-Sent v res c sees
  respond_cases v res c (some known) same sees =
      pick (known == uuid) (λ e. ap some (let f : known ≡ uuid = ground (arith, e) in f))
    where
      pick :
          (b : Bool)
          → (b ≡ true → some known ≡ some uuid)
          → Sent (b || box.opens) box.sends uuid res v (
              if b
              then (c, if box.sends then ok res else err unset)
              else open_and_send box uuid res c)
      pick true e = (sees, refl, same ∙ e refl)
      pick false e = open_and_send-Sent v res c sees

module _ (read : Option (List ℕ) → Result Config) (box : Mailbox) (uuid : ℕ) where
  abbrev pub MeetsHere : Option ℕ → Order → View → Cleanerd × Result Response → Type 0
  MeetsHere = Meets read box uuid

  pub respond-Meets :
      (o : Order) (v : View) (res : Response) (c : Cleanerd) (client : Option ℕ)
      → c.client ≡ client
      → IsView c (obey o v)
      → response_to read o v ≡ some res
      → MeetsHere client o v (respond box uuid c res)
  unfolding respond
  respond-Meets o v res c client same sees right =
      let (seen, sent, known) = respond_cases box uuid (obey o v) res c c.client refl sees in
      (
        seen,
        subst (λ r. Delivers box uuid client r (respond box uuid c res)) (sym right)
            (subst (λ k. Delivers box uuid k (some res) (respond box uuid c res)) same
              (sent, known)),
      )

  module _ (v : View) (c : Cleanerd) (sees : IsView c v) where
    pub cmd_getstat-Meets : MeetsHere c.client Order.query v (cmd_getstat box uuid c)
    unfolding cmd_getstat
    cmd_getstat-Meets =
        respond-Meets Order.query v _ c c.client refl sees
          (ap some (sym (query_reply v.mode c.running sees.mode)))

    pub cmd_suspend-Meets : MeetsHere c.client Order.suspend v (cmd_suspend box uuid c)
    unfolding cmd_suspend manual_suspend
    cmd_suspend-Meets =
        respond-Meets Order.suspend v ack _ c.client (ground arith)
          (suspend-IsView v.mode v.stopping v.jobs c sees) refl

    pub cmd_resume-Meets : MeetsHere c.client Order.resume v (cmd_resume box uuid c)
    unfolding cmd_resume manual_resume
    cmd_resume-Meets =
        respond-Meets Order.resume v ack _ c.client (ground arith)
          (resume-IsView v.mode v.stopping v.jobs c sees) refl

    pub cmd_stop-Meets : MeetsHere c.client Order.stop v (cmd_stop box uuid c)
    unfolding cmd_stop manual_stop
    cmd_stop-Meets =
        respond-Meets Order.stop v ack _ c.client (ground arith)
          (stop-IsView v.mode v.stopping v.jobs c sees) refl

    pub cmd_shutdown-Meets : MeetsHere c.client Order.shutdown v (cmd_shutdown box uuid c)
    unfolding cmd_shutdown
    cmd_shutdown-Meets =
        respond-Meets Order.shutdown v ack _ c.client refl
          (record { mode = sees.mode; stopping = refl; jobs = sees.jobs }) refl

    pub nak-Meets : (e : Errno) → MeetsHere c.client (Order.refuse e) v (nak box uuid e c)
    unfolding nak
    nak-Meets e = respond-Meets (Order.refuse e) v (nack e) c c.client refl sees refl
