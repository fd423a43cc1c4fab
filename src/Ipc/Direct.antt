-- ===== src/Ipc/Direct.antt =====
-- A message for a process that waits for it goes straight into the memory of the process.
use minix4rt.Base.{
  ℕ, Bool, true, false, ◌&&◌, none, some, ◌==◌, if◌then◌else◌, ltb, ◌≡◌, refl, ap, ◌∙◌, inl, inr,
  update, update_self, update_keep, Bool-cases,
}
use minix4rt.Vtimer.{Timers, alloc}
use minix4rt.Vtimer.Handlers.{vtimer_stop, leave_queue, stopped}
use minix4rt.Messages.{Header}
use minix4rt.Kernel.{Kernel, Proc, set_proc, inc, is_rtready, rdy_q_app, msg_buf, hdr_buf}
use minix4rt.Kernel.Outcome.{Outcome, next}
use minix4rt.Ipc.{
  mt_arequest, set_timers, vt_stop, check_full, check_queue, check_dest, stamp, header_of, copy_msg,
  copy_hdr, count_direct, raise_max, unblock, deliver,
}

-- Making a process ready writes the processes and the ready queue.
abbrev pub Readied : Kernel → Kernel → Type 0
Readied k k' = k' ≡ record k { proc = k'.proc; rdy_q = k'.rdy_q }

Readied-if :
    (k : Kernel) (b : Bool) (x y : Kernel)
    → Readied k x
    → Readied k y
    → Readied k (if b then x else y)
Readied-if k true x y hx hy = hx
Readied-if k false x y hx hy = hy

pub rdy_q_app-Readied : (k : Kernel) (r : ℕ) → Readied k (rdy_q_app k r)
unfolding rdy_q_app
rdy_q_app-Readied k r =
    Readied-if k (ltb (k.proc r).limit (k.proc r).scheds && ltb 0 (k.proc r).limit) _ _ refl refl

module _ {ℓ} {A : Type ℓ} (f : Proc → A)
    (blind : (p : Proc) (b : Bool) → f (record p { stop = b }) ≡ f p) where
  pub rdy_q_app-Keeps : (k : Kernel) (r p : ℕ) → f ((rdy_q_app k r).proc p) ≡ f (k.proc p)
  unfolding rdy_q_app
  rdy_q_app-Keeps k r p =
      elim (Bool-cases (ltb (k.proc r).limit (k.proc r).scheds && ltb 0 (k.proc r).limit)) [
        | inl e ↦ rw e (
            update_keep k.proc k.running (record (k.proc k.running) { stop = true }) f p
              (blind (k.proc k.running) true))
        | inr e ↦ rw e refl
      ]

module _ (d : ℕ) (k : Kernel) where
  abbrev roused : Proc
  roused = record (k.proc d) { msgrcvd = inc (k.proc d).msgrcvd; pfrom = none; mbx_rcv = false }

  abbrev risen : Kernel
  risen = set_proc k d roused

  pub unblock-Readied : Readied k (unblock d k)
  unfolding unblock
  unblock-Readied =
      Readied-if k (is_rtready (risen.proc d)) (rdy_q_app risen d) risen
        (rdy_q_app-Readied risen d ∙ refl) refl

  pub unblock-Keeps {ℓ} :
      {A : Type ℓ} (f : Proc → A)
      → ((p : Proc) (b : Bool) → f (record p { stop = b }) ≡ f p)
      → f ((unblock d k).proc d) ≡ f roused
  unfolding unblock
  unblock-Keeps f blind = elim (Bool-cases (is_rtready (risen.proc d))) [
    | inl e ↦
        ap (λ (b : Bool). f ((if b then rdy_q_app risen d else risen).proc d)) e
        ∙ rdy_q_app-Keeps f blind risen d d
        ∙ ap f (update_self k.proc d roused)
    | inr e ↦
        ap (λ (b : Bool). f ((if b then rdy_q_app risen d else risen).proc d)) e
        ∙ ap f (update_self k.proc d roused)
  ]

-- The state before the timer of the destination is stopped.
abbrev pub counted : ℕ → ℕ → ℕ → Header → Kernel → Kernel
counted d q msg h k = raise_max q (
    count_direct q (record k {
      user_msg =
          update k.user_msg (k.numap d (k.proc d).pmsg msg_buf)
            (k.user_msg (k.numap k.running msg msg_buf));
      user_hdr = update k.user_hdr (k.numap d (k.proc d).pmhdr hdr_buf) h;
    }))

abbrev pub handed : ℕ → ℕ → ℕ → Header → Kernel → Kernel
handed d q msg h k = unblock d (counted d q msg h k)

abbrev pub stop_idle : ℕ → Timers → Timers
stop_idle v t = record t {
  vtimer = update t.vtimer v (record (t.vtimer v) { nextexp = 0; flags = alloc });
}

pub vt_stop-idle :
    (v : ℕ) (k : Kernel)
    → (k.timers.vtimer v).flags ≡ alloc
    → vt_stop (some v) k ≡ next (record k { timers = stop_idle v k.timers })
unfolding vt_stop set_timers vtimer_stop leave_queue stopped
vt_stop-idle v k e = ap (λ s. set_timers k (stopped v (leave_queue s k.timers v))) e

-- Both buffers are mapped, and the timer of the destination does not run.
abbrev pub Deliverable : ℕ → ℕ → ℕ → Kernel → Type 0
Deliverable d msg v k =
    ((k.numap k.running msg msg_buf == 0) ≡ false)
    × ((k.numap d (k.proc d).pmhdr hdr_buf == 0) ≡ false)
    × ((k.proc d).ipcvt ≡ some v)
    × ((k.timers.vtimer v).flags ≡ alloc)

pub deliver-next :
    (d q msg v : ℕ) (h : Header) (k : Kernel)
    → Deliverable d msg v k
    → deliver d q msg h k
      ≡ next (record (handed d q msg h k) { timers = stop_idle v (handed d q msg h k).timers })
unfolding deliver copy_msg copy_hdr raise_max count_direct
deliver-next d q msg v h k (mapped, header, timer, idle) = rw mapped (
    rw header (
      ap (λ o. vt_stop o (handed d q msg h k))
        (unblock-Keeps d (counted d q msg h k) (λ p. p.ipcvt) (λ p b. refl) ∙ timer)
      ∙ vt_stop-idle v (handed d q msg h k)
          (ap (λ z. (z.timers.vtimer v).flags) (unblock-Readied d (counted d q msg h k)) ∙ idle)))

-- The destination `d` with the queue `q` takes messages, and waits for one of the running process.
abbrev pub IsOpen : ℕ → ℕ → ℕ → Kernel → Type 0
IsOpen d q pid k =
    ((k.proc d).is_process ≡ true)
    × (((k.proc d).pid == pid) ≡ true)
    × ((k.proc d).realtime ≡ true)
    × ((k.proc d).pmq ≡ some q)
    × (((k.messages.msgq q).plist.in_q == (k.messages.msgq q).size) ≡ false)

pub check_dest-open :
    (d q pid : ℕ) (go : ℕ → Kernel → Outcome) (k : Kernel)
    → IsOpen d q pid k
    → check_dest d pid go k ≡ go q k
unfolding check_dest check_queue check_full
check_dest-open d q pid go k (alive, same, rt, queue, room) =
    rw (alive, same, rt, queue) (rw room refl)

-- The payload and the header are where the destination `d` asked for them, and it does not wait for a
-- message any more.
abbrev pub Direct : ℕ → ℕ → Header → Kernel → Kernel → Type 0
Direct d msg h k k' =
    (k'.user_msg (k.numap d (k.proc d).pmsg msg_buf) ≡ k.user_msg (k.numap k.running msg msg_buf))
    × (k'.user_hdr (k.numap d (k.proc d).pmhdr hdr_buf) ≡ h)
    × ((k'.proc d).mbx_rcv ≡ false)
    × ((k'.proc d).pfrom ≡ none)

module _ (d q msg v : ℕ) (h : Header) (k : Kernel) where
  abbrev pub delivered : Kernel
  delivered = record (handed d q msg h k) { timers = stop_idle v (handed d q msg h k).timers }

-- The header of an asynchronous request of the running process to `d`.
abbrev pub request_header : ℕ → Kernel → Header
request_header d k =
    let p = k.proc k.running in
    header_of (stamp k.running k) k.running d mt_arequest p.priority p.deadline
