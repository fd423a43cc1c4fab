-- ===== src/Messages.antt =====
-- src/kernel/mrtmsg.c, the first part: the pool of message queue entries and the message queues
-- (`MRT_sysmsg_t`). An entry, a queue and a process are named by numbers; `none` stands for HARDWARE
-- and MRTMSGQFREE. The payload of a message is its text, and `m_u` gives that of each entry. The field
-- `pvt` of an entry, which only `MRT_mqe_rst` writes and nothing reads, is left out. The counters of 32 bits wrap.
pub mod Pick
pub mod Queue
use minix4rt.Base.{
  ℕ, zero, suc, ◌+◌, ◌%◌, ◌^◌, Bool, true, false, ◌||◌, Option, none, some, List, [], ◌∷◌, ◌++◌,
  ◌==◌, if◌then◌else◌, update,
}
use minix4rt.Plist.{Plist, plist_rst, plist_app, plist_rmv, nr_prty, pri_highest}
use minix4rt.Rcode.{Rcode, ok, e_mrt_mqfull}

abbrev pub nr_messages : ℕ
nr_messages = 32

abbrev pub nr_msgq : ℕ
nr_msgq = 16

-- MT_MBFREE
abbrev pub mt_mbfree : ℕ
mt_mbfree = 0

-- `mrt_mhdr_t`
pub record Header : Type 0 where
  pub src_pid : Option ℕ
  pub src_nr : Option ℕ
  pub dst_pid : Option ℕ
  pub dst_nr : Option ℕ
  pub mtype : ℕ
  pub mid : ℕ
  pub seqno : ℕ
  pub tstamp : ℕ
  pub priority : ℕ
  pub deadline : ℕ

-- `prty_order` is the flag MQ_PRTYORDER, `prty_inherit` the flag MQ_PRTYINHERIT.
pub record MsgQueue : Type 0 where
  pub size : ℕ
  pub prty_order : Bool
  pub prty_inherit : Bool
  pub owner : Option ℕ
  pub delivered : ℕ
  pub enqueued : ℕ
  pub plist : Plist

-- `mrt_msg_t`, as its bytes.
abbrev pub Payload : Type 0
Payload = List ℕ

-- The bytes of "----|----|----|----|", which `MRT_mqe_rst` copies over the front of a payload.
abbrev pub free_text : Payload
free_text =
    45 ∷ 45 ∷ 45 ∷ 45 ∷ 124 ∷ 45 ∷ 45 ∷ 45 ∷ 45 ∷ 124 ∷ 45 ∷ 45 ∷ 45 ∷ 45 ∷ 124 ∷ 45 ∷ 45 ∷ 45 ∷ 45
    ∷ 124 ∷ 0 ∷ []

-- The front of the second list is overwritten by the first.
unfoldable pub overwrite : Payload → Payload → Payload
overwrite [] ys = ys
overwrite (x ∷ xs) [] = []
overwrite (x ∷ xs) (y ∷ ys) = x ∷ overwrite xs ys

-- `mqe_l` and `msgq_l` are the lists of free entries and of free queues.
pub record Messages : Type 0 where
  pub mqe_l : List ℕ
  pub mqe : ℕ → Header
  pub m_u : ℕ → Payload
  pub msgq_l : List ℕ
  pub msgq : ℕ → MsgQueue

unfoldable pub mqe_rst : Header
mqe_rst = record {
  src_pid = none;
  src_nr = none;
  dst_pid = none;
  dst_nr = none;
  mtype = mt_mbfree;
  mid = 0;
  seqno = 0;
  tstamp = 0;
  priority = pri_highest;
  deadline = 0;
}

-- The loop of `MRT_mpool_init` from entry `i`, with the rounds that are left.
pub mpool_loop : ℕ → ℕ → Messages → Messages
unfolding mqe_rst overwrite
mpool_loop zero i s = s
mpool_loop (suc n) i s = mpool_loop n (suc i) (record s {
  mqe_l = s.mqe_l ++ (i ∷ []);
  mqe = update s.mqe i mqe_rst;
  m_u = update s.m_u i (overwrite free_text (s.m_u i));
})

pub mpool_init : Messages → Messages
unfolding mpool_loop
mpool_init s = mpool_loop nr_messages 0 s

unfoldable pub msgq_rst : MsgQueue
unfolding plist_rst
msgq_rst = record {
  size = 0;
  prty_order = false;
  prty_inherit = false;
  owner = none;
  delivered = 0;
  enqueued = 0;
  plist = plist_rst;
}

unfoldable pub msgq_free : Messages → ℕ → Messages
unfolding msgq_rst
msgq_free s q = record s { msgq_l = s.msgq_l ++ (q ∷ []); msgq = update s.msgq q msgq_rst }

pub msgq_loop : ℕ → ℕ → Messages → Messages
unfolding msgq_free
msgq_loop zero i s = s
msgq_loop (suc n) i s = msgq_loop n (suc i) (msgq_free s i)

pub msgq_init : Messages → Messages
unfolding msgq_loop
msgq_init s = msgq_loop nr_msgq 0 (record s { mqe_l = []; msgq_l = [] })

-- The attributes of a new queue are those of `mq`.
unfoldable pub msgq_alloc : Messages → MsgQueue → Option ℕ × Messages
msgq_alloc s mq = elim s.msgq_l [
  | [] ↦ (none, s)
  | q ∷ rest ↦ (
    some q,
    record s {
      msgq_l = rest;
      msgq = update s.msgq q (record (s.msgq q) {
        size = mq.size;
        prty_order = mq.prty_order;
        prty_inherit = mq.prty_inherit;
        owner = mq.owner;
      });
    },
  )
]

unfoldable pub mqe_alloc : Messages → Option ℕ × Messages
mqe_alloc s = elim s.mqe_l [ [] ↦ (none, s) | x ∷ rest ↦ (some x, record s { mqe_l = rest }) ]

unfoldable pub mqe_free : Messages → ℕ → Messages
unfolding mqe_rst overwrite
mqe_free s x = record s {
  mqe_l = s.mqe_l ++ (x ∷ []);
  mqe = update s.mqe x mqe_rst;
  m_u = update s.m_u x (overwrite free_text (s.m_u x));
}

-- The list of a queue that an entry of a priority is in.
unfoldable pub mqe_pty : MsgQueue → ℕ → ℕ
mqe_pty mq prty = if mq.prty_order then prty else pri_highest

-- `prty` is the priority in the header of the entry `x`.
unfoldable pub mqe_app : MsgQueue → ℕ → ℕ → Rcode × MsgQueue
unfolding mqe_pty
mqe_app mq x prty = if mq.plist.in_q == mq.size then (e_mrt_mqfull, mq) else (
  ok,
  record mq {
    plist = plist_app mq.plist x (mqe_pty mq prty);
    enqueued = (mq.enqueued + 1) % 2 ^ 32;
  },
)

unfoldable pub mqe_rmv : MsgQueue → ℕ → ℕ → MsgQueue
unfolding mqe_pty
mqe_rmv mq x prty = record mq {
  plist = plist_rmv mq.plist x (mqe_pty mq prty);
  delivered = (mq.delivered + 1) % 2 ^ 32;
}

-- MRT_ANYPROC, or the number of a process.
pub data Source : Type 0 where
  any_proc : Source
  only : ℕ → Source

-- `hw` is the number of HARDWARE, which a process may name as the source.
abbrev pub matches : ℕ → Source → Option ℕ → Bool
matches hw any_proc src = true
matches hw (only p) none = p == hw
matches hw (only p) (some src) = p == src

-- The inner loop of `MRT_mqe_pick`.
unfoldable pub scan : ℕ → (ℕ → Header) → Source → List ℕ → Option ℕ
scan hw f source [] = none
scan hw f source (x ∷ xs) =
    let rest = scan hw f source xs in if matches hw source (f x).src_nr then some x else rest

abbrev pub or_else : Option ℕ → Option ℕ → Option ℕ
or_else none o = o
or_else (some x) o = some x

-- The outer loop from priority `p`, with the rounds that are left.
unfoldable pub pick_loop : ℕ → ℕ → ℕ → (ℕ → Header) → Source → Plist → Option ℕ
unfolding scan
pick_loop zero p hw f source pl = none
pick_loop (suc n) p hw f source pl =
    let rest = pick_loop n (suc p) hw f source pl in
    if pl.bitmap p then or_else (scan hw f source (pl.list p)) rest else rest

unfoldable pub mqe_pick : ℕ → (ℕ → Header) → MsgQueue → Source → Option ℕ
unfolding pick_loop
mqe_pick hw f mq source =
    if mq.plist.in_q == 0 then none else pick_loop nr_prty 0 hw f source mq.plist
