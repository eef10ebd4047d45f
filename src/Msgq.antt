-- ===== src/Msgq.antt =====
-- osa/src/osa_msgq.c and osa/inc/osa_msgq.h: queues of messages, which are allocated when sent, and
-- come back to the sender's queue when they are acknowledged.
-- `World` is what the threads share: the queues and the messages at their addresses, and the blocks
-- of parameters that are allocated. A queue is the ring of cells of OSA_queCreate's kind (Ring).
pub mod Steps
use osa_base.Base.{
  ℕ, ◌%◌, ◌^◌, ◌≡◌, Bool, true, Option, none, some, List, ◌==◌, if◌then◌else◌, ℤ, sok, efail, eq_ℤ,
  arith,
}
use osa_base.Memory.{Ptr, null}
use osa_base.Monitor.{Outcome, returned, stopped, fault, await, after, timeout_forever}
use osa_base.Place.{Place, attempt_at}
use osa_base.Ring.{Ring, attempt_put, attempt_get}
use osa_base.Que.{InitStatus, init_status}

abbrev pub msgq_len_max : ℕ
msgq_len_max = 32

-- a queue of `OSA_MsgHndl *`
abbrev pub MsgqHndl : Type 0
MsgqHndl = Ring Ptr

pub record MsgHndl : Type 0 where
  pub p_to : Ptr
  pub p_from : Ptr
  pub p_prm : Ptr
  pub status : ℤ
  pub cmd : ℕ
  pub flags : ℕ

pub record World : Type 0 where
  pub queues : Ptr → MsgqHndl
  pub msgs : Ptr → Option MsgHndl
  pub prms : Ptr → Bool

-- a function with another value at one address
abbrev pub at_set {ℓ} : {A : Type ℓ} → (Ptr → A) → Ptr → A → Ptr → A
at_set f p a b = if b == p then a else f b

pub at_set_self {ℓ} : {A : Type ℓ} (f : Ptr → A) (p : Ptr) (a : A) → at_set f p a p ≡ a
at_set_self f p a = let s : (p == p) ≡ true = ground arith in rw s

-- the queue at an address
abbrev pub queue_at : Ptr → Place World MsgqHndl
queue_at p = record {
  read = λ w. w.queues p;
  write = λ w q. record w { queues = at_set w.queues p q };
  read-write = λ w q. at_set_self w.queues p q;
}

-- the conversion to `Uint16`
abbrev pub u16 : ℕ → ℕ
u16 n = n % 2 ^ 16

-- OSA_msgqCreate; `cells` is what the array holds before.
unfoldable pub create : List Ptr → InitStatus → ℤ × MsgqHndl
unfolding init_status
create cells inits = (
  init_status inits,
  record { cur_rd = 0; cur_wr = 0; len = msgq_len_max; count = 0; queue = cells },
)

-- OSA_msgqDelete
unfoldable pub delete : MsgqHndl → ℤ × MsgqHndl
delete q = (sok, q)

-- OSA_msgqAllocMsgHndl; `fresh` is what OSA_memAlloc returns.
unfoldable pub alloc_msg_hndl : Ptr → (to from cmd prm msg_flags : ℕ) → World → Ptr × World
alloc_msg_hndl fresh to from cmd prm msg_flags w =
    if fresh == null
    then (null, w)
    else let msg : MsgHndl = record {
      p_to = to;
      p_from = from;
      p_prm = prm;
      status = sok;
      cmd = u16 cmd;
      flags = u16 msg_flags;
    } in
      (fresh, record w { msgs = at_set w.msgs fresh (some msg) })

-- OSA_msgqSend
unfoldable pub send : Ptr → Ptr → ℕ → List (World → World) → World → Outcome (Unit {0}) World
send hndl msg timeout wakes w =
    await (attempt_at (queue_at hndl) (attempt_put msg)) tt timeout wakes w

-- OSA_msgqSendMsg; the value is what it stores in `*msg`, which is not NULL.
unfoldable pub send_msg :
    Ptr
    → (to from cmd prm msg_flags : ℕ) → List (World → World)
    → World
    → Outcome (Option Ptr) World
unfolding alloc_msg_hndl
send_msg fresh to from cmd prm msg_flags wakes w =
    let (p, w') = alloc_msg_hndl fresh to from cmd prm msg_flags w in
    if p == null
    then returned efail none w' wakes
    else after (send to p timeout_forever wakes w')
        λ s u v rest. returned s (if eq_ℤ s sok then some p else none) v rest

-- OSA_msgqRecvMsg
unfoldable pub recv_msg : Ptr → Bool → ℕ → List (World → World) → World → Outcome (Option Ptr) World
recv_msg hndl wanted timeout wakes w =
    await (attempt_at (queue_at hndl) (attempt_get wanted)) none timeout wakes w

-- OSA_msgqSendAck, at a message that may not be there
unfoldable pub ack_at :
    Ptr → Option MsgHndl → ℤ → List (World → World) → World → Outcome (Unit {0}) World
ack_at msg none ack_ret_val wakes w = stopped fault w
ack_at msg (some n) ack_ret_val wakes w =
    let w' : World = record w {
      msgs = at_set w.msgs msg (some (record n { status = ack_ret_val }));
    } in
    if n.p_from == null then stopped fault w' else send n.p_from msg timeout_forever wakes w'

unfoldable pub send_ack : Ptr → ℤ → List (World → World) → World → Outcome (Unit {0}) World
unfolding ack_at
send_ack msg ack_ret_val wakes w = ack_at msg (w.msgs msg) ack_ret_val wakes w

-- OSA_msgqFreeMsgHndl, with `free` a fault at memory that is not held
unfoldable pub release :
    Ptr → Option MsgHndl → List (World → World) → World → Outcome (Unit {0}) World
release msg none wakes w = stopped fault w
release msg (some n) wakes w = returned sok tt (record w { msgs = at_set w.msgs msg none }) wakes

unfoldable pub free_msg_hndl : Ptr → List (World → World) → World → Outcome (Unit {0}) World
unfolding release
free_msg_hndl msg wakes w = release msg (w.msgs msg) wakes w
