-- ===== src/Mbx/Tests.antt =====
-- An exchange between two mailboxes, with a parameter that is freed.
use osa_base.Base.{
  ◌≡◌, refl, true, false, none, some, [], ◌∷◌, replicate, set, if◌then◌else◌, ◌==◌, efail, arith,
  pos,
}
use osa_base.Memory.{Ptr}
use osa_base.Monitor.{returned}
use osa_base.Ring.{Ring}
use osa_base.Ring.Invariant.{IsValid}
use osa_base.Msgq.{World, MsgHndl}
use osa_base.Mbx.{MbxHndl, send_msg}
use osa_base.Mbx.Flush.{flush}
use osa_base.Mbx.Flush.Emptied.{Freeable, among, flush_lem}
use osa_base.Mbx.Exchange.{Empty, serve, rendezvous}

abbrev vacant : Ring Ptr
vacant = record { cur_rd = 31; cur_wr = 31; len = 32; count = 0; queue = replicate 32 0 }

abbrev idle : World
idle = record { queues = λ p. vacant; msgs = λ p. none; prms = λ p. true }

abbrev server : MbxHndl
server = record { rcv_mbx = 10; ack_mbx = 11 }

abbrev client : MbxHndl
client = record { rcv_mbx = 20; ack_mbx = 21 }

vacant-Empty : Empty vacant
vacant-Empty = record {
  valid = record {
    cells = refl;
    some_cells = omega arith;
    small = omega arith;
    rd_in = omega arith;
    wr_at = refl;
    count_in = omega arith;
  };
  nothing = refl;
}

rendezvous_example :
    (w' : World) × (send_msg 500 server (some client) 3 700 6 (serve server (pos 9) ∷ []) idle
      ≡ returned (pos 9) tt w' [])
    × Empty (w'.queues 10)
    × Empty (w'.queues 21)
    × (w'.msgs 500 ≡ none)
    × (w'.prms 700 ≡ false)
rendezvous_example =
    rendezvous 500 11 20 3 700 6 10 21 (pos 9) idle vacant-Empty vacant-Empty (omega arith)
      (omega arith) (omega arith) (omega arith) refl refl

abbrev holding : Ptr → Ring Ptr
holding p = record {
  cur_rd = 31;
  cur_wr = 0;
  len = 32;
  count = 1;
  queue = set (replicate 32 0) 31 p;
}

holding-IsValid : (p : Ptr) → IsValid (holding p)
holding-IsValid p = record {
  cells = refl;
  some_cells = omega arith;
  small = omega arith;
  rd_in = omega arith;
  wr_at = refl;
  count_in = omega arith;
}

abbrev plain : MsgHndl
plain = record { p_to = 10; p_from = 21; p_prm = 0; status = pos 0; cmd = 3; flags = 0 }

abbrev loaded : World
loaded = record {
  queues = λ p. if p == 10 then holding 500 else holding 501;
  msgs = λ p. some plain;
  prms = λ p. true;
}

loaded-Freeable : Freeable loaded.msgs (500 ∷ 501 ∷ [])
unfolding Freeable
loaded-Freeable = (
  omega arith,
  (plain, refl, refl, refl),
  (omega arith, tt),
  (omega arith, (plain, refl, refl, refl), tt, tt),
)

flush_lem_example :
    (w' : World) × (flush 2 server [] loaded ≡ returned efail tt w' [])
    × Empty (w'.queues 10)
    × Empty (w'.queues 11)
    × ((q : Ptr)
        → w'.msgs q
          ≡ (if among q (501 ∷ []) then none else if among q (500 ∷ []) then none else some plain))
flush_lem_example =
    flush_lem 2 server (500 ∷ []) (501 ∷ []) [] loaded (omega arith) (holding-IsValid 500) refl
      (holding-IsValid 501) refl loaded-Freeable (omega arith) (omega arith)
