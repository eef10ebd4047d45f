-- ===== src/Communication/Tests.antt =====
-- Messages over a concrete connection.
use osa_base.Base.{
  ℕ, ◌≡◌, refl, ap, inr, true, false, Option, some, List, [], ◌∷◌, ◌++◌, take, ℤ, pos, negsuc,
  arith, replicate,
}
use osa_base.Socket.Loopback.{Wire, loopback, loopback-Prompt}
use osa_base.Communication.{client_disconnect, client_connect, server_star, server_stop}
use osa_base.Communication.Message.{head_for, dealt, send_msg, recv_msg}
use osa_base.Communication.Message.Exchange.{SentPart, wire, send_msg-wire, recv_msg-wire}
use osa_base.Communication.Server.{CliOpreateHanle, ended, process_loop, process_client}
use osa_base.Communication.Server.Dealing.{
  Message, Fits, wires, reads, process_client-meant, process_loop-closed,
}
use osa_base.Socket.{bytes}
use osa_base.Communication.Client.{Client, Around, repeat_connect, in_loop, client_process}
use osa_base.Communication.Client.Steps.{Ends}
use osa_base.Communication.Client.Visit.{Visit, Fails, Works, all_steps}
use osa_base.Communication.Client.Reconnect.{client_process-meant}
use osa_base.Communication.Client.Sockets.{InOrder, between, client_process-InOrder}
use osa_base.Communication.Client.Stays.{client_process-stays}

abbrev silent : Wire
silent = record { out = []; inc = [] }

abbrev words : List ℕ
words = 104 ∷ 105 ∷ 33 ∷ []

abbrev alloc : ℤ → Option (List ℕ)
alloc z = some (replicate 8 0)

send_msg-wire_example :
    (ret : ℤ) × (net' : Wire) × (send_msg
        (loopback 5 true)
        40
        false
        (pos 4)
        (some words)
        (pos 3)
        (pos 7)
        silent
      ≡ some (ret, net'))
    × SentPart (loopback 5 true) [] (wire 2 (pos 7) words) ret net'
send_msg-wire_example =
    send_msg-wire (loopback 5 true) 40 4 2 (pos 7) words silent (omega arith) (omega arith)
      (omega arith)

abbrev loaded : Wire
loaded = record { out = []; inc = wire 2 (pos 7) words ++ 1 ∷ [] }

recv_msg-wire_example :
    (buf : List ℕ) × (net' : Wire) × (recv_msg (loopback 5 true) 40 alloc (pos 4) loaded
      ≡ some (dealt (record { msg_head = head_for (pos 3) (pos 7); recv_value = buf }) net'))
    × (take 3 buf ≡ words)
    × (net'.inc ≡ 1 ∷ [])
recv_msg-wire_example =
    recv_msg-wire (loopback 5 true) 40 4 2 (pos 7) words loaded alloc (replicate 8 0) (1 ∷ [])
      (loopback-Prompt 5 true (omega arith)) (omega arith) (omega arith) (omega arith) refl
      (omega arith) (omega arith) refl

abbrev hello : Message
hello = record { code = pos 7; first = 104; rest = 105 ∷ [] }

abbrev bye : Message
bye = record { code = negsuc 1; first = 98; rest = [] }

abbrev peer : CliOpreateHanle Wire
peer = record {
  socket = pos 4;
  status = client_disconnect;
  net = record { out = []; inc = wires (hello ∷ bye ∷ []) [] };
  closed = [];
  calls = [];
}

hello-Fits : Fits 40 alloc hello
hello-Fits = record {
  code_in = omega arith;
  int = omega arith;
  rounds = omega arith;
  block = replicate 8 0;
  alloc = refl;
  room = omega arith;
}

bye-Fits : Fits 40 alloc bye
bye-Fits = record {
  code_in = omega arith;
  int = omega arith;
  rounds = omega arith;
  block = replicate 8 0;
  alloc = refl;
  room = omega arith;
}

process_client-meant_example :
    (h' : CliOpreateHanle Wire) × (process_client
        (loopback 5 true)
        40
        alloc
        (server_star ∷ server_star ∷ server_stop ∷ [])
        peer
      ≡ some (ended h'))
    × (h'.net.inc ≡ [])
    × (h'.closed ≡ pos 4 ∷ [])
    × (reads h'.calls ≡ (pos 7, 104 ∷ 105 ∷ []) ∷ (negsuc 1, 98 ∷ []) ∷ [])
process_client-meant_example =
    process_client-meant (loopback 5 true) 40 4 alloc (hello ∷ bye ∷ []) [] [] peer
      (loopback-Prompt 5 true (omega arith)) (omega arith) refl (hello-Fits, (bye-Fits, tt)) refl

abbrev gone : CliOpreateHanle Wire
gone = record { socket = pos 4; status = client_connect; net = silent; closed = []; calls = [] }

process_loop-closed_example :
    (h' : CliOpreateHanle Wire) × (process_loop
        (loopback 5 true)
        40
        alloc
        (pos 4)
        (server_star ∷ server_star ∷ [])
        gone
      ≡ some (ended h'))
    × (h'.closed ≡ pos 4 ∷ pos 4 ∷ [])
    × (h'.calls ≡ [])
process_loop-closed_example =
    process_loop-closed (loopback 5 true) 40 4 alloc 39 server_star [] gone refl refl refl

abbrev noise : CliOpreateHanle Wire
noise = record gone { net = record { out = []; inc = replicate 16 7 ++ 1 ∷ [] } }

abbrev failing : Around Wire
failing = record { socket = pos 5; connected = negsuc 0; net = silent; destroyed = false }

abbrev first_visit : Visit Wire
first_visit = record {
  failures = failing ∷ [];
  fd = 6;
  net = record { out = []; inc = wires (hello ∷ []) [] };
  ms = hello ∷ [];
}

abbrev second_visit : Visit Wire
second_visit = record {
  failures = [];
  fd = 7;
  net = record { out = []; inc = wires (bye ∷ hello ∷ []) [] };
  ms = bye ∷ hello ∷ [];
}

abbrev starting : Client Wire
starting = record {
  place = repeat_connect;
  handle = record { client_socket = pos 0; client_status = client_disconnect };
  socket = negsuc 0;
  net = silent;
  made = [];
  closed = [];
  calls = [];
}

loopback-Ends : Ends (loopback 5 true)
unfolding Ends
loopback-Ends net e = ap (λ l. bytes (take 5 l)) e

first_visit-Works : Works (loopback 5 true) 40 alloc 8000 first_visit
unfolding Fails
first_visit-Works = record {
  fail = (inr refl, tt);
  usable = omega arith;
  fits = (hello-Fits, tt);
  brings = refl;
}

second_visit-Works : Works (loopback 5 true) 40 alloc 8000 second_visit
second_visit-Works = record {
  fail = tt;
  usable = omega arith;
  fits = (bye-Fits, (hello-Fits, tt));
  brings = refl;
}

client_process-meant_example :
    (c' : Client Wire) × (client_process
        (loopback 5 true)
        40
        alloc
        (pos 1)
        (pos 8001)
        (all_steps (first_visit ∷ second_visit ∷ []))
        starting
      ≡ some c')
    × (c'.place ≡ repeat_connect)
    × (reads c'.calls
        ≡ (pos 7, 104 ∷ 105 ∷ []) ∷ (negsuc 1, 98 ∷ []) ∷ (pos 7, 104 ∷ 105 ∷ []) ∷ [])
client_process-meant_example =
    client_process-meant (loopback 5 true) 40 alloc 8000 (first_visit ∷ second_visit ∷ []) 39
      starting (loopback-Prompt 5 true (omega arith)) loopback-Ends refl
      (first_visit-Works, (second_visit-Works, tt)) refl

client_process-InOrder_example :
    (c' : Client Wire) × (client_process
        (loopback 5 true)
        2147483651
        alloc
        (pos 1)
        (pos 8001)
        (all_steps (first_visit ∷ []))
        starting
      ≡ some c')
    × InOrder c'
client_process-InOrder_example =
    client_process-InOrder (loopback 5 true) 2147483651 alloc (pos 8001)
      (all_steps (first_visit ∷ [])) starting (omega arith) (refl, (refl, (refl, (refl, tt))))
      (between refl refl)

abbrev stranded : Client Wire
stranded = record starting {
  place = in_loop;
  handle = record { client_socket = pos 5; client_status = client_connect };
  socket = pos 5;
  made = pos 5 ∷ [];
}

client_process-stays_example :
    (net : Wire) × (client_process
        (loopback 5 true)
        40
        alloc
        (pos 0)
        (pos 8001)
        (replicate 100 failing)
        stranded
      ≡ some (record stranded { net = net }))
    × (net.inc ≡ [])
client_process-stays_example =
    client_process-stays (loopback 5 true) 40 alloc (pos 0) (pos 8001) 100 failing stranded 39 5
      refl refl loopback-Ends refl refl refl refl refl
