-- ===== src/Communication/Client/Tests.antt =====
-- A client that is destroyed while it connects to a concrete server, and its heartbeat.
use osa_base.Base.{
  ℕ, ◌≡◌, refl, true, false, Option, none, some, List, [], ◌∷◌, replicate, arith, ℤ, pos, negsuc,
}
use osa_base.Socket.Loopback.{Wire, loopback}
use osa_base.Communication.{client_disconnect}
use osa_base.Communication.Life.{client_destory}
use osa_base.Communication.Client.{Client, Around, repeat_connect}
use osa_base.Communication.Client.Destroyed.{observed, destroy_lost}

abbrev quiet : Wire
quiet = record { out = []; inc = [] }

abbrev connects : Around Wire
connects = record { socket = pos 5; connected = pos 0; net = quiet; destroyed = false }

abbrev destroyed_early : Client Wire
destroyed_early = record {
  place = repeat_connect;
  handle = record { client_socket = pos 0; client_status = client_disconnect };
  socket = negsuc 0;
  net = quiet;
  made = [];
  closed = [];
  calls = [];
}

abbrev blocks : ℤ → Option (List ℕ)
blocks z = some (replicate 8 0)

destroy_lost_example :
    client_destory false (
      observed
        (loopback 5 true)
        2147483651
        blocks
        (pos 1)
        (pos 8000)
        (connects ∷ connects ∷ [])
        destroyed_early)
    ≡ none
destroy_lost_example =
    destroy_lost (loopback 5 true) 2147483651 blocks (pos 1) (pos 8000) (connects ∷ connects ∷ [])
      destroyed_early (omega arith) (refl, (refl, tt)) refl refl
