-- ===== src/Socket/Loopback.antt =====
-- A connection for the tests: the system takes or gives at most `chunk` bytes at a time, there is
-- room for bytes if `open_to` says so, and a read on an empty stream finds its end.
use osa_base.Base.{
  ℕ, zero, suc, ◌≤◌, ◌<◌, ◌≡◌, refl, ap, Bool, true, false, ◌&&◌, List, [], ◌∷◌, ◌++◌,
  if◌then◌else◌, length, take, drop, take-drop, min, ℤ, pos, ltb_ℤ, arith,
}
use osa_base.Socket.{Sock, Selected, Recv, bytes, bytes_of, taken_by}
use osa_base.Socket.Receive.{Prompt}
use osa_base.Socket.Open.{Open}

pub record Wire : Type 0 where
  pub out : List ℕ
  pub inc : List ℕ

take_le : (k : ℕ) (xs : List ℕ) → length (take k xs) ≤ k
take_le zero xs = omega arith
take_le (suc k) [] = omega arith
take_le (suc k) (x ∷ xs) = omega (arith, take_le k xs)

module _ (chunk : ℕ) (open_to : Bool) where
  abbrev pub loop_select : Bool → Wire → Selected Wire
  loop_select w net =
      if open_to && w
      then record { ret = pos 1; is_set = true; net = net }
      else record { ret = pos 0; is_set = false; net = net }

  abbrev pub loop_send : List ℕ → Wire → ℤ × Wire
  loop_send bs net =
      (pos (min chunk (length bs)), record net { out = net.out ++ take (min chunk (length bs)) bs })

  abbrev pub loop_recv : ℕ → Wire → Recv × Wire
  loop_recv n net =
      (bytes (take (min chunk n) net.inc), record net { inc = drop (min chunk n) net.inc })

  pub select_out : (w : Bool) (net : Wire) → (loop_select w net).net.out ≡ net.out
  select_out true net = ground arith
  select_out false net = ground arith

  pub select_off : (net : Wire) → (loop_select false net).is_set ≡ false
  select_off net = ground arith

  pub select_off_ret : (net : Wire) → ltb_ℤ (pos 0) ((loop_select false net).ret) ≡ false
  select_off_ret net = ground arith

  pub select_late :
      (w : Bool) (net : Wire) → (loop_select w net).ret ≡ pos 0 → (loop_select w net).is_set ≡ false
  select_late w net h = ground arith

  pub send_min : (bs : List ℕ) (net : Wire) → taken_by ((loop_send bs net).0) ≤ length bs
  send_min bs net = omega arith

  pub recv_min : (n : ℕ) (net : Wire) → length (bytes_of ((loop_recv n net).0)) ≤ n
  recv_min n net = omega (arith, take_le (min chunk n) net.inc)

  abbrev pub loopback : Sock Wire
  loopback = record {
    select = loop_select;
    send = loop_send;
    recv = loop_recv;
    sent = λ net. net.out;
    incoming = λ net. net.inc;
    select_sent = select_out;
    select_unset = select_off;
    select_idle = select_off_ret;
    select_expired = select_late;
    send_le = send_min;
    send_sent = λ bs net. refl;
    recv_le = recv_min;
    recv_incoming = λ n net. take-drop (min chunk n) net.inc;
  }

  prompt_take : (k : ℕ) (xs : List ℕ) → 0 < k → 0 < length xs → 0 < length (take k xs)
  prompt_take zero xs h g = absurd (omega arith)
  prompt_take (suc k) [] h g = absurd (omega arith)
  prompt_take (suc k) (x ∷ xs) h g = omega arith

  pub loopback-Prompt : 0 < chunk → Prompt loopback
  unfolding Prompt
  loopback-Prompt h n net some_n some_in = prompt_take (min chunk n) net.inc (omega arith) some_in

open_takes :
    (chunk : ℕ) (bs : List ℕ)
    → 0 < length bs
    → (k : ℕ) × (◌≡◌ {A = ℤ} (pos (min (suc chunk) (length bs))) (pos (suc k)))
open_takes chunk [] h = absurd (omega arith)
open_takes chunk (b ∷ bs) h = (min chunk (length bs), ap pos (omega arith))

pub loopback-Open : (chunk : ℕ) → Open (loopback (suc chunk) true)
loopback-Open chunk = record {
  selects = λ net. (refl, refl);
  takes = λ bs net h. open_takes chunk bs h;
}
