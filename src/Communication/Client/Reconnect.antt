-- ===== src/Communication/Client/Reconnect.antt =====
-- A client that connects again, and what it makes of the bytes that the servers send.
use osa_base.Base.{
  ℕ, suc, ◌≡◌, refl, sym, ap, ◌∙◌, Option, some, List, [], ◌∷◌, ◌++◌, append_assoc, append-nil,
  length, replicate, All, ℤ, pos,
}
use osa_base.Socket.{Sock}
use osa_base.Socket.Receive.{Prompt}
use osa_base.Communication.Server.Dealing.{Message, Fits, text, wires, reads, meant}
use osa_base.Communication.Client.Steps.{Ends, process_cons}
use osa_base.Communication.Client.{repeat_connect, Client, Around, client_process}
use osa_base.Communication.Client.Visit.{
  Visit, reached, steps_of, all_steps, all_meant, Works, run, On, skip_failures, one_reaches,
  one_deals, one_loses,
}

module _ {Net : Type 0} (sock : Sock Net) (fuel : ℕ) (mem_alloc : ℤ → Option (List ℕ))
    (server_port : ℕ) where
  abbrev runs : List (Around Net) → Client Net → Option (Client Net)
  runs = run sock fuel mem_alloc server_port

  through_messages :
      (v : Visit Net) (ms : List Message) (rest : List (Around Net)) (k : ℕ) (c : Client Net)
      → Prompt sock
      → Ends sock
      → fuel ≡ suc k
      → All (Fits fuel mem_alloc) ms
      → On sock fuel mem_alloc server_port v (wires ms []) c
      → (c' : Client Net) × (runs (replicate (suc (length ms)) (reached v) ++ rest) c
          ≡ runs rest c')
        × (c'.place ≡ repeat_connect)
        × (reads c'.calls ≡ reads c.calls ++ meant ms)
  unfolding Ends
  through_messages v [] rest k c prompt ends f fits on =
      let (c', e, p, q) =
        one_loses sock fuel mem_alloc server_port v k c f (ends c.net on.coming) on in
      (
        c',
        process_cons sock fuel mem_alloc (pos 1) (pos (suc server_port)) (reached v) rest c e,
        p,
        ap reads q ∙ sym (append-nil (reads c.calls)),
      )
  through_messages v (m ∷ ms) rest k c prompt ends f (fm, fms) on =
      let (c₁, e₁, on₁, r₁) =
        one_deals sock fuel mem_alloc server_port v m (wires ms []) c prompt fm on in
      let (c₂, e₂, p₂, r₂) = through_messages v ms rest k c₁ prompt ends f fms on₁ in
      (
        c₂,
        process_cons sock fuel mem_alloc (pos 1) (pos (suc server_port)) (reached v)
              (replicate (suc (length ms)) (reached v) ++ rest) c e₁
            ∙ e₂,
        p₂,
        r₂
            ∙ ap (λ l. l ++ meant ms) r₁
            ∙ append_assoc (reads c.calls) ((m.code, text m) ∷ []) (meant ms),
      )

  -- one visit
  one_visit :
      (v : Visit Net) (rest : List (Around Net)) (k : ℕ) (c : Client Net)
      → Prompt sock
      → Ends sock
      → fuel ≡ suc k
      → Works sock fuel mem_alloc server_port v
      → c.place ≡ repeat_connect
      → (c' : Client Net) × (runs (steps_of v ++ rest) c ≡ runs rest c')
        × (c'.place ≡ repeat_connect)
        × (reads c'.calls ≡ reads c.calls ++ meant v.ms)
  one_visit v rest k c prompt ends f w p =
      let steps = replicate (suc (length v.ms)) (reached v) in
      let (c₁, e₁, (p₁, q₁)) =
        skip_failures sock fuel mem_alloc server_port v.failures (reached v ∷ steps ++ rest) c
          w.fail p in
      let (c₂, e₂, on₂, q₂) = one_reaches sock fuel mem_alloc server_port v c₁ w p₁ in
      let (c₃, e₃, p₃, r₃) = through_messages v v.ms rest k c₂ prompt ends f w.fits on₂ in
      (
        c₃,
        ap (λ l. runs l c) (append_assoc v.failures (reached v ∷ steps) rest)
            ∙ e₁
            ∙ process_cons sock fuel mem_alloc (pos 1) (pos (suc server_port)) (reached v)
                (steps ++ rest) c₁ e₂
            ∙ e₃,
        p₃,
        r₃ ∙ ap (λ l. reads l ++ meant v.ms) (q₂ ∙ q₁),
      )

  -- With `recon_flag` 1 a client that loses its connection connects again, through any tries that
  -- fail, and its callback is given the messages of every connection that it had, in order, and
  -- nothing else, provided that the messages fit, that the connections give what they have, and that
  -- they end behind it.
  pub client_process-meant :
      (vs : List (Visit Net)) (k : ℕ) (c : Client Net)
      → Prompt sock
      → Ends sock
      → fuel ≡ suc k
      → All (Works sock fuel mem_alloc server_port) vs
      → c.place ≡ repeat_connect
      → (c' : Client Net) × (client_process sock fuel mem_alloc
            (pos 1)
            (pos (suc server_port))
            (all_steps vs)
            c
          ≡ some c')
        × (c'.place ≡ repeat_connect)
        × (reads c'.calls ≡ reads c.calls ++ all_meant vs)
  client_process-meant [] k c prompt ends f w p =
      (c, unfold client_process in refl, p, sym (append-nil (reads c.calls)))
  client_process-meant (v ∷ vs) k c prompt ends f (w, ws) p =
      let (c₁, e₁, p₁, r₁) = one_visit v (all_steps vs) k c prompt ends f w p in
      let (c₂, e₂, p₂, r₂) = client_process-meant vs k c₁ prompt ends f ws p₁ in
      (
        c₂,
        e₁ ∙ e₂,
        p₂,
        r₂
            ∙ ap (λ l. l ++ all_meant vs) r₁
            ∙ append_assoc (reads c.calls) (meant v.ms) (all_meant vs),
      )
