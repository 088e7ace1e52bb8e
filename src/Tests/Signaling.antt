-- ===== src/Tests/Signaling.antt =====
-- The hub of the signaling server, at concrete clients.
use network_computer.Prelude.{ℕ, ◌≡◌, ◌≢◌, refl, ap, length, Bool, true, some, arith, inl}
use network_computer.Prelude.Assoc.{lookup, insert}
use network_computer.Prelude.Bytes.{bytes_key, bytes_eq, codes}
use network_computer.Prelude.Decimal.{format_int}
use network_computer.Proto.{Message, no_message}
use network_computer.Rendezvous.Hub.{
  Hub, new_hub, client_id, name_of, add, remove, register_host, lookup_peer, step, connect, frame,
  disconnect,
}
use network_computer.Rendezvous.Hub.Names.{second_name_stays, id_hijacked}
use network_computer.Rendezvous.Hub.Registry.{Reach, start, event, gone_unreachable}

abbrev up : ℕ → Bool
up _ = true

abbrev registers : Message
registers = record no_message { type = codes "register"; name = codes "desk" }

abbrev connected : Hub
connected = step up new_hub connect

abbrev registered : Hub
registered = step up connected (frame 1 (some registers))

registered-Reach : Reach up registered
unfolding step add lookup client_id format_int insert bytes_eq name_of
registered-Reach = event (event start connect tt) (frame 1 (some registers)) (refl, inl refl)

gone_unreachable_example : lookup_peer (step up registered (disconnect 1)) (codes "desk") ≢ some 1
gone_unreachable_example = gone_unreachable up 1 (codes "desk") registered-Reach

abbrev call : Message
call = record no_message { type = codes "offer"; to = codes "desk"; from = codes "c9" }

second_name_stays_example :
    lookup_peer
      (remove (register_host (register_host connected 1 (codes "a")) 1 (codes "bb")) 1)
      (codes "a")
    ≡ some 1
second_name_stays_example =
    second_name_stays connected 1 (codes "a") (codes "bb")
      (λ e. absurd (omega (arith, ap length e)))

id_hijacked_example : lookup_peer (register_host registered 2 (client_id 1)) (client_id 1) ≡ some 2
id_hijacked_example = id_hijacked registered 1 2
