-- ===== src/Examples/Clients.antt =====
-- The clients of the small world.
use bdremote_ng.Prelude.{◌<◌, ◌+◌, ◌*◌, ◌/◌, ◌%◌, ◌↔◌, ◌≡◌, refl, arith, pos, [], ◌∷◌, length, ok}
use bdremote_ng.Text.{CString, codes}
use bdremote_ng.Sys.{Trace}
use bdremote_ng.Sys.Descriptors.{IsBalanced}
use bdremote_ng.Lirc.{LircData}
use bdremote_ng.Lirc.Socket.{write_socket}
use bdremote_ng.Lirc.Socket.Whole.{Wrote, write_socket-Wrote}
use bdremote_ng.Lirc.Clients.{clients, add_client}
use bdremote_ng.Lirc.Clients.Bounds.{IsTable, Admitted, add_client_lem}
use bdremote_ng.Lirc.Broadcast.{message, broadcast_loop, broadcast_to_lirc}
use bdremote_ng.Lirc.Broadcast.Clients.{Passed, broadcast_loop-send_each}
use bdremote_ng.Lirc.Broadcast.Fates.{Broadcast, broadcast_to_lirc-Broadcast}
use bdremote_ng.Lirc.Broadcast.Line.{read_line, read_line-message}
use bdremote_ng.Lirc.Broadcast.Message.{length-message}
use bdremote_ng.Lirc.Server.{connects, lirc_drops, lirc_server}
use bdremote_ng.Lirc.Server.Descriptors.{lirc_server-closes}
use bdremote_ng.Lirc.Server.Shutdown.{Ended, lirc_server-Ended}
use bdremote_ng.Examples.{world, world-WritesAtMost, lirc, lirc-IsTable, lirc-Distinct}

abbrev name : CString
name = codes "play"

line_length : length (message 0x32 0 name) ≡ 26
line_length = length-message 0x32 name (omega arith)

broadcast_to_lirc-Broadcast_example :
    (d' : LircData) × (t' : Trace) × (broadcast_to_lirc world lirc name 0 0x32 [] ≡ ok (d', t'))
    × Broadcast (message 0x32 0 name) lirc [] d' t'
broadcast_to_lirc-Broadcast_example =
    broadcast_to_lirc-Broadcast world lirc name 0 0x32 [] world-WritesAtMost lirc-IsTable
      lirc-Distinct refl (omega arith) (omega (arith, line_length))

broadcast_loop-send_each_example :
    Passed
      (b'o' ∷ b'k' ∷ [])
      world
      []
      (clients lirc)
      lirc
      []
      (broadcast_loop world (b'o' ∷ b'k' ∷ []) 2 0 lirc [])
broadcast_loop-send_each_example =
    broadcast_loop-send_each world (b'o' ∷ b'k' ∷ []) lirc [] world-WritesAtMost lirc-IsTable
      lirc-Distinct

add_client_lem_example :
    IsTable (add_client world lirc []).0
    × Admitted lirc (pos 7) (clients (add_client world lirc []).0)
add_client_lem_example = add_client_lem world lirc [] lirc-IsTable

write_socket-Wrote_example :
    Wrote
      (pos 4)
      (length (message 0x32 0 name))
      (message 0x32 0 name)
      []
      (write_socket world (pos 4) (message 0x32 0 name) [])
write_socket-Wrote_example =
    write_socket-Wrote world (pos 4) (message 0x32 0 name) [] world-WritesAtMost

lirc_server-Ended_example :
    Ended (lirc_server world (connects ∷ lirc_drops (pos 7) ∷ []) (record lirc { clin = 0 }) [])
lirc_server-Ended_example =
    lirc_server-Ended world (connects ∷ lirc_drops (pos 7) ∷ []) (record lirc { clin = 0 }) []
      (record { slots = refl; used = omega arith }) refl

lirc_server-closes_example :
    IsBalanced
      (pos 7)
      []
      []
      []
      (lirc_server world
        (connects ∷ lirc_drops (pos 7) ∷ connects ∷ [])
        (record lirc { clin = 0 })
        []).2
lirc_server-closes_example =
    lirc_server-closes world (connects ∷ lirc_drops (pos 7) ∷ connects ∷ [])
      (record lirc { clin = 0 }) [] 7 (record { slots = refl; used = omega arith }) refl

read_line-message_example :
    (read_line (message 0x32 12 name) ≡ record {
      code = 0x32;
      rep = 12 / 10 * 16 + 12 % 10;
      button = name;
      remote = codes "SonyBDRemote";
    })
    × ((12 / 10 * 16 + 12 % 10 ≡ 12) ↔ (12 < 10))
read_line-message_example =
    read_line-message 0x32 12 name (omega arith, (omega arith, (omega arith, (omega arith, tt))))
      (omega arith)
