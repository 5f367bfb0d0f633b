-- ===== src/Monitor/Notify.antt =====
-- src/monitor/bfdmonServer.c: `bfdMonitorNotify`, the text of a notification and its sending.
use Prim.Native.String.{◌++◌, count}
use free_bfd.Base.{ℕ, Option, String, List, []}
use free_bfd.Session.{State, BfdSession}
use free_bfd.Texts.{dec, snprintf, codes}
use free_bfd.Streams.{Answer, Sending, send_loop}
use free_bfd.Utils.{state_to_str}
use free_bfd.Monitor.{Monitor}

-- `NotifyJsonFmt` with its values, without the line feed at its end.
abbrev pub notify_body : String → String → ℕ → ℕ → String → String
notify_body peer local peer_port local_port state =
    "{ \"MsgType\":\"Notify\", \"SessionID\": { \"PeerAddr\":\""
    ++ (peer
        ++ ("\", \"LocalAddr\":\""
            ++ (local
                ++ ("\", \"PeerPort\":"
                    ++ (dec peer_port
                        ++ (", \"LocalPort\":"
                            ++ (dec local_port ++ (" }, \"State\":\"" ++ (state ++ "\" }")))))))))

abbrev pub notify_of : BfdSession → State → String
notify_of sn state =
    notify_body sn.peer_addr_str sn.local_addr_str sn.peer_port sn.local_port (state_to_str state)

-- The whole text.
unfoldable pub notify_text : BfdSession → State → String
notify_text sn state = notify_of sn state ++ "\n"

-- `bfdMonitorNotify`, for what `send` answers. The buffer has 512 bytes, and `len` is the length of
-- the text before it is cut. The loop ends at the first failure.
unfoldable pub monitor_notify : Monitor → State → List Answer → Option Sending
monitor_notify mon state answers =
    let text = notify_text mon.sn state in
    send_loop (codes (snprintf 512 text)) 0 (count text) [] answers
