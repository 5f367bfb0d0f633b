-- ===== src/Utils/Strings.antt =====
-- src/core/bfdUtils.c: `bfdSessionSetStrings`.
use Prim.Native.String.{◌++◌}
use free_bfd.Base.{ℕ, String}
use free_bfd.Session.{BfdSession}
use free_bfd.Texts.{dec, snprintf}

-- `BFD_ADDR_STR_SZ` and `BFD_SN_ID_STR_SZ`
abbrev pub addr_str_sz : ℕ
addr_str_sz = 20

abbrev pub sn_id_str_sz : ℕ
sn_id_str_sz = 60

-- The format of `SnIdStr`.
abbrev pub sn_id : String → ℕ → String → ℕ → String
sn_id peer peer_port local local_port =
    "peer="
    ++ (peer ++ (":" ++ (dec peer_port ++ (" local=" ++ (local ++ (":" ++ dec local_port))))))

-- `bfdSessionSetStrings`, for what `inet_ntoa` gives.
unfoldable pub session_set_strings : (ℕ → String) → BfdSession → BfdSession
session_set_strings inet_ntoa bfd =
    let peer = snprintf addr_str_sz (inet_ntoa bfd.peer_addr) in
    let local = snprintf addr_str_sz (inet_ntoa bfd.local_addr) in
    record bfd {
      peer_addr_str = peer;
      local_addr_str = local;
      sn_id_str = snprintf sn_id_str_sz (sn_id peer bfd.peer_port local bfd.local_port);
    }
