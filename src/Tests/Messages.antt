-- ===== src/Tests/Messages.antt =====
-- A session, the messages about it, and what json-c makes of them.
use text.Mathlib.Text.{◌==◌ as str_eq}
use free_bfd.Base.{
  ◌%◌, ◌^◌, ◌∙◌, u32, refl, arith, ap, true, Option, none, some, String, ℤ, pos, if◌then◌else◌,
}
use free_bfd.Session.{State, BfdSession, up}
use free_bfd.Texts.{dec, dec_from, cut}
use free_bfd.Texts.Decimal.{value, value-dec, count-dec}
use free_bfd.Utils.Strings.{session_set_strings}
use free_bfd.Utils.{state_to_str}
use free_bfd.Json.{Json, Inet, same_codes}
use free_bfd.Json.Read.{IsNamed}
use free_bfd.Json.Docs.{
  Doc, str, num, empty, with_member, spell, Means, options, subscription, notification,
}
use free_bfd.Client.Requests.{Reads}

-- Addresses as one decimal number, which `inet_aton` reads too.
abbrev pub inet : Inet
inet = record {
  aton = λ s. some (value s % 2 ^ 32);
  ntoa = dec;
  aton-ntoa = λ a h. ap some (ap u32 (value-dec a h) ∙ omega (arith, h));
  count-ntoa = λ a. omega (arith, count-dec a);
}

-- 10.0.0.1, as the 32 bits of a little-endian machine, asks for 3 packets.
abbrev pub sn : BfdSession
sn = record {
  peer_addr = 16_777_226;
  local_addr = 0;
  peer_port = 3784;
  local_port = 3784;
  peer_addr_str = "16777226";
  local_addr_str = "0";
  sn_id_str = "peer=16777226:3784 local=0:3784";
  demand_mode = true;
  detect_mult = 3;
  auth_type = 0;
  desired_min_tx_interval = 200_000;
  required_min_rx_interval = 300_000;
}

pub sn-IsNamed : IsNamed inet sn
unfolding session_set_strings dec dec_from cut
sn-IsNamed = record {
  peer = omega arith;
  local = omega arith;
  peer_port = omega arith;
  local_port = omega arith;
  mult = omega arith;
  tx = omega arith;
  rx = omega arith;
  no_auth = refl;
  named = refl;
}

abbrev pub member : String → Doc → Option Doc
member key (with_member k v rest) = if str_eq key k then some v else member key rest
member key _ = none

abbrev pub text_of : Doc → String
text_of (str s) = s
text_of _ = ""

abbrev pub number_of : Doc → ℤ
number_of (num n) = pos n
number_of _ = pos 0

-- It reads the two documents, and nothing else.
abbrev pub reader : Doc → Doc → Json Doc
reader asked told = record {
  parse = λ buf.
      if same_codes buf (spell asked)
      then some asked
      else if same_codes buf (spell told)
      then some told
      else none;
  member = member;
  get_string = text_of;
  get_int = number_of;
}

abbrev pub session_doc : Doc
session_doc = with_member "PeerAddr" (str "16777226") (
    with_member "PeerPort" (num 3784)
      (with_member "LocalAddr" (str "0") (with_member "LocalPort" (num 3784) empty)))

abbrev pub request_doc : Doc
request_doc = subscription sn

abbrev pub notify_doc : Doc
notify_doc = notification sn up

abbrev pub json : Json Doc
json = reader request_doc notify_doc

pub request-Means : (asked told : Doc) → Means (reader asked told) request_doc request_doc
request-Means asked told = (
  (str "Subscribe", refl, refl),
  (
    (
      session_doc,
      refl,
      (
        (str "16777226", refl, refl),
        ((num 3784, refl, refl), ((str "0", refl, refl), ((num 3784, refl, refl), tt))),
      ),
    ),
    (
      (
        options sn,
        refl,
        (
          (str "on", refl, refl),
          ((num 3, refl, refl), ((num 200_000, refl, refl), ((num 300_000, refl, refl), tt))),
        ),
      ),
      tt,
    ),
  ),
)

pub notify-Means :
    (asked told : Doc) (state : State)
    → Means (reader asked told) (notification sn state) (notification sn state)
notify-Means asked told state = (
  (str "Notify", refl, refl),
  (
    (
      with_member "PeerAddr" (str "16777226") (
          with_member "LocalAddr" (str "0")
            (with_member "PeerPort" (num 3784) (with_member "LocalPort" (num 3784) empty))),
      refl,
      (
        (str "16777226", refl, refl),
        ((str "0", refl, refl), ((num 3784, refl, refl), ((num 3784, refl, refl), tt))),
      ),
    ),
    ((str (state_to_str state), refl, refl), tt),
  ),
)

pub request-Reads : Reads json request_doc request_doc
unfolding dec dec_from
request-Reads = record { whole = refl; parsed = refl; means = request-Means request_doc notify_doc }

pub notify-Reads : Reads json notify_doc notify_doc
unfolding dec dec_from state_to_str
notify-Reads = record {
  whole = refl;
  parsed = refl;
  means = notify-Means request_doc notify_doc up;
}
