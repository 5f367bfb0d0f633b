-- ===== src/Json/Docs.antt =====
-- JSON documents, how they are spelled, and what it means that json-c reads one.
use Prim.Native.Char.{code as char_code}
use Prim.Native.String.{◌++◌ as append}
use text.Mathlib.TextLemmas.{cons-append, nil-append}
use free_bfd.Base.{
  ℕ, ◌≡◌, ◌∙◌, ap, Bool, true, false, some, String, List, [], ◌∷◌, ◌++◌, pos, if◌then◌else◌,
}
use free_bfd.Session.{State, BfdSession}
use free_bfd.Texts.{dec, codes}
use free_bfd.Utils.{state_to_str}
use free_bfd.Json.{Json}
use free_bfd.Json.Read.{HasSession, HasOptions}

-- An object is a member and the rest of it.
pub data Doc : Type 0 where
  str : String → Doc
  num : ℕ → Doc
  empty : Doc
  with_member : String → Doc → Doc → Doc

-- An object stands behind a space.
abbrev pub gap : Doc → List ℕ
gap (str s) = []
gap (num n) = []
gap empty = 32 ∷ []
gap (with_member k d rest) = 32 ∷ []

-- The characters of a document, or, if it does not `start`, of the rest of an object.
abbrev pub spell_from : Bool → Doc → List ℕ
spell_from start (str s) = b'"' ∷ (codes s ++ (b'"' ∷ []))
spell_from start (num n) = codes (dec n)
spell_from start empty = if start then codes "{ }" else codes " }"
spell_from start (with_member key d rest) =
    let value = spell_from true d in
    let others = spell_from false rest in
    (if start then codes "{ " else codes ", ")
    ++ (b'"' ∷ (codes key ++ (b'"' ∷ b':' ∷ (gap d ++ (value ++ others)))))

abbrev pub spell : Doc → List ℕ
spell d = spell_from true d

-- What json-c gives for a document: a text, a number, or an object with each of its members.
module _ {J : Type 0} (json : Json J) where
  abbrev pub Means : J → Doc → Type 0
  Means j (str s) = json.get_string j ≡ s
  Means j (num n) = json.get_int j ≡ pos n
  Means j empty = Unit
  Means j (with_member key d rest) =
      ((v : J) × (json.member key j ≡ some v) × Means v d) × Means j rest

-- The documents that the program exchanges.
abbrev pub on_off : Bool → String
on_off mode = if mode then "on" else "off"

abbrev pub options : BfdSession → Doc
options sn = with_member "DemandMode" (str (on_off sn.demand_mode)) (
    with_member "DetectMult" (num sn.detect_mult) (
      with_member "DesiredMinTxInterval" (num sn.desired_min_tx_interval)
        (with_member "RequiredMinRxInterval" (num sn.required_min_rx_interval) empty)))

abbrev pub subscription : BfdSession → Doc
subscription sn = with_member "MsgType" (str "Subscribe") (
    with_member "SessionID"
      (with_member "PeerAddr" (str sn.peer_addr_str) (
        with_member "PeerPort" (num sn.peer_port) (
          with_member "LocalAddr" (str sn.local_addr_str)
            (with_member "LocalPort" (num sn.local_port) empty))))
      (with_member "SessionOpts" (options sn) empty))

abbrev pub notification : BfdSession → State → Doc
notification sn state = with_member "MsgType" (str "Notify") (
    with_member "SessionID"
      (with_member "PeerAddr" (str sn.peer_addr_str) (
        with_member "LocalAddr" (str sn.local_addr_str) (
          with_member "PeerPort" (num sn.peer_port)
            (with_member "LocalPort" (num sn.local_port) empty))))
      (with_member "State" (str (state_to_str state)) empty))

pub codes-append : (s t : String) → codes (append s t) ≡ codes s ++ codes t
codes-append String.[] t = ap codes (nil-append t)
codes-append (String.◌∷◌ c s) t =
    ap codes (cons-append c s t) ∙ ap (λ cs. ◌∷◌ (char_code c) cs) (codes-append s t)

module _ {J : Type 0} (json : Json J) (sn : BfdSession) (j : J) where
  pub notification-HasSession :
      (state : State) → Means json j (notification sn state) → HasSession json j sn
  notification-HasSession state
        (typed, ((sid, there, (peer, (local, (peer_port, (local_port, end))))), rest)) =
      record {
        sid = sid;
        there = there;
        peer = peer;
        local = local;
        peer_port = peer_port;
        local_port = local_port;
      }

  pub subscription-HasSession : Means json j (subscription sn) → HasSession json j sn
  subscription-HasSession
        (typed, ((sid, there, (peer, (peer_port, (local, (local_port, end))))), rest)) =
      record {
        sid = sid;
        there = there;
        peer = peer;
        local = local;
        peer_port = peer_port;
        local_port = local_port;
      }

  pub subscription-HasOptions : Means json j (subscription sn) → HasOptions json j sn
  subscription-HasOptions
        (typed, (session, ((opts, there, (mode, (mult, (tx, (rx, end))))), rest))) =
      record { opts = opts; there = there; mode = mode; mult = mult; tx = tx; rx = rx }
