-- ===== src/Proto.antt =====
-- internal/proto/proto.go: the signaling envelope. Texts are bytes; JSON is not modelled, so a
-- frame is the message that it decodes to.
use network_computer.Prelude.{List, [], if◌then◌else◌}
use network_computer.Prelude.Bytes.{Bytes, bytes_eq, codes}

pub record Message : Type 0 where
  pub type : Bytes
  pub name : Bytes
  pub to : Bytes
  pub from : Bytes
  pub sdp : Bytes
  pub pin : Bytes
  pub pair : Bytes
  pub candidate : Bytes
  pub hosts : List Bytes
  pub error : Bytes

abbrev pub no_message : Message
no_message = record {
  type = [];
  name = [];
  to = [];
  from = [];
  sdp = [];
  pin = [];
  pair = [];
  candidate = [];
  hosts = [];
  error = [];
}

-- The types that the rendezvous switches on.
pub data Kind : Type 0 where
  register hosts offer answer ice error unknown : Kind

unfoldable pub kind_of : Bytes → Kind
kind_of t =
    if bytes_eq t (codes "register")
    then register
    else if bytes_eq t (codes "hosts")
    then hosts
    else if bytes_eq t (codes "offer")
    then offer
    else if bytes_eq t (codes "answer")
    then answer
    else if bytes_eq t (codes "ice")
    then ice
    else if bytes_eq t (codes "error")
    then error
    else unknown
