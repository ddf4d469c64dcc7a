-- ===== src/Net/Tests.antt =====
-- Runs of the wire helpers and the fragmenter, and the theorems about them at concrete inputs.
use nova_visualiser.Prelude.{◌≡◌, refl, true, some, ◌++◌, ◌+◌, ◌/◌, ◌*◌, codes, arith, length}
use nova_visualiser.Net.Base64.{base64, sextet, decode, decode-base64, length-base64}
use nova_visualiser.Net.Envelope.{EncodedFrame, envelope, read_message, read_message-envelope}
use nova_visualiser.Net.Fragment.{send_access_unit}
use nova_visualiser.Net.Fragment.Reassembly.{Outcome, send_access_unit_lem}

base64-text : base64 (codes "light work") ≡ codes "bGlnaHQgd29yaw=="
unfolding base64 sextet
base64-text = refl

decode-base64_example : decode (base64 (codes "work")) ≡ codes "work"
decode-base64_example = decode-base64 (codes "work") (omega arith)

length-base64_example : length (base64 (codes "work")) ≡ (4 + 2) / 3 * 4
length-base64_example = length-base64 (codes "work")

abbrev frame : EncodedFrame
frame = record { bytes = codes "abc"; keyframe = true }

read_message-envelope_example : read_message (envelope frame 7 9 ++ codes "next") ≡ record {
  kind = 0;
  flags = 1;
  pts = 7;
  sent_at = 9;
  payload = codes "abc";
  rest = codes "next";
}
read_message-envelope_example =
    read_message-envelope frame 7 9 (codes "next") (omega arith) (omega arith) (omega arith)

send_access_unit_lem_example :
    Outcome (some (codes "old")) (codes "unit") (send_access_unit (λ offset. true) (codes "unit") 3)
send_access_unit_lem_example =
    send_access_unit_lem (λ offset. true) (codes "unit") 3 (some (codes "old")) (omega arith)
