-- ===== src/Net/HouseParty/Tests.antt =====
-- A session of the producer that begins and sends a frame.
use nova_visualiser.Prelude.{◌≡◌, not, ◌&&◌, true, false, some, [], codes}
use nova_visualiser.Prelude.Int.{pos}
use nova_visualiser.Core.Double.Whole.{Whole, whole_double}
use nova_visualiser.Core.Json.{NumberText}
use nova_visualiser.Net.Config.{HttpResponse}
use nova_visualiser.Net.HouseParty.{
  HousePartyProducer, new_producer, set_enabled, pass, send_frame, IsReachable, started, enables,
  passes,
}
use nova_visualiser.Net.HouseParty.Session.{has_request, send_frame-has_request}

abbrev numbers : NumberText Whole
numbers = record {
  strtod = λ t. some 7;
  is_finite = λ n. true;
  zero_number = some 0;
  is_integral = λ n. true;
  print_integer = λ n. codes "7";
  print_float = λ n. codes "7";
}

abbrev created : HttpResponse
created = record { status = 200; body = codes "{\"id\":\"h1\"}"; headers = []; error = [] }

abbrev opened : HousePartyProducer Whole
opened = pass numbers created created (pos 1000) (set_enabled true new_producer)

opened-IsReachable : IsReachable numbers opened
opened-IsReachable =
    passes created created (pos 1000) (set_enabled true new_producer)
      (enables true new_producer started)

send_frame-has_request_example :
    (opened.session_active && not (has_request (send_frame (pos 1200) opened).0)) ≡ false
send_frame-has_request_example = send_frame-has_request numbers (pos 1200) opened opened-IsReachable
