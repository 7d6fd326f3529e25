-- ===== src/Media/Examples.antt =====
-- modules/media: the codecs at single bytes, and a bridge between PCMU and PCMA.
use arnacon_webrtc_service.Shared.{
  some, List, [], ◌∷◌, false, ◌≡◌, refl, if◌then◌else◌, ◌==◌, arith,
}
use arnacon_webrtc_service.Media.Bridge.{
  Packet, Direction, Bridge, starts, stops, resumes, from_a, types_b, BridgeEvent, on_events,
}
use arnacon_webrtc_service.Media.Bridge.Counts.{
  IsCounted, heard_from_a, heard_from_b, on_events-AreCounted,
}
use arnacon_webrtc_service.Media.G711.{
  pos, a_law_to_linear, linear_to_a_law, mu_law_to_linear, linear_to_mu_law,
}
use arnacon_webrtc_service.Media.G711.RoundTrips.{
  linear_to_a_law-a_law_to_linear, linear_to_mu_law-mu_law_to_linear,
}

decoded_test : mu_law_to_linear 0x80 ≡ pos 32124
unfolding mu_law_to_linear
decoded_test = refl

linear_to_a_law-a_law_to_linear_example : linear_to_a_law (a_law_to_linear 0x2a) ≡ 0x2a
linear_to_a_law-a_law_to_linear_example = linear_to_a_law-a_law_to_linear 0x2a (omega arith)

linear_to_mu_law-mu_law_to_linear_example :
    linear_to_mu_law (mu_law_to_linear 127) ≡ (if 127 == 127 then 255 else 127)
linear_to_mu_law-mu_law_to_linear_example = linear_to_mu_law-mu_law_to_linear 127 (omega arith)

abbrev silent : Direction
silent = record { target_type = some 8; written = []; forwarded = 0; transcoded = 0 }

abbrev bridge : Bridge
bridge = record {
  active = false;
  starting = 0;
  subscribed = 0;
  stats_timer = false;
  a_to_b = silent;
  b_to_a = record silent { target_type = some 0 };
}

abbrev packet : Packet
packet = record { payload_type = 0; sequence_number = 7; payload = 255 ∷ [] }

-- A packet of PCMU to a leg of PCMA.
converts_test :
    (on_events (starts ∷ resumes ∷ from_a packet ∷ []) bridge).a_to_b.written
    ≡ record { payload_type = 8; sequence_number = 7; payload = 213 ∷ [] } ∷ []
unfolding on_events
converts_test = refl

-- A bridge that is stopped and started while its first start waits passes each packet twice.
doubled_test :
    (on_events
      (starts ∷ stops ∷ starts ∷ resumes ∷ resumes ∷ from_a packet ∷ [])
      bridge).a_to_b.forwarded
    ≡ 2
unfolding on_events
doubled_test = refl

-- A leg that turns to PCMU is written the packet as it is.
abbrev turns : List BridgeEvent
turns = starts ∷ resumes ∷ from_a packet ∷ types_b (some 0) ∷ from_a packet ∷ stops ∷ []

turns_test :
    (on_events turns bridge).a_to_b.written
    ≡ packet ∷ record packet { payload_type = 8; payload = 213 ∷ [] } ∷ []
unfolding on_events
turns_test = refl

on_events-AreCounted_example :
    IsCounted (heard_from_a turns (some 8) []) (on_events turns bridge).a_to_b
    × IsCounted (heard_from_b turns (some 0) []) (on_events turns bridge).b_to_a
unfolding IsCounted
on_events-AreCounted_example =
    on_events-AreCounted turns bridge (refl, omega arith, tt) (refl, omega arith, tt)
