-- ===== src/Media/Bridge.antt =====
-- modules/media/codecs/rtp.js and modules/media/MediaBridge.js: the bridge that passes the packets of two
-- legs. `start` is split where it waits for the legs, which start and stop without failing.
pub mod Counts
use arnacon_webrtc_service.Shared.{
  ℕ, zero, suc, ◌+◌, Bool, true, false, ◌&&◌, ◌||◌, not, Option, none, some, List, [], ◌∷◌, ◌++◌,
  if◌then◌else◌, ◌==◌,
}
use arnacon_webrtc_service.Media.G711.{transcode_g711_payload}

-- A packet; `sequence_number` stands for the rest of its header.
pub record Packet : Type 0 where
  pub payload_type : ℕ
  pub sequence_number : ℕ
  pub payload : List ℕ

-- PCMU to PCMA, or back.
abbrev pub is_g711_pair : ℕ → ℕ → Bool
is_g711_pair from to = (from == 0 && to == 8) || (from == 8 && to == 0)

-- `cloneRtpPacketWithPayload`.
unfoldable pub clone_rtp_packet : Packet → ℕ → List ℕ → Packet
clone_rtp_packet p payload_type payload = record p {
  payload_type = payload_type;
  payload = payload;
}

-- `adaptRtpPayloadType`, with whether the packet is another one.
unfoldable pub adapt_rtp_payload_type : Packet → Option ℕ → Packet × Bool
unfolding transcode_g711_payload clone_rtp_packet
adapt_rtp_payload_type p none = (p, false)
adapt_rtp_payload_type p (some target) =
    if is_g711_pair p.payload_type target
    then (clone_rtp_packet p target (transcode_g711_payload p.payload p.payload_type target), true)
    else (p, false)

-- One direction: the payload type that the leg it writes to has now, what it was written, and the counts.
pub record Direction : Type 0 where
  pub target_type : Option ℕ
  pub written : List Packet
  pub forwarded : ℕ
  pub transcoded : ℕ

-- `starting` counts the starts that wait for their legs, and `subscribed` the pairs of subscriptions
-- in `disposers`.
pub record Bridge : Type 0 where
  pub active : Bool
  pub starting : ℕ
  pub subscribed : ℕ
  pub stats_timer : Bool
  pub a_to_b : Direction
  pub b_to_a : Direction

-- `start` up to its legs.
unfoldable pub start_bridge : Bridge → Bridge
start_bridge m = if m.active then m else record m { active = true; starting = suc m.starting }

abbrev pub resume : ℕ → Bridge → Bridge
resume zero m = m
resume (suc n) m = record m { starting = n; subscribed = suc m.subscribed; stats_timer = true }

-- The rest of `start`.
unfoldable pub legs_started : Bridge → Bridge
legs_started m = resume m.starting m

-- `stop`.
unfoldable pub stop_bridge : Bridge → Bridge
stop_bridge m =
    if not m.active && not m.stats_timer
    then m
    else record m { active = false; subscribed = 0; stats_timer = false }

-- What `forward` does of one direction.
unfoldable pub pass_packet : Packet → Direction → Direction
unfolding adapt_rtp_payload_type
pass_packet p d =
    let out = adapt_rtp_payload_type p d.target_type in
    record d {
      written = out.0 ∷ d.written;
      forwarded = suc d.forwarded;
      transcoded = if out.1 then suc d.transcoded else d.transcoded;
    }

-- `forward`, once for each subscription; the packets that were written stand the newest first.
unfoldable pub forward : Bool → ℕ → Packet → Direction → Direction
unfolding pass_packet
forward active zero p d = d
forward active (suc n) p d =
    let rest = forward active n p d in if active then pass_packet p rest else rest

-- What comes to a bridge; a leg sets its payload type by itself.
pub data BridgeEvent : Type 0 where
  starts resumes stops : BridgeEvent
  from_a from_b : Packet → BridgeEvent
  types_a types_b : Option ℕ → BridgeEvent

unfoldable pub on_event : BridgeEvent → Bridge → Bridge
unfolding start_bridge legs_started stop_bridge forward
on_event starts m = start_bridge m
on_event resumes m = legs_started m
on_event stops m = stop_bridge m
on_event (from_a p) m = record m { a_to_b = forward m.active m.subscribed p m.a_to_b }
on_event (from_b p) m = record m { b_to_a = forward m.active m.subscribed p m.b_to_a }
on_event (types_a t) m = record m { b_to_a = record m.b_to_a { target_type = t } }
on_event (types_b t) m = record m { a_to_b = record m.a_to_b { target_type = t } }

unfoldable pub on_events : List BridgeEvent → Bridge → Bridge
unfolding on_event
on_events [] m = m
on_events (e ∷ es) m = on_events es (on_event e m)
