-- ===== src/Media/Bridge/Counts.antt =====
-- modules/media/MediaBridge.js: what the legs of a bridge are written, and its counts.
use mathlib.Core.Path.{subst}
use arnacon_webrtc_service.Shared.{
  ℕ, zero, suc, ◌≤◌, ◌≡◌, refl, sym, ap, Bool, ◌&&◌, not, Option, none, some, List, [], ◌∷◌,
  if◌then◌else◌, if-cases, Bool-cases, ◌==◌, ==_iff, &&_right, ◌⊎◌, inl, inr, length, map, All,
  arith,
}
use arnacon_webrtc_service.Media.G711.{
  transcode_g711_payload, linear_to_a_law, mu_law_to_linear, linear_to_mu_law, a_law_to_linear,
}
use arnacon_webrtc_service.Media.Bridge.{
  Packet, adapt_rtp_payload_type, clone_rtp_packet, Direction, Bridge, start_bridge, resume,
  legs_started, stop_bridge, pass_packet, forward, BridgeEvent, starts, resumes, stops, from_a,
  from_b, types_a, types_b, on_event, on_events,
}

-- The packet that a leg with a payload type is due for one: each sample at the other law where the packet
-- has one law of G.711 and the leg the other, and the packet itself elsewhere.
abbrev pub due : Packet → Option ℕ → Packet
unfolding linear_to_a_law mu_law_to_linear linear_to_mu_law a_law_to_linear
due p none = p
due p (some t) =
    if p.payload_type == 0 && t == 8
    then record p {
      payload_type = 8;
      payload = map (λ b. linear_to_a_law (mu_law_to_linear b)) p.payload;
    }
    else if p.payload_type == 8 && t == 0
    then record p {
      payload_type = 0;
      payload = map (λ b. linear_to_mu_law (a_law_to_linear b)) p.payload;
    }
    else p

-- The packets that came, each with the payload type of the leg it was for, the latest first.
abbrev pub Heard : Type 0
Heard = List (Packet × Option ℕ)

-- The packet is due for one that came.
abbrev pub Carries : Heard → Packet → Type 0
Carries [] q = ⊥
Carries ((p, t) ∷ heard) q = (q ≡ due p t) ⊎ Carries heard q

-- Each packet that was written is counted, those that were converted among them, and is due for one that
-- came.
unfoldable pub IsCounted : Heard → Direction → Type 0
IsCounted heard d =
    (d.forwarded ≡ length d.written) × (d.transcoded ≤ d.forwarded) × All (Carries heard) d.written

adapt-due : (p : Packet) (o : Option ℕ) → (adapt_rtp_payload_type p o).0 ≡ due p o
unfolding adapt_rtp_payload_type clone_rtp_packet transcode_g711_payload
adapt-due p none = refl
adapt-due p (some t) = elim (Bool-cases (p.payload_type == 0 && t == 8)) [
  | inl e ↦ rw (e, (==_iff t 8).0 (&&_right (p.payload_type == 0) (t == 8) e))
  | inr e ↦ elim (Bool-cases (p.payload_type == 8 && t == 0)) [
    | inl f ↦ rw (e, f, (==_iff t 0).0 (&&_right (p.payload_type == 8) (t == 0) f))
    | inr f ↦ rw (e, f)
  ]
]

All-older :
    (x : Packet × Option ℕ) (heard : Heard) (qs : List Packet)
    → All (Carries heard) qs
    → All (Carries (x ∷ heard)) qs
All-older x heard [] h = tt
All-older x heard (q ∷ qs) h = (inr h.0, All-older x heard qs h.1)

pass_packet-IsCounted :
    (p : Packet) (heard : Heard) (d : Direction)
    → IsCounted ((p, d.target_type) ∷ heard) d
    → IsCounted ((p, d.target_type) ∷ heard) (pass_packet p d)
unfolding pass_packet IsCounted
pass_packet-IsCounted p heard d h = (
  ap suc h.0,
  if-cases (λ (n : ℕ). n ≤ suc d.forwarded) (adapt_rtp_payload_type p d.target_type).1 _ _
      (λ _. omega (arith, h.1)) (λ _. omega (arith, h.1)),
  (inl (adapt-due p d.target_type), h.2),
)

forward-target :
    (active : Bool) (n : ℕ) (p : Packet) (d : Direction)
    → (forward active n p d).target_type ≡ d.target_type
unfolding forward pass_packet
forward-target active zero p d = refl
forward-target active (suc n) p d =
    if-cases (λ (k : Direction). k.target_type ≡ d.target_type) active _ _
      (λ _. forward-target active n p d) (λ _. forward-target active n p d)

forward-IsCounted :
    (active : Bool) (n : ℕ) (p : Packet) (heard : Heard) (d : Direction)
    → IsCounted ((p, d.target_type) ∷ heard) d
    → IsCounted ((p, d.target_type) ∷ heard) (forward active n p d)
unfolding forward
forward-IsCounted active zero p heard d h = h
forward-IsCounted active (suc n) p heard d h =
    let u = forward active n p d in
    let rest = forward-IsCounted active n p heard d h in
    if-cases (IsCounted ((p, d.target_type) ∷ heard)) active _ _
      (λ _.
        subst (λ o. IsCounted ((p, o) ∷ heard) (pass_packet p u)) (forward-target active n p d)
          (pass_packet-IsCounted p heard u
            (subst (λ o. IsCounted ((p, o) ∷ heard) u) (sym (forward-target active n p d)) rest)))
      (λ _. rest)

hears :
    (active : Bool) (n : ℕ) (p : Packet) (heard : Heard) (d : Direction)
    → IsCounted heard d
    → IsCounted ((p, d.target_type) ∷ heard) (forward active n p d)
unfolding IsCounted
hears active n p heard d h =
    forward-IsCounted active n p heard d
      (h.0, h.1, All-older (p, d.target_type) heard d.written h.2)

-- What each leg is to be written: the packets of the other, with its own payload type at the time.
unfoldable pub heard_from_a : List BridgeEvent → Option ℕ → Heard → Heard
heard_from_a [] t heard = heard
heard_from_a (starts ∷ es) t heard = heard_from_a es t heard
heard_from_a (resumes ∷ es) t heard = heard_from_a es t heard
heard_from_a (stops ∷ es) t heard = heard_from_a es t heard
heard_from_a (from_a p ∷ es) t heard = heard_from_a es t ((p, t) ∷ heard)
heard_from_a (from_b p ∷ es) t heard = heard_from_a es t heard
heard_from_a (types_a u ∷ es) t heard = heard_from_a es t heard
heard_from_a (types_b u ∷ es) t heard = heard_from_a es u heard

unfoldable pub heard_from_b : List BridgeEvent → Option ℕ → Heard → Heard
heard_from_b [] t heard = heard
heard_from_b (starts ∷ es) t heard = heard_from_b es t heard
heard_from_b (resumes ∷ es) t heard = heard_from_b es t heard
heard_from_b (stops ∷ es) t heard = heard_from_b es t heard
heard_from_b (from_a p ∷ es) t heard = heard_from_b es t heard
heard_from_b (from_b p ∷ es) t heard = heard_from_b es t ((p, t) ∷ heard)
heard_from_b (types_a u ∷ es) t heard = heard_from_b es u heard
heard_from_b (types_b u ∷ es) t heard = heard_from_b es t heard

abbrev AreCounted : Heard → Heard → Direction × Direction → Type 0
AreCounted ha hb d = IsCounted ha d.0 × IsCounted hb d.1

abbrev sides : Bridge → Direction × Direction
sides m = (m.a_to_b, m.b_to_a)

-- What the sides of a bridge are to be after the events.
abbrev After : List BridgeEvent → Heard → Heard → Direction × Direction → Bridge → Type 0
After es ha hb d m =
    AreCounted (heard_from_a es d.0.target_type ha) (heard_from_b es d.1.target_type hb)
      (sides (on_events es m))

start-sides : (m : Bridge) → sides (start_bridge m) ≡ sides m
unfolding start_bridge
start-sides m = if-cases (λ (k : Bridge). sides k ≡ sides m) m.active _ _ (λ _. refl) (λ _. refl)

resume-sides : (n : ℕ) (m : Bridge) → sides (resume n m) ≡ sides m
resume-sides zero m = refl
resume-sides (suc n) m = refl

stop-sides : (m : Bridge) → sides (stop_bridge m) ≡ sides m
unfolding stop_bridge
stop-sides m =
    if-cases (λ (k : Bridge). sides k ≡ sides m) (not m.active && not m.stats_timer) _ _ (λ _. refl)
      (λ _. refl)

retyped :
    (t : Option ℕ) (heard : Heard) (d : Direction)
    → IsCounted heard d
    → IsCounted heard (record d { target_type = t })
unfolding IsCounted
retyped t heard d h = h

events-AreCounted :
    (es : List BridgeEvent) (m : Bridge) (ha hb : Heard)
    → AreCounted ha hb (sides m)
    → After es ha hb (sides m) m
unfolding on_events on_event legs_started heard_from_a heard_from_b
events-AreCounted [] m ha hb h = h
events-AreCounted (starts ∷ es) m ha hb h =
    subst (λ d. After es ha hb d (start_bridge m)) (start-sides m)
      (events-AreCounted es (start_bridge m) ha hb
        (subst (AreCounted ha hb) (sym (start-sides m)) h))
events-AreCounted (resumes ∷ es) m ha hb h =
    subst (λ d. After es ha hb d (legs_started m)) (resume-sides m.starting m)
      (events-AreCounted es (legs_started m) ha hb
        (subst (AreCounted ha hb) (sym (resume-sides m.starting m)) h))
events-AreCounted (stops ∷ es) m ha hb h =
    subst (λ d. After es ha hb d (stop_bridge m)) (stop-sides m)
      (events-AreCounted es (stop_bridge m) ha hb (subst (AreCounted ha hb) (sym (stop-sides m)) h))
events-AreCounted (from_a p ∷ es) m ha hb h =
    let u = forward m.active m.subscribed p m.a_to_b in
    let same = forward-target m.active m.subscribed p m.a_to_b in
    subst
      (λ o.
        AreCounted (heard_from_a es o ((p, m.a_to_b.target_type) ∷ ha))
          (heard_from_b es m.b_to_a.target_type hb)
          (sides (on_events es (record m { a_to_b = u }))))
      same
      (events-AreCounted es (record m { a_to_b = u }) ((p, m.a_to_b.target_type) ∷ ha) hb
        (hears m.active m.subscribed p ha m.a_to_b h.0, h.1))
events-AreCounted (from_b p ∷ es) m ha hb h =
    let u = forward m.active m.subscribed p m.b_to_a in
    let same = forward-target m.active m.subscribed p m.b_to_a in
    subst
      (λ o.
        AreCounted (heard_from_a es m.a_to_b.target_type ha)
          (heard_from_b es o ((p, m.b_to_a.target_type) ∷ hb))
          (sides (on_events es (record m { b_to_a = u }))))
      same
      (events-AreCounted es (record m { b_to_a = u }) ha ((p, m.b_to_a.target_type) ∷ hb)
        (h.0, hears m.active m.subscribed p hb m.b_to_a h.1))
events-AreCounted (types_a t ∷ es) m ha hb h =
    events-AreCounted es (record m { b_to_a = record m.b_to_a { target_type = t } }) ha hb
      (h.0, retyped t hb m.b_to_a h.1)
events-AreCounted (types_b t ∷ es) m ha hb h =
    events-AreCounted es (record m { a_to_b = record m.a_to_b { target_type = t } }) ha hb
      (retyped t ha m.a_to_b h.0, h.1)

-- Whatever starts, stops, packets and new payload types of the legs come to a bridge that has written
-- nothing, in any order: each packet that it writes to a leg is the one due to the leg for a packet that
-- came from the other, at the payload type that the leg had then; as many are counted as were written,
-- and of these no more as converted.
pub on_events-AreCounted :
    (es : List BridgeEvent) (m : Bridge)
    → IsCounted [] m.a_to_b
    → IsCounted [] m.b_to_a
    → IsCounted (heard_from_a es m.a_to_b.target_type []) (on_events es m).a_to_b
      × IsCounted (heard_from_b es m.b_to_a.target_type []) (on_events es m).b_to_a
on_events-AreCounted es m h k = events-AreCounted es m [] [] (h, k)
