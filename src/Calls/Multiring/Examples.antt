-- ===== src/Calls/Multiring/Examples.antt =====
-- modules/calls/webrtc/MultiringCoordinator.js: runs at concrete calls.
use arnacon_webrtc_service.Shared.{
  ℕ, ◌≤◌, ◌≡◌, refl, true, false, none, some, List, [], ◌∷◌, ◌++◌, text, Text, All, ◌⊎◌,
}
use arnacon_webrtc_service.Runtime.CallPairRef.{pair_key_from_identities}
use arnacon_webrtc_service.Calls.Multiring.Candidates.{LegSession, Group, Meta, candidate_for_meta}
use arnacon_webrtc_service.Calls.Multiring.Groups.{is_active}
use arnacon_webrtc_service.Calls.Multiring.Starts.{new_candidate}
use arnacon_webrtc_service.Calls.Multiring.Keeps.{winner_in, is_over, core_at, won_at, count}
use arnacon_webrtc_service.Calls.Multiring.Events.{
  Event, started, created, settled, messaged, transport_closed, handed_off, handoff_failed, idle,
  step, after_events, after_events-IsLocked, after_events-winner, after_events-destroyed,
  data_channel_message-locks,
}

abbrev leg : ℕ → Text → LegSession
leg n pc = record {
  id = n;
  signaling_session_id = pc;
  peer_connection = some pc;
  data_channel = some true;
  multi_ring_pre_negotiated = false;
}

abbrev host : Text
host = text "gw|mr-1"

abbrev meta_of : Text → Meta
meta_of wallet = record { wallet_address = wallet; callee_identity = []; meta_session_id = [] }

-- A call that rings Alice and Bob.
abbrev two_ring : List Event
two_ring =
    started [] [] [] []
    ∷ started
        (record { wallet = text "0xA"; ens = text "alice.global" }
          ∷ record { wallet = text "0xB"; ens = text "bob.global" }
          ∷ [])
        host (text "gw") (text "mr-1")
    ∷ created 0 (text "0xa") (text "alice.global") (leg 0 (text "pc-a")) []
    ∷ created 0 (text "0xb") (text "bob.global") (leg 1 (text "pc-b")) []
    ∷ settled 0 true
    ∷ []

abbrev bob_answers : List Event
bob_answers = messaged host (meta_of (text "0xB")) (text "answer") ∷ []

abbrev the_group : Group
the_group = record {
  host_session_id = host;
  caller_ens = text "gw";
  outbound_legs = [];
  call_nonce = text "mr-1";
  candidates = (text "0xa", 0) ∷ (text "0xb", 1) ∷ [];
  winner_of_group = none;
  finished = false;
  timer = true;
}

data_channel_message-locks_example :
    (won_at 1 (
        step pair_key_from_identities
          (messaged host (meta_of (text "0xB")) (text "answer"))
          (after_events pair_key_from_identities two_ring idle))
      ≡ some 0)
    × All
        (λ (q : ℕ).
          (q ≡ 1)
          ⊎ (is_active
                (step pair_key_from_identities
                  (messaged host (meta_of (text "0xB")) (text "answer"))
                  (after_events pair_key_from_identities two_ring idle))
                q
              ≡ false))
        (0 ∷ 1 ∷ [])
unfolding step after_events pair_key_from_identities candidate_for_meta
data_channel_message-locks_example =
    data_channel_message-locks pair_key_from_identities two_ring host (meta_of (text "0xB")) 1
      (new_candidate 0 (text "0xb") (text "bob.global") (leg 1 (text "pc-b"))) the_group refl refl
      refl refl refl

after_events-IsLocked_example :
    (◌≡◌ {A = ℕ} 1 1)
    × (winner_in (core_at 0 (after_events pair_key_from_identities (two_ring ++ bob_answers) idle))
        ≡ some 1)
unfolding after_events pair_key_from_identities won_at core_at
after_events-IsLocked_example =
    after_events-IsLocked pair_key_from_identities (two_ring ++ bob_answers) 1 1 0 refl refl

-- Alice's answer comes too late.
after_events-winner_example :
    winner_in (
      core_at 0 (
        after_events pair_key_from_identities
          (messaged host (meta_of (text "0xA")) (text "answer") ∷ handed_off 0 ∷ [])
          (after_events pair_key_from_identities (two_ring ++ bob_answers) idle)))
    ≡ some 1
unfolding after_events pair_key_from_identities core_at
after_events-winner_example =
    after_events-winner pair_key_from_identities
      (messaged host (meta_of (text "0xA")) (text "answer") ∷ handed_off 0 ∷ [])
      (after_events pair_key_from_identities (two_ring ++ bob_answers) idle) 0 1 refl

after_events-destroyed_example :
    count 0
      (after_events pair_key_from_identities
        (two_ring ++ bob_answers ++ transport_closed (text "pc-b") ∷ handoff_failed 0 [] ∷ [])
        idle).destroyed
    ≤ 1
unfolding after_events pair_key_from_identities core_at
after_events-destroyed_example =
    after_events-destroyed pair_key_from_identities
      (two_ring ++ bob_answers ++ transport_closed (text "pc-b") ∷ handoff_failed 0 [] ∷ []) 0

-- A winner that ends the call before the handoff is closed, but its group lives on.
winner_ends :
    is_over (
      core_at 0 (
        after_events pair_key_from_identities
          (two_ring ++ bob_answers ++ messaged host (meta_of (text "0xB")) (text "end") ∷ [])
          idle))
    ≡ false
unfolding after_events pair_key_from_identities core_at
winner_ends = refl

-- A candidate whose leg is made after another has won rings on.
late_candidate :
    is_active
      (after_events pair_key_from_identities
        (two_ring
          ++ bob_answers
          ++ created 0 (text "0xc") (text "carol.global") (leg 2 (text "pc-c")) []
            ∷ handed_off 0
            ∷ [])
        idle)
      2
    ≡ true
unfolding after_events pair_key_from_identities
late_candidate = refl
