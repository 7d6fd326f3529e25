-- ===== src/Lib.antt =====
-- Verification library of the call core of the WebRTC service (webRTCservice/modules).
--
-- The program. A PolySession mediates a call between two legs, a and b, each a browser client over
-- WebRTC or an INVITE over SIP. A leg owns its state and changes it by `setState`, which tells the
-- session. The session then drains: pass after pass it takes a snapshot of both legs, asks the pure
-- rules of ReconcileRules.js for actions, and issues them to the legs and the media controller, until
-- a pass changes nothing or 50 passes are spent. A leg talks to its client through a negotiation port.
-- PolySessionRegistry keeps one session for a pair of parties, and PolyIngress turns a wire message
-- into an event of a leg. Beside that core, Call and CallRegistry keep the records of calls for the
-- other parts of the service, and g711.js transcodes the audio of a bridge.
--
-- The files, with the code each is about (paths from webRTCservice/modules):
--   Shared            tests on numbers, lists, texts as UTF-16 code units, and Map as a list of entries
--   Runtime           runtime/CallPairRef.js, CallPairResolver.js and SessionStore.js: labels, keys of
--                     pairs, and the way from a client's session to the mediated one
--   Poly/States       calls/poly/states.js
--   Poly/Intents      calls/poly/LegStateBehavior.js and the intents of ports.js
--   Poly/Reconcile    calls/poly/ReconcileRules.js; its children prove laws of the rules by evaluation
--                     at every pair of states, with the media up and down and every trigger (Poly/Table)
--   Poly/World        the state of a session and its legs, and the monad of its async functions
--   Poly/SessionLeg   calls/poly/SessionLeg.js: the intents, and in Ingress the client's messages
--   Poly/SipLeg       calls/poly/legs/SipLeg.js, and the choice of a leg's methods by its kind
--   Poly/CallIdentity the attempt that owns a pair (PolySession.js)
--   Poly/PolySession  calls/poly/PolySession.js: drain, intents, media, hooks, rotation, disposal
--   Poly/Frame        for a relation of sessions that `setState` and the awaits keep, that all code of
--                     the legs keeps it; Steady, Unbridged and Hooks each use it for one relation
--   Poly/Settled      what a session at rest satisfies, through passes, drains, and messages whose handlers
--                     drains may run beside
--   Poly/Hooks        the hooks that bracket a call, through drains and messages
--   Poly/Converges    that drains come to rest, and where one does not
--   Poly/Registry     calls/poly/PolySessionRegistry.js, LegFactory.js and PolyIngress.js
--   Calls             calls/CallStateMachine.js, Call.js, CallRegistry.js and CallEvents.js
--   Calls/Multiring   calls/webrtc/MultiringCoordinator.js: an inbound call that rings several clients;
--                     Candidates, Groups, Starts and Handlers are its code, Keeps what every event keeps
--   CallFeatures      callFeatures/minuteCounter/MinuteCounter.js: the seconds called in a month
--   Routing/LightPbx  routing/LightPbxProvisionReader.js: Provisions has the checks of a provision, Reader
--                     the reads and their caches
--   Routing/Services  routing/ServiceRegistry.js: the services and their domains
--   Routing/Addresses, Routing/Business   routing/CallRouterApi.js: the forms of an address, and the keys of
--                     a business number; the loop that cuts a key at its dots has the length of the text
--                     as its fuel, which Keys proves enough
--   Media             media/codecs/g711.js; Media/Bridge has media/MediaBridge.js and the packets of
--                     codecs/rtp.js
--   Examples          tests, and the theorems at concrete calls
--
-- How the code is modelled. An async function of a session is a function from the session to its
-- result, or what it throws, and the session after it. An `await` of a port, a media controller or
-- a hook hands the whole session to the environment, `Port`, which gives back the reply and the
-- session as whatever ran meanwhile left it, drains that a change during the await starts
-- included; theorems name what they ask of that environment (`IsObserved` and `IsUnbridged` for
-- the awaits of a drain, `IsAttended` for those of a message's handler, `IsHookless`), or fix it.
-- `_tx`, which makes the transport work of one leg wait for its turn, is a part of the
-- environment. `_chain` is a count of the drains still to run, which `settle` runs. The loop of a
-- drain recurs on the passes left, 50 as in the code; the loop of the INVITE on the attempts left,
-- a parameter; and the other loops on lists, but for that of Routing/Business. The two parts of a
-- `Promise.all` in `rotate` and `dispose` run one after the other. A method of the multiring
-- coordinator, of the provision reader or of the media bridge is split at its awaits, and the
-- parts come in any order; the coordinator's objects are numbers. The clock is an argument.
-- `Date.now()`, logs and delays are left out. A call id is rounded as a double is. `toLowerCase`
-- is modelled on the letters A to Z.
--
-- Not modelled: the negotiation ports (their SDP and peer connections), the media graph but for its
-- bridge, the requests and the strategies of the routing, the settings of the minute counter, the
-- HTTP server and the gateways; of SessionStore.js the timers and native objects of a session.
pub mod CallFeatures
pub mod Calls
pub mod Media
pub mod Poly
pub mod Routing
pub mod Runtime
pub mod Shared
