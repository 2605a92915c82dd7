-- ===== src/Nodes/Tests/MuxTests.antt =====
-- A mux on a link that records its frames, run on a few events.
use astrald.Prelude.{
  ℕ, ◌≤◌, ◌<◌, ◌≡◌, ◌≢◌, refl, ◌⊎◌, true, false, none, some, List, [], ◌∷◌, ◌++◌, length, arith,
  if◌then◌else◌, ◌==◌,
}
use astrald.Nodes.Frames.{Frame, query, data_frame, response}
use astrald.Nodes.Frames.RoundTrip.{Fits}
use astrald.Nodes.Buffers.Output
use astrald.Nodes.Flow.{recording}
use astrald.Nodes.Session.{
  new_session, setup, open_session, set_state, state_closed, state_routing, same_state,
}
use astrald.Nodes.Session.Writer
use astrald.Nodes.Session.Writer.{SessionWriter}
use astrald.Nodes.Mux.{Mux}
use astrald.Nodes.Mux.Sessions.{close_session, create_session, close_all_sessions}
use astrald.Nodes.Mux.Handlers.{handle_response, handle_data}
use astrald.Nodes.Mux.Queries.{
  InFlightQuery, routed, route_query, send_query, invalid_query, route_not_found, handle_query,
  handle_inbound_query, admit, reply, unpause,
}
use astrald.Nodes.Mux.Steps.{
  Decision, Event, frame_arrives, verdict_arrives, routes, answer_events, run, step, handle,
  new_mux, no_session,
}
use astrald.Nodes.Mux.Registry.{IsRegistry}
use astrald.Nodes.Mux.Registry.Histories.{run-new_mux-IsRegistry}
use astrald.Nodes.Mux.Closing.{after_close, close_session_effects, close_all_empties}
use astrald.Nodes.Mux.Replies.{IsFromPeer, Answered, OnlyAt, response_outcomes}
use astrald.Nodes.Mux.Outbound.{IsFrameOf, Sent, query_guard}
use astrald.Nodes.Tests.AssocMap.{assoc_map, get, set}

abbrev TestMux : Type 0
TestMux = Mux assoc_map (List Frame)

-- What a pong does to the link is not of interest here.
abbrev ignore_pong : ℕ → List Frame → List Frame
ignore_pong n w = w

abbrev hello : InFlightQuery
hello = record { nonce = 5; caller = 1; target = 2; query_string = 104 ∷ 105 ∷ [] }

abbrev accepts : Decision
accepts = record { authorized = true; fresh = 99 }

-- A query out to node 2 and one in from it; while the router is asked about that one, data comes in
-- for the first.
abbrev history : List Event
history =
    routes 9 1 hello
    ∷ frame_arrives (query (record { nonce = 6; buffer = 3; query = [] })) accepts
    ∷ frame_arrives (data_frame 5 (1 ∷ [])) accepts
    ∷ answer_events 6 1 routed

abbrev busy : TestMux
busy = run assoc_map recording ignore_pong history (new_mux assoc_map 1 2 [])

-- The peer refuses the first query, and RouteQuery takes the refusal.
abbrev refusal : List Event
refusal = frame_arrives (response 5 1 0) accepts ∷ verdict_arrives 0 ∷ []

run-new_mux-IsRegistry_example :
    let later =
      run assoc_map recording ignore_pong (history ++ refusal) (new_mux assoc_map 1 2 []) in
    IsRegistry busy
    × ((p : ℕ)
        → p < busy.made
        → same_state (busy.store p).state state_routing ≡ false
        → (same_state (later.store p).state state_routing ≡ false)
          × (length (later.store p).routing_result ≤ length (busy.store p).routing_result))
run-new_mux-IsRegistry_example =
    run-new_mux-IsRegistry assoc_map recording ignore_pong 1 2 [] history refusal

busy-IsRegistry : IsRegistry busy
busy-IsRegistry = (run-new_mux-IsRegistry assoc_map recording ignore_pong 1 2 [] history []).0

busy_outbound : get 5 busy.sessions ≡ some 0
unfolding run step handle route_query send_query create_session handle_query handle_inbound_query
    handle_data admit reply unpause setup new_mux get set new_session no_session open_session
    set_state
busy_outbound = refl

busy_inbound : get 6 busy.sessions ≡ some 1
unfolding run step handle route_query send_query create_session handle_query handle_inbound_query
    handle_data admit reply unpause setup new_mux get set new_session no_session open_session
    set_state
busy_inbound = refl

close_session_effects_example :
    let m' = close_session assoc_map recording 1 busy in
    ((j : ℕ) → get j m'.sessions ≡ (if 6 == j then none else get j busy.sessions))
    × ((m'.store 1).closed ≡ true)
    × ((m'.store 1).state ≡ state_closed)
    × (m'.wire_state ≡ after_close recording (busy.store 1).writer busy.wire_state)
    × (close_session assoc_map recording 1 m' ≡ m')
close_session_effects_example =
    close_session_effects assoc_map recording busy 6 1 busy-IsRegistry busy_inbound

close_all_empties_example : get 5 (close_all_sessions assoc_map recording busy).sessions ≡ none
close_all_empties_example = close_all_empties assoc_map recording busy 5 busy-IsRegistry

-- A query whose nonce is free on that mux.
abbrev greeting : InFlightQuery
greeting = record { nonce = 8; caller = 1; target = 2; query_string = 104 ∷ 105 ∷ [] }

query_guard_example :
    let out = route_query assoc_map recording 9 1 greeting busy in
    ((65535 < 2) × (out ≡ (busy, invalid_query)))
    ⊎ ((2 ≤ 65535) × (get 8 busy.sessions ≢ none) × (out ≡ (busy, route_not_found)))
    ⊎ ((2 ≤ 65535)
        × (get 8 busy.sessions ≡ none)
        × ((f : Frame) × IsFrameOf assoc_map recording 1 greeting f
            × Fits f
            × Sent assoc_map recording f greeting busy out))
query_guard_example =
    query_guard assoc_map recording 9 1 greeting busy (omega arith) (omega arith) (omega arith)

abbrev outbound_writer : SessionWriter
outbound_writer = Writer.grow 0 (Writer.new 5 Output.new)

busy-writer : (busy.store 0).writer ≡ some outbound_writer
unfolding run step handle route_query send_query create_session handle_query handle_inbound_query
    handle_data admit reply unpause setup new_mux get set new_session no_session open_session
    set_state Writer.grow
busy-writer = refl

response_outcomes_example :
    let s = busy.store 0 in
    let m' = handle_response assoc_map recording 5 0 64 busy in
    ((¬ IsFromPeer busy.remote_identity s ⊎ (s.state ≢ state_routing)) × (m' ≡ busy))
    ⊎ (IsFromPeer busy.remote_identity s
        × (s.state ≡ state_routing)
        × Answered assoc_map recording 0 0 64 outbound_writer.buf.wsize m'
        × OnlyAt assoc_map recording 0 busy m')
response_outcomes_example =
    response_outcomes assoc_map recording busy 5 0 0 64 outbound_writer busy-IsRegistry
      busy_outbound busy-writer

-- A mux whose one session is inbound and waits for the router.
abbrev waiting : TestMux
waiting = (create_session assoc_map recording 99 6 2 none [] false 3 (new_mux assoc_map 1 2 [])).0

abbrev waiting_writer : SessionWriter
waiting_writer = Writer.grow 3 (Writer.new 6 Output.new)

waiting-live : (waiting.store 0).closed ≡ false
unfolding create_session setup new_mux get set new_session
waiting-live = refl

waiting-has : (waiting.store 0).writer ≡ some waiting_writer
unfolding create_session setup new_mux get set new_session
waiting-has = refl

waiting-still : waiting_writer.closed ≡ false
unfolding Writer.grow Writer.new
waiting-still = refl
