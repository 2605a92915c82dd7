-- ===== src/Nodes/Tests/MigrationTests.antt =====
-- A session that moves from one link of a node to another.
use astrald.Prelude.{ℕ, ◌+◌, ◌≡◌, refl, true, none, some, List, [], ◌∷◌, sum}
use astrald.Nodes.Frames.{Frame, response}
use astrald.Nodes.Buffers.Input
use astrald.Nodes.Buffers.Output
use astrald.Nodes.Callbacks.{default_buffer_size}
use astrald.Nodes.Flow.{recording}
use astrald.Nodes.Session.{new_session, setup, open_session, swap_state, state_open}
use astrald.Nodes.Session.Reader
use astrald.Nodes.Session.Reader.{SessionReader}
use astrald.Nodes.Session.Writer
use astrald.Nodes.Session.Writer.{SessionWriter}
use astrald.Nodes.Mux.{Mux}
use astrald.Nodes.Mux.Sessions.{create_session, remove_session, close_session}
use astrald.Nodes.Mux.Handlers.{handle_response, response_for}
use astrald.Nodes.Mux.Queries.{InFlightQuery, route_query, send_query}
use astrald.Nodes.Mux.Steps.{Decision, Event, frame_arrives, routes, run, step, handle, new_mux}
use astrald.Nodes.Mux.Registry.{IsRegistry}
use astrald.Nodes.Mux.Registry.Histories.{run-new_mux-IsRegistry}
use astrald.Nodes.Migration.{share, begin_at, reopen_at, takes, take_out, put_in, complete}
use astrald.Nodes.Migration.Outcomes.{Completed, complete_outcomes, put_in_closed}
use astrald.Nodes.Migration.Credit.{credit, reads, migration_credit}
use astrald.Nodes.Tests.AssocMap.{assoc_map, get, set}

abbrev hello : InFlightQuery
hello = record { nonce = 5; caller = 1; target = 2; query_string = [] }

abbrev accepts : Decision
accepts = record { authorized = true; fresh = 99 }

abbrev ignore_pong : ℕ → List Frame → List Frame
ignore_pong n w = w

-- A query that the peer has accepted with a buffer of 64 bytes.
abbrev opening : List Event
opening = routes 9 1 hello ∷ frame_arrives (response 5 0 64) accepts ∷ []

abbrev old : Mux assoc_map (List Frame)
old = run assoc_map recording ignore_pong opening (new_mux assoc_map 1 2 [])

abbrev new : Mux assoc_map (List Frame)
new = share old (new_mux assoc_map 1 2 [])

old-IsRegistry : IsRegistry old
old-IsRegistry = (run-new_mux-IsRegistry assoc_map recording ignore_pong 1 2 [] opening []).0

new-IsRegistry : IsRegistry new
unfolding get new_mux
new-IsRegistry = record {
  live = λ k p e. cc e;
  one = old-IsRegistry.one;
  blank = old-IsRegistry.blank;
}

old-get : get 5 old.sessions ≡ some 0
unfolding run step handle route_query send_query create_session handle_response response_for setup
    new_mux get set new_session swap_state open_session
old-get = refl

old-nonce : (old.store 0).nonce ≡ 5
unfolding run step handle route_query send_query create_session handle_response response_for setup
    new_mux get set new_session swap_state open_session
old-nonce = refl

old-state : (old.store 0).state ≡ state_open
unfolding run step handle route_query send_query create_session handle_response response_for setup
    new_mux get set new_session swap_state open_session
old-state = refl

abbrev writer : SessionWriter
writer = Writer.grow 64 (Writer.grow 0 (Writer.new 5 Output.new))

abbrev reader : SessionReader
reader = Reader.new (Input.new default_buffer_size true)

old-writer : (old.store 0).writer ≡ some writer
unfolding run step handle route_query send_query create_session handle_response response_for setup
    new_mux get set new_session swap_state open_session
old-writer = refl

old-reader : (old.store 0).reader ≡ some reader
unfolding run step handle route_query send_query create_session handle_response response_for setup
    new_mux get set new_session swap_state open_session
old-reader = refl

only_session : (q : ℕ) → get 5 old.sessions ≡ some q → q ≡ 0
only_session q e = cc (e, old-get)

complete_outcomes_example :
    Completed assoc_map
      (some 1)
      (some 2)
      5
      0
      64
      writer
      old
      new
      (complete (some 1) (some 2) 0 64 old new)
complete_outcomes_example =
    complete_outcomes assoc_map (some 1) (some 2) old new 5 0 64 writer old-IsRegistry
      new-IsRegistry (record { stores = refl; counts = refl }) only_session old-nonce old-writer

-- The same session, closed after the old link's mux has let it go.
abbrev closed_old : Mux assoc_map (List Frame)
closed_old = close_session assoc_map recording 0 (take_out (some 1) (some 2) 0 old).0

abbrev closed_writer : SessionWriter
closed_writer = Writer.peer_close writer

closed_old-nonce : (closed_old.store 0).nonce ≡ 5
unfolding run step handle route_query send_query create_session handle_response response_for setup
    new_mux get set new_session swap_state open_session take_out remove_session close_session
    Writer.close
closed_old-nonce = refl

closed_old-closed : (closed_old.store 0).closed ≡ true
unfolding run step handle route_query send_query create_session handle_response response_for setup
    new_mux get set new_session swap_state open_session take_out remove_session close_session
    Writer.close
closed_old-closed = refl

closed_old-writer : (closed_old.store 0).writer ≡ some closed_writer
unfolding run step handle route_query send_query create_session handle_response response_for setup
    new_mux get set new_session swap_state open_session take_out remove_session close_session
    Writer.close Writer.peer_close Writer.grow Writer.new
closed_old-writer = refl

new-free : get 5 new.sessions ≡ none
unfolding get new_mux
new-free = refl

put_in_closed_example :
    let (old', new', err) = put_in (takes 0) 0 64 closed_old new in
    (err ≡ none)
    × (get 5 new'.sessions ≡ some 0)
    × ((new'.store 0).state ≡ state_open)
    × ((new'.store 0).closed ≡ true)
    × (get 5 (close_session assoc_map recording 0 new').sessions ≡ some 0)
put_in_closed_example =
    put_in_closed assoc_map recording closed_old new 5 0 64 closed_writer closed_old-nonce
      closed_old-closed closed_old-writer new-free

-- The peer's reader gives 3 bytes of its old buffer back before it has seen the Migrate frame.
migration_credit_example :
    credit
      ((reopen_at 0 64 (reads assoc_map recording 5 (3 ∷ []) (begin_at 0 old).0)).store 0).writer
    ≡ 64 + sum (3 ∷ [])
migration_credit_example =
    migration_credit assoc_map recording old 5 0 64 reader writer (3 ∷ []) old-get old-state
      old-reader old-writer
