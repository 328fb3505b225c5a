-- ===== src/Server/Runtime/Events.antt =====
-- What a run of the server read and accepted, and which connections went on to the limiter.
use connauth.Common.{ℕ, String, List, [], ◌∷◌}
use connauth.World.{World}
use connauth.Server.Config.{ForwardConfig}
use connauth.Server.Loops.{PortLoops, Sockets, ReadEvent, AcceptEvent}
use connauth.Server.Runtime.{
  Runtime, AuthStep, PortStep, Step, Reach, here, next, auth, port, reads, accepts, begins,
}

pub data Event (w : World) : Type 0 where
  read : ReadEvent w → Event w
  accept : ℕ → AcceptEvent → Event w
  begin : ℕ → String → Event w
  other : Event w

module _ (w : World) (net : Sockets) where
  abbrev auth_event : {r t : Runtime} → AuthStep w r t → Event w
  auth_event (reads e again s runs fails h) = read e
  auth_event st = other

  abbrev port_event :
      {r : Runtime} {i : ℕ} {f : ForwardConfig} {p : PortLoops} {t : Runtime}
      → PortStep w r i f p t
      → Event w
  port_event {i = i} (accepts e l after again a runs fails held came) = accept i e
  port_event {i = i} (begins ip waits) = begin i ip
  port_event st = other

  abbrev event : {r t : Runtime} → Step w net r t → Event w
  event (auth st) = auth_event st
  event (port i f p at found st) = port_event st
  event st = other

  -- The newest first.
  abbrev pub history : {r t : Runtime} → Reach w net r t → List (Event w)
  history here = []
  history (next run st) = event st ∷ history run
