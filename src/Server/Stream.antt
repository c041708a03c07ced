-- ===== src/Server/Stream.antt =====
-- src/agent/copilotkit_server.py: the bodies of the chats' StreamingResponses, many at once.
--
-- The agent of ag_ui_langgraph keeps its run in its own attributes, so objects and their addresses
-- are modelled: `agent.clone()` makes an object for each request. The clones share the graph and its
-- checkpointer, which keeps what it saves under the thread id of the run. The server pulls the
-- streams in any order, one event at a time.
pub mod Objects
pub mod Isolation
pub mod Delivery
mod Tests
use carqna_agent.Common.{ℕ, ◌+◌, Option, none, some, List, [], ◌∷◌, ◌++◌, ◌==◌, if◌then◌else◌}
use carqna_agent.PyText.{Text, text_eq}
use carqna_agent.Errors.{Exception, Result, returned, raised}
use carqna_agent.Server.Routes.{thread_key}

-- A `RunAgentInput`: its thread_id, and what else the client sends.
pub record RunInput (P : Type 0) : Type 0 where
  pub thread_id : Text
  pub payload : P

-- LangGraphAGUIAgent and EventEncoder, which the repository only calls. `A` is what an agent object
-- holds, its active run included, and `C` the checkpoints of one thread; `F` is a suspended `run`,
-- and `next` resumes it up to the next event `E`, its end or an exception. It reads and writes the
-- checkpoints of the run's own thread, as the checkpointer is documented to keep them.
pub record AgentClass (P A C F E : Type 0) : Type 0 where
  pub clone : A → A
  pub run : RunInput P → F
  pub next : F → A → C → Option (Result E) × F × A × C
  -- EventEncoder(accept=…).encode and .get_content_type
  pub encode : Option Text → E → Text
  pub content_type : Option Text → Text

pub data Status : Type 0 where
  streaming : Status
  finished : Status
  failed : Exception → Status

-- event_generator() of one request, with the chunks that it has yielded. `request_agent` is the address
-- of its agent, and `thread` the thread id of its run.
pub record Stream (F : Type 0) : Type 0 where
  pub request_agent : ℕ
  pub thread : Text
  pub frame : F
  pub accept : Option Text
  pub media_type : Text
  pub sent : List Text
  pub status : Status

-- The agent objects by their addresses, the checkpoints by thread, the address of the next object,
-- and the streams by request.
pub record Heap (A C F : Type 0) : Type 0 where
  pub objects : ℕ → A
  pub checkpoints : Text → C
  pub next_address : ℕ
  pub streams : ℕ → Option (Stream F)

abbrev pub put : {V : Type 0} → (ℕ → V) → ℕ → V → ℕ → V
put f a v b = if b == a then v else f b

abbrev pub save : {V : Type 0} → (Text → V) → Text → V → Text → V
save f a v b = if text_eq b a then v else f b

-- A chat begins, with its user, its `accept` header and its input, or the server asks a body for more.
pub data Op (P : Type 0) : Type 0 where
  start : ℕ → Text → Option Text → RunInput P → Op P
  pull : ℕ → Op P

-- The address of the lifespan's agent.
abbrev pub agent : ℕ
agent = 0

-- The heap when the routes are mounted.
abbrev pub mounted : {A C F : Type 0} → A → (Text → C) → Heap A C F
mounted object checkpoints = record {
  objects = λ a. object;
  checkpoints = checkpoints;
  next_address = 1;
  streams = λ n. none;
}

-- input_data.thread_id = f"{user_id}:{input_data.thread_id}"
unfoldable pub rekeyed : {P : Type 0} → Text → RunInput P → RunInput P
rekeyed user_id input = record input { thread_id = thread_key user_id input.thread_id }

module _ {P A C F E : Type 0} (c : AgentClass P A C F E) where
  -- A body of which nothing has been sent.
  abbrev pub new_stream : ℕ → Text → Option Text → RunInput P → Stream F
  new_stream request_agent user_id accept input = record {
    request_agent = request_agent;
    thread = (rekeyed user_id input).thread_id;
    frame = c.run (rekeyed user_id input);
    accept = accept;
    media_type = c.content_type accept;
    sent = [];
    status = streaming;
  }

  -- request_agent = agent.clone(), and the StreamingResponse of event_generator()
  unfoldable pub start_stream : ℕ → Text → Option Text → RunInput P → Heap A C F → Heap A C F
  start_stream n user_id accept input h = record {
    objects = put h.objects h.next_address (c.clone (h.objects agent));
    checkpoints = h.checkpoints;
    next_address = h.next_address + 1;
    streams = put h.streams n (some (new_stream h.next_address user_id accept input));
  }

  -- yield encoder.encode(event), or the end of the loop
  abbrev pub received : Option (Result E) → Stream F → Stream F
  received none s = record s { status = finished }
  received (some (returned event)) s = record s { sent = s.sent ++ c.encode s.accept event ∷ [] }
  received (some (raised e)) s = record s { status = failed e }

  -- One round of `async for event in request_agent.run(input_data)`, with the object of that agent
  -- and the checkpoints of that thread.
  abbrev pub pull_round : Status → Stream F → A → C → Stream F × A × C
  pull_round streaming s object saved =
      let (event, frame, object', saved') = c.next s.frame object saved in
      (received event (record s { frame = frame }), object', saved')
  pull_round _ s object saved = (s, object, saved)

  abbrev pub pull_from : ℕ → Option (Stream F) → Heap A C F → Heap A C F
  pull_from n none h = h
  pull_from n (some s) h =
      let (s', object, saved) =
        pull_round s.status s (h.objects s.request_agent) (h.checkpoints s.thread) in
      record h {
        objects = put h.objects s.request_agent object;
        checkpoints = save h.checkpoints s.thread saved;
        streams = put h.streams n (some s');
      }

  unfoldable pub event_generator : ℕ → Heap A C F → Heap A C F
  event_generator n h = pull_from n (h.streams n) h

  unfoldable pub step : Op P → Heap A C F → Heap A C F
  step (start n user_id accept input) h = start_stream n user_id accept input h
  step (pull n) h = event_generator n h

  unfoldable pub run_ops : List (Op P) → Heap A C F → Heap A C F
  run_ops [] h = h
  run_ops (op ∷ ops) h = run_ops ops (step op h)
