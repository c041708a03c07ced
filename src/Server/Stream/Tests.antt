-- ===== src/Server/Stream/Tests.antt =====
-- Two users' chats of one thread id whose bodies are pulled in turns, on an agent that counts its
-- events in an attribute and the events of a thread in its checkpoints.
use carqna_agent.Common.{
  ℕ, ◌+◌, ◌≡◌, refl, none, some, List, [], ◌∷◌, ◌++◌, map, arith, ltb, if◌then◌else◌, ◌==◌,
  Bool-cases, inl, inr, pos,
}
use carqna_agent.PyText.{Text, codes, text_eq, strip}
use carqna_agent.PyText.Int.{parse_int, digits_from, decimal}
use carqna_agent.Server.Routes.{thread_key}
use carqna_agent.Errors.{returned}
use carqna_agent.Database.Sample.{alice, bob}
use carqna_agent.Server.Stream.{
  RunInput, AgentClass, finished, Stream, Op, start, pull, mounted, start_stream, rekeyed,
  event_generator, step, run_ops,
}
use carqna_agent.Server.Stream.Isolation.{IsQuiet, thread_of}
use carqna_agent.Server.Stream.Delivery.{Yields, stop, more, IsDelivered, chat_stream_delivers}

-- A run tells twice its thread and how many events the thread has had.
abbrev echo : AgentClass (Unit {0}) ℕ ℕ Text Text
echo = record {
  clone = λ count. 0;
  run = λ input. input.thread_id;
  next = λ thread count saved.
      if ltb count 2
      then (some (returned (thread ++ (48 + saved) ∷ [])), thread, count + 1, saved + 1)
      else (none, thread, count, saved);
  encode = λ accept event. codes "data: " ++ event;
  content_type = λ accept. codes "text/event-stream";
}

abbrev input : Text → RunInput (Unit {0})
input thread_id = record { thread_id = thread_id; payload = tt }

-- An earlier chat on the thread, to its end.
abbrev before : List (Op (Unit {0}))
before = start 2 bob none (input (codes "7")) ∷ pull 2 ∷ pull 2 ∷ pull 2 ∷ []

abbrev between : List (Op (Unit {0}))
between =
    pull 1
    ∷ pull 2
    ∷ start 3 alice none (input (codes "7"))
    ∷ pull 1
    ∷ pull 3
    ∷ pull 1
    ∷ pull 2
    ∷ []

abbrev key : Text
key = thread_of bob (codes "7")

abbrev told : List Text
told = (key ++ codes "2") ∷ (key ++ codes "3") ∷ []

quiet : IsQuiet 1 key (run_ops echo before (mounted 0 (λ thread. 0)))
unfolding run_ops step start_stream event_generator
quiet m q d e on s = elim (Bool-cases (m == 2)) [
  | inl there ↦ cc (rw there at e, s)
  | inr away ↦ cc (rw away at e)
]

saved : (run_ops echo before (mounted 0 (λ thread. 0))).checkpoints key ≡ 2
unfolding run_ops step start_stream event_generator text_eq rekeyed thread_key
saved = refl

echo_runs : Yields echo key 0 2 told finished
echo_runs = more (key ++ codes "2") refl (more (key ++ codes "3") refl (stop refl))

seven : parse_int (codes "7") ≡ some (pos 7)
unfolding parse_int strip digits_from decimal
seven = refl

chat_stream_delivers_example :
    (s : Stream Text) × ((run_ops echo between (
          start_stream echo 1 bob none
            (input (codes "7"))
            (run_ops echo before (mounted 0 (λ thread. 0))))).streams
        1
      ≡ some s)
    × IsDelivered echo s (map (echo.encode none) told) finished (echo.content_type none)
chat_stream_delivers_example =
    chat_stream_delivers echo 0 1 bob none (input (codes "7")) (λ thread. 0) before between told
      finished (pos 7) seven quiet ((λ e. omega arith), (pos 7, seven), ((λ e. cc (e)), tt))
      (rw saved echo_runs) (omega arith)
