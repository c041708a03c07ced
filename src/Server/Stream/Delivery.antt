-- ===== src/Server/Stream/Delivery.antt =====
-- What a client of a chat receives.
use carqna_agent.Common.{
  ℕ, ℤ, zero, suc, ◌<◌, ◌≡◌, ◌≢◌, refl, ap, sym, ◌∙◌, Option, none, some, List, [], ◌∷◌, ◌++◌, map,
  arith, length, append_assoc, append-nil,
}
use mathlib.Core.Path.{subst}
use carqna_agent.PyText.{Text, codes}
use carqna_agent.PyText.Int.{parse_int}
use carqna_agent.Errors.{Exception, Result, returned, raised}
use carqna_agent.Server.Routes.{thread_key}
use carqna_agent.Server.Stream.{
  RunInput, AgentClass, Status, streaming, finished, failed, Stream, Heap, Op, mounted, new_stream,
  rekeyed, start_stream, received, run_ops,
}
use carqna_agent.Server.Stream.Objects.{
  put_same, put_other, IsSeparate, mounted-IsSeparate, start-IsSeparate, run_ops-IsSeparate,
}
use carqna_agent.Server.Stream.Isolation.{
  thread_of, pulls_of, OtherChats, IsQuiet, rounds, Holds, round_over, Holds-run_ops,
}

module _ {P A C F E : Type 0} (c : AgentClass P A C F E) where
  -- A run of the agent, alone: its events, and how it ends.
  pub data Yields : F → A → C → List E → Status → Type 0 where
    stop : {f : F} {a : A} {v : C} → (c.next f a v).0 ≡ none → Yields f a v [] finished
    fail :
        {f : F} {a : A} {v : C} (e : Exception)
        → (c.next f a v).0 ≡ some (raised e)
        → Yields f a v [] (failed e)
    more :
        {f : F} {a : A} {v : C} {es : List E} {end : Status} (e : E)
        → (c.next f a v).0 ≡ some (returned e)
        → Yields (c.next f a v).1 (c.next f a v).2 (c.next f a v).3 es end
        → Yields f a v (e ∷ es) end

  -- What is sent when the body is over.
  pub record IsDelivered (s : Stream F) (chunks : List Text) (end : Status) (media_type : Text)
      : Type 0 where
    pub sent : s.sent ≡ chunks
    pub status : s.status ≡ end
    pub typed : s.media_type ≡ media_type

  -- A body that is over gets nothing more.
  rounds_over :
      (k : ℕ) (s : Stream F) (a : A) (v : C) → s.status ≢ streaming → rounds c k s a v ≡ (s, a, v)
  rounds_over zero s a v h = refl
  rounds_over (suc k) s a v h =
      ap (λ (r : Stream F × A × C). rounds c k r.0 r.1 r.2) (round_over c s.status s a v h)
      ∙ rounds_over k s a v h

  module _ (address : ℕ) (thread : Text) (accept : Option Text) (media_type : Text) where
    -- A body that goes on from the frame, with these chunks sent.
    abbrev going : F → List Text → Status → Stream F
    going frame sent status = record {
      request_agent = address;
      thread = thread;
      frame = frame;
      accept = accept;
      media_type = media_type;
      sent = sent;
      status = status;
    }

    IsDelivered-over :
        (k : ℕ) (frame : F) (sent : List Text) (end : Status) (a : A) (v : C)
        → end ≢ streaming
        → IsDelivered (rounds c k (going frame sent end) a v).0 (sent ++ []) end media_type
    IsDelivered-over k frame sent end a v h =
        rw (rounds_over k (going frame sent end) a v h)
          (record { sent = sym (append-nil sent); status = refl; typed = refl })

    -- A round, by the event that it gets.
    by_event :
        (k : ℕ) (f : F) (a : A) (v : C) (sent chunks : List Text) (end : Status)
        (o : Option (Result E))
        → (c.next f a v).0 ≡ o
        → IsDelivered
            (rounds c k
              (received c o (going (c.next f a v).1 sent streaming))
              (c.next f a v).2
              (c.next f a v).3).0
            chunks
            end
            media_type
        → IsDelivered (rounds c (suc k) (going f sent streaming) a v).0 chunks end media_type
    by_event k f a v sent chunks end o e =
        subst
          (λ x.
            IsDelivered
              (rounds c k (received c x (going (c.next f a v).1 sent streaming)) (c.next f a v).2
                (c.next f a v).3).0
              chunks end media_type)
          (sym e)

    rounds_deliver :
        {es : List E} {end : Status} {f : F} {a : A} {v : C}
        → Yields f a v es end
        → (k : ℕ) (sent : List Text) → length es < k
        → IsDelivered
            (rounds c k (going f sent streaming) a v).0
            (sent ++ map (c.encode accept) es)
            end
            media_type
    rounds_deliver (stop e) zero sent h = absurd (omega arith)
    rounds_deliver (stop {f} {a} {v} e) (suc k) sent h =
        by_event k f a v sent (sent ++ []) finished none e (
          IsDelivered-over k (c.next f a v).1 sent finished (c.next f a v).2 (c.next f a v).3
            (λ q. cc (q)))
    rounds_deliver (fail x e) zero sent h = absurd (omega arith)
    rounds_deliver (fail {f} {a} {v} x e) (suc k) sent h =
        by_event k f a v sent (sent ++ []) (failed x) (some (raised x)) e (
          IsDelivered-over k (c.next f a v).1 sent (failed x) (c.next f a v).2 (c.next f a v).3
            (λ q. cc (q)))
    rounds_deliver (more ev e y) zero sent h = absurd (omega arith)
    rounds_deliver (more {f} {a} {v} {es} {end} ev e y) (suc k) sent h =
        by_event k f a v sent (sent ++ c.encode accept ev ∷ map (c.encode accept) es) end
          (some (returned ev)) e
          (subst
            (λ chunks.
              IsDelivered
                (rounds c k (going (c.next f a v).1 (sent ++ c.encode accept ev ∷ []) streaming)
                  (c.next f a v).2 (c.next f a v).3).0
                chunks end media_type)
            (append_assoc sent (c.encode accept ev ∷ []) (map (c.encode accept) es))
            (rounds_deliver y k (sent ++ c.encode accept ev ∷ []) (omega arith)))

  module _ (object : A) (n : ℕ) (user_id : Text) (accept : Option Text) (input : RunInput P) where
    Holds-started :
        (h : Heap A C F)
        → IsSeparate c object h
        → Holds c n
            (new_stream c h.next_address user_id accept input)
            (c.clone object)
            (h.checkpoints (rekeyed user_id input).thread_id)
            (start_stream c n user_id accept input h)
    unfolding start_stream
    Holds-started h k = record {
      stream = put_same h.streams n _;
      own_object = put_same h.objects h.next_address _ ∙ ap c.clone k.kept;
      own_saved = refl;
    }

    -- Another chat of the thread is another request's stream.
    started-IsQuiet :
        (thread : Text) (h : Heap A C F)
        → IsQuiet n thread h
        → IsQuiet n thread (start_stream c n user_id accept input h)
    unfolding start_stream
    started-IsQuiet thread h quiet m q d e =
        quiet m q d (sym (put_other h.streams n m _ (λ b. d (sym b))) ∙ e)

    -- A chat with an accepted thread id begins when no other chat on its thread, which is named by
    -- the user, a colon and the thread id, is streaming. Whatever chats were started and pulled
    -- before, and whatever chats of other users or with other accepted thread ids are started, and
    -- any pulled, in between and in whatever order: when its run, alone on a clone of the agent and
    -- from the checkpoints that its thread has when it begins, yields these events and ends so, the
    -- chat has sent their encodings, in order, and ended so, once its body has been pulled once more
    -- than there are events; with the media type of the encoder.
    pub chat_stream_delivers :
        (checkpoints : Text → C) (before ops : List (Op P)) (es : List E) (end : Status) (x : ℤ)
        → parse_int input.thread_id ≡ some x
        → IsQuiet n
            (user_id ++ (codes ":" ++ input.thread_id))
            (run_ops c before (mounted object checkpoints))
        → OtherChats n user_id input.thread_id ops
        → Yields
            (c.run (record input { thread_id = user_id ++ (codes ":" ++ input.thread_id) }))
            (c.clone object)
            ((run_ops c before (mounted object checkpoints)).checkpoints
              (user_id ++ (codes ":" ++ input.thread_id)))
            es
            end
        → length es < pulls_of n ops
        → (s : Stream F) × ((run_ops c ops (
                start_stream c n user_id accept input
                  (run_ops c before (mounted object checkpoints)))).streams
              n
            ≡ some s)
          × IsDelivered s (map (c.encode accept) es) end (c.content_type accept)
    unfolding rekeyed thread_key
    chat_stream_delivers checkpoints before ops es end x hx quiet others y enough =
        let first = mounted object checkpoints in
        let h = run_ops c before first in
        let k =
          run_ops-IsSeparate c object before first (mounted-IsSeparate c object checkpoints) in
        let thread = thread_of user_id input.thread_id in
        let held =
          Holds-run_ops c object n user_id input.thread_id x hx ops _ _ _
            (start_stream c n user_id accept input h)
            (start-IsSeparate c object h k n user_id accept input) refl
            (started-IsQuiet thread h quiet) others (Holds-started h k) in
        (
          _,
          held.stream,
          rounds_deliver h.next_address thread accept (c.content_type accept) y (pulls_of n ops) []
              enough,
        )
