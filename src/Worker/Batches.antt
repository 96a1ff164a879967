-- ===== src/Worker/Batches.antt =====
-- The loop of app/worker.py over the batches that the queue gives.
use resume_screening_service.Common.{
  String, ◌≡◌, refl, sym, ap, ◌∙◌, true, none, List, [], ◌∷◌, ◌++◌, map, ⊤, truthy, arith,
}
use resume_screening_service.Errors.{
  Exn, resume_content, resume_parser_unavailable, vector_indexing, Result, ok, raised,
}
use resume_screening_service.Services.{Call, delete_message, Env}
use resume_screening_service.Session.{World}
use resume_screening_service.Session.Runs.{bind_of_ok}
use resume_screening_service.Worker.{
  Message, attempt, on_error, handle_message, handle_batch, rounds, run,
}

-- What the code relies on for its loop: deletions of messages do not fail.
abbrev pub CanDelete : Env → Type 0
CanDelete env =
    (before : List Call) (receipt : String)
    → env.services.failure before (delete_message env.settings.sqs_queue_url receipt) ≡ none

-- the messages of all batches
abbrev pub all_messages : List (List Message) → List Message
all_messages [] = []
all_messages (b ∷ bs) = b ++ all_messages bs

module _ (env : Env) where
  -- the world after each message was handled, one after the other
  abbrev pub handled : List Message → World → World
  handled [] w = w
  handled (m ∷ ms) w = handled ms (handle_message env m w).1

  handled-++ : (ms ns : List Message) (w : World) → handled (ms ++ ns) w ≡ handled ns (handled ms w)
  handled-++ [] ns w = refl
  handled-++ (m ∷ ms) ns w = handled-++ ms ns (handle_message env m w).1

  module _ (can_delete : CanDelete env) where
    on_error-returns : (m : Message) (e : Exn) (w : World) → (on_error env m e w).0 ≡ ok tt
    unfolding on_error
    on_error-returns m (resume_content _) w =
        let deleted = can_delete w.calls m.receipt_handle in ground arith
    on_error-returns m (resume_parser_unavailable _) w = refl
    on_error-returns m (vector_indexing _) w = refl
    on_error-returns m _ w = refl

    handle_message-returns : (m : Message) (w : World) → (handle_message env m w).0 ≡ ok tt
    unfolding handle_message
    handle_message-returns m w = pick (attempt env m w)
      where
        pick :
            (o : Result ⊤ × World)
            → (elim o.0 as (λ _. Result ⊤ × World) [
              | ok x ↦ (ok x, o.1)
              | raised e ↦ on_error env m e o.1
            ]).0
              ≡ ok tt
        pick (ok _, w') = refl
        pick (raised e, w') = on_error-returns m e w'

    handle_message-handled :
        (m : Message) (w : World) → handle_message env m w ≡ (ok tt, (handle_message env m w).1)
    handle_message-handled m w =
        ap (λ (r : Result ⊤). (r, (handle_message env m w).1)) (handle_message-returns m w)

    handle_batch-handled :
        (ms : List Message) (w : World) → handle_batch env ms w ≡ (ok tt, handled ms w)
    unfolding handle_batch
    handle_batch-handled [] w = refl
    handle_batch-handled (m ∷ ms) w =
        let w1 = (handle_message env m w).1 in
        bind_of_ok (handle_message env m) (λ _. handle_batch env ms) w w1 tt
          (handle_message-handled m w)
        ∙ handle_batch-handled ms w1

    rounds-handled :
        (bs : List (List Message)) (w : World)
        → rounds env (map (λ b. ok b) bs) w ≡ (ok tt, handled (all_messages bs) w)
    unfolding rounds
    rounds-handled [] w = refl
    rounds-handled (b ∷ bs) w =
        bind_of_ok (handle_batch env b) (λ _. rounds env (map (λ x. ok x) bs)) w (handled b w) tt
          (handle_batch-handled b w)
        ∙ rounds-handled bs (handled b w)
        ∙ ap (λ (x : World). (ok tt, x)) (sym (handled-++ b (all_messages bs) w))

    -- With a queue configured, and if deletions do not fail: whatever batches the queue gives, and
    -- whatever the handling of each message runs into, the worker handles every message, in the
    -- order in which they were received, and is ready for the next batch.
    pub run-handles_all :
        (bs : List (List Message)) (w : World)
        → truthy env.settings.sqs_queue_url ≡ true
        → run env (map (λ b. ok b) bs) w ≡ (ok tt, handled (all_messages bs) w)
    unfolding run
    run-handles_all bs w given = rw given (rounds-handled bs w)
