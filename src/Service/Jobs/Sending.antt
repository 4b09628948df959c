-- ===== src/Service/Jobs/Sending.antt =====
-- What `Service.sendToRabbitMQ` of workflow/Service.go has done when it returns.
use pz_workflow.Prelude.{◌+◌, ◌≡◌, ◌≢◌, ◌⊎◌, ◌↔◌, String, ◌<>◌, none, ◌∷◌, arith}
use pz_workflow.Backend.{Error, ok, declare_queue, publish}
use pz_workflow.Exec.{World, requests, ◌>>=◌}
use pz_workflow.Exec.Wrote.{Runs}
use pz_workflow.Service.Jobs.{send_to_rabbit_mq}

-- The queue of this space was declared, and then the message was published under the name that its
-- declaration gave; the error is nil exactly if the publication was answered by the nil error.
abbrev pub IsPublished : String → World → World → Error → Type 0
IsPublished message w v e =
    (key : String) × (requests v
      ≡ publish key message ∷ declare_queue ("Request-Job-" <> w.backend.space) ∷ requests w)
    × (w.backend.queue_declared ("Request-Job-" <> w.backend.space)
          (record { calls = w.history.calls + 1 + 1 + 1; requests = requests w })
        ≡ ok key)
    × ((e ≡ none) ↔ (
        w.backend.published key message (record {
          calls = w.history.calls + 1 + 1 + 1 + 1;
          requests = declare_queue ("Request-Job-" <> w.backend.space) ∷ requests w;
        })
        ≡ none))

-- `sendToRabbitMQ` returns no error only if the queue of this space was declared and the message published under
-- the name that the declaration gave, and the publication was answered by the nil error; with an error it has
-- requested nothing, or declared the queue, or asked for such a publication and got an error for it.
pub send_to_rabbit_mq-IsPublished :
    (message : String) (w v : World) (e : Error)
    → Runs (send_to_rabbit_mq message) w e v
    → ((e ≡ none) × IsPublished message w v e)
      ⊎ ((e ≢ none)
          × ((requests v ≡ requests w)
              ⊎ (requests v ≡ declare_queue ("Request-Job-" <> w.backend.space) ∷ requests w)
              ⊎ IsPublished message w v e))
unfolding send_to_rabbit_mq ◌>>=◌
send_to_rabbit_mq-IsPublished message w v e r = ground arith
