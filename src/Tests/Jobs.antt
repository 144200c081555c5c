-- ===== src/Tests/Jobs.antt =====
-- A job and its browser, and the keys of a user, at concrete inputs.
use micro_manus_services.Base.{
  ℕ, ◌≡◌, refl, ◌⊎◌, inr, true, false, Option, some, [], Text, find, any, text_eq,
}
use micro_manus_services.Db.{Result, ok, err, Error, KeyProvider, RunRow}
use micro_manus_services.Db.Statements.{insert_message, is_run}
use micro_manus_services.Agent.Loop.{turns, take_turn, after_stream, persist_step}
use micro_manus_services.Agent.Process.{Job, process, attempt, finish}
use micro_manus_services.Agent.Ending.{live}
use micro_manus_services.Agent.LastAttempt.{Rejects, last_attempt_settles}
use micro_manus_services.Agent.Finalize.{complete_tx, touch_thread, end_run}
use micro_manus_services.Agent.Watched.{channel, process-events}
use micro_manus_services.Agent.Sse.{Connection, Course, Wait, events, is_terminal}
use micro_manus_services.Agent.Resume.{drop_incomplete}
use micro_manus_services.RunEvents.{steps_to_events, sort_steps}
use micro_manus_services.Llm.Service.{resolve_key, pick_key}
use micro_manus_services.Models.{get_model}
use micro_manus_services.Usage.Cost.{record_usage, cost, thread_cost}
use micro_manus_services.Keys.Probe.{Fetch}
use micro_manus_services.Keys.Store.{add_key, delete_key}
use micro_manus_services.Keys.Unique.{IsKeyed}
use micro_manus_services.Keys.Merged.{keys-IsKeyed}
use micro_manus_services.Auth.Login.{Decoded, login_with_id_token}
use micro_manus_services.Tests.Data.{
  sample, sample-IsSound, world, services, blocks, decrypted, job, running_run,
}

abbrev quiet : Wait
quiet = record { arrivals = []; db = sample }

-- Everything that the job publishes is heard after the replay.
abbrev course : Course
course = record {
  left_early = false;
  for_steps = quiet;
  for_status = quiet;
  for_last = quiet;
  later = channel 10 (process services blocks decrypted 22 job world).1.published;
}

abbrev connection_of : Result Connection → Connection
connection_of (ok c) = c
connection_of (err e) = record { closed = false; written = [] }

process-events_example :
    ((connection_of (events 1 10 sample course)).closed ≡ true)
    × (any is_terminal (connection_of (events 1 10 sample course)).written ≡ true)
unfolding channel events steps_to_events process attempt finish turns take_turn after_stream
    record_usage persist_step cost thread_cost resolve_key pick_key complete_tx touch_thread end_run
    insert_message get_model text_eq drop_incomplete sort_steps
process-events_example =
    process-events services blocks decrypted 22 job world running_run 1 sample course
      (connection_of (events 1 10 sample course)) refl refl refl
      (record {
        from_start = refl;
        in_steps = refl;
        in_status = refl;
        in_last = refl;
        afterwards = refl;
      })
      (inr refl) refl

abbrev last_job : Job
last_job = record { run_id = 10; attempts = 3; attempts_made = 2 }

last_attempt_settles_example :
    (live 10 (process services blocks decrypted 22 last_job world).1.db ≡ false)
    ⊎ ((x : Error) × (r : RunRow) × ((process services blocks decrypted 22 last_job world).0
          ≡ err x)
        × (find (is_run 10) sample.runs ≡ some r)
        × Rejects r x (process services blocks decrypted 22 last_job world).1.db)
last_attempt_settles_example =
    last_attempt_settles services blocks decrypted 22 last_job refl world sample-IsSound

keys-IsKeyed_example :
    ((fetch : Fetch) (encrypt : Text → Text) (fresh user : ℕ) (key : Text)
        (provider : Option KeyProvider) (base : Option Text)
      → IsKeyed (add_key fetch encrypt fresh user key provider base sample).1.api_keys)
    × ((user id : ℕ) → IsKeyed (delete_key user id sample).1.api_keys)
    × ((resolve_email : Text → Option Text) (admin_email : Option Text)
          (verify : Text → Result Decoded) (token : Text) (fresh : ℕ)
        → IsKeyed
            (login_with_id_token resolve_email admin_email verify token fresh sample).1.api_keys)
unfolding IsKeyed
keys-IsKeyed_example = keys-IsKeyed sample (refl, (refl, tt))
