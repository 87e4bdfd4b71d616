-- ===== src/Tests/Service.antt =====
-- The reference service with the adapter of the test kit, at one task that is run twice.
use mgds.Prelude.{
  List, Text, [], err, get, lit, nat_eq, none, ok, put, refl, some, text_eq, true, ℕ, ◌∷◌, ◌≡◌,
}
use mgds.Json.{Value, obj, str, field, end, canonical}
use mgds.JobTrace.{granted, succeeded}
use mgds.JobController.{empty, is_job_id, illegal_transition}
use mgds.Artifacts.{missing, Disk, Manifest, is_digest, manifest_of, put_artifact, get_artifact}
use mgds.Artifacts.Content.{after_put, get-put_artifact}
use mgds.ReferenceService.{
  Service, Platform, fake_adapter, Adapter, job_error, run_task, task_hash, job_id_of, run_id_of,
  key_of, report_of, output_bytes,
}
use mgds.ReferenceService.Runs.{Holds, fresh_task_succeeds, repeated_task_throws}
use mgds.Tests.Toy.{toy}

abbrev platform : Platform
platform = record { sha256 = toy; sha256_bytes = toy; utf8 = λ t. t }

abbrev clock : ℕ → Text
clock n = lit "t"

abbrev blank : Disk
blank = record {
  root = missing;
  objects_directory = missing;
  manifests_directory = missing;
  shards = [];
  objects = [];
  manifests = [];
}

abbrev idle : Service
idle = record { snapshot = empty; disk = blank; runs = [] }

abbrev task : Value
task = obj (
    field (lit "capabilityId") (str (lit "mgds.unity.fake.echo@0.1.0"))
      (field (lit "input") (str (lit "hi")) end))

abbrev output : Value
output = obj (field (lit "echoed") (str (lit "hi")) end)

abbrev bytes : List ℕ
bytes = output_bytes platform fake_adapter clock output

abbrev manifest : Manifest
manifest = manifest_of toy (lit "adapter-output.json") (lit "application/json") bytes

abbrev written : Disk
written =
    after_put toy (lit "adapter-output.json") (lit "application/json") bytes
      ((toy bytes, bytes) ∷ []) blank

put_runs :
    put_artifact toy (lit "adapter-output.json") (lit "application/json") bytes blank
    ≡ (ok manifest, written)
unfolding put_artifact get put
put_runs = refl

hash_digest : is_digest (toy bytes) ≡ true
unfolding is_digest toy canonical
hash_digest = refl

get-put_artifact_example :
    (b : List ℕ) × ((get_artifact toy (toy bytes) written).0 ≡ ok b)
    × (toy b ≡ toy bytes)
    × (get {V = List ℕ} [] (toy bytes) ≡ none → b ≡ bytes)
    × (get written.manifests (toy bytes) ≡ some manifest)
get-put_artifact_example =
    get-put_artifact toy (lit "adapter-output.json") (lit "application/json") bytes blank written
      manifest hash_digest put_runs

id_good : is_job_id (job_id_of (task_hash platform fake_adapter clock task)) ≡ true
unfolding is_job_id toy canonical
id_good = refl

abbrev hash : Text
hash = task_hash platform fake_adapter clock task

first_run :
    (t : Service) × (run_task platform fake_adapter clock task idle ≡ (
      ok (record {
        run_id = run_id_of hash;
        job_id = job_id_of hash;
        state = succeeded;
        artifact_hash = some (toy bytes);
      }),
      t,
    ))
    × Holds t.snapshot (job_id_of hash) (key_of hash) succeeded 1
    × (get t.runs (run_id_of hash)
        ≡ some (report_of platform fake_adapter clock hash task manifest output))
    × (t.disk ≡ written)
unfolding get fake_adapter
first_run =
    fresh_task_succeeds platform fake_adapter clock task output idle manifest written id_good refl
      refl refl put_runs

fresh_task_succeeds_example :
    (t : Service) × (run_task platform fake_adapter clock task idle ≡ (
      ok (record {
        run_id = run_id_of hash;
        job_id = job_id_of hash;
        state = succeeded;
        artifact_hash = some (toy bytes);
      }),
      t,
    ))
    × Holds t.snapshot (job_id_of hash) (key_of hash) succeeded 1
    × (get t.runs (run_id_of hash)
        ≡ some (report_of platform fake_adapter clock hash task manifest output))
    × (t.disk ≡ written)
unfolding get fake_adapter
fresh_task_succeeds_example =
    fresh_task_succeeds platform fake_adapter clock task output idle manifest written id_good refl
      refl refl put_runs

abbrev broken : Adapter
broken id input = err (lit "MGDS_UNSUPPORTED_CAPABILITY")

repeated_task_throws_example :
    run_task platform fake_adapter clock task first_run.0
    ≡ (err (job_error (illegal_transition succeeded granted)), first_run.0)
repeated_task_throws_example =
    repeated_task_throws platform fake_adapter clock task first_run.0 succeeded 1 id_good
      first_run.2 (λ h. cc)
