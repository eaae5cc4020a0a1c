-- ===== src/Agent/Subjects.antt =====
-- The worker that internal/agent/server.go finds behind a certificate.
use Prim.Native.String.{◌++◌}
use tidefly_plane.Prelude.{
  String, true, none, some, ◌≡◌, ◌≢◌, ltb, if◌then◌else◌, text_length, drop_text,
  text_length-append, drop_text-append, text_length-pos, arith, ◌∙◌, ap,
}
use tidefly_plane.Agent.Session.{worker_subject, worker_id_from}

-- The certificate that is issued for a worker names that worker to the server, unless its id is empty.
pub worker_id_from-worker_subject :
    (id : String) → id ≢ "" → worker_id_from (worker_subject id) ≡ some id
unfolding worker_id_from worker_subject text_length
worker_id_from-worker_subject id named =
    let long : ltb 21 (text_length ("tidefly-plane-worker-" ++ id)) ≡ true =
      ground (arith, text_length-append "tidefly-plane-worker-" id, text_length-pos id named) in
    ap (λ b. if b then some (drop_text 21 ("tidefly-plane-worker-" ++ id)) else none) long
    ∙ ap some (drop_text-append "tidefly-plane-worker-" id)
