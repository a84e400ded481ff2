-- ===== src/Tests/Release.antt =====
-- The release of adt/transport.go where the first job is not there and the second is refused.
use adtler.Prelude.{
  ◌≡◌, true, [], ◌∷◌, none, some, Text, codes, if◌then◌else◌, length, ◌==◌, refl, ℕ,
}
use adtler.Adt.{ok}
use adtler.Adt.Stops.{quiet}
use adtler.Transport.Listing.{released}
use adtler.Release.{Reply, ReleaseClient, release_transport_verified}
use adtler.Release.Quiet.{release_transport_verified-quiet}

abbrev reply : ℕ → Text → Reply
reply status body = record { status = status; body = body }

-- The first job answers with the status, the fallback with `later`; the run is polled twice.
abbrev client : ℕ → ℕ → ReleaseClient
client status later = record {
  post = λ log number job.
      if length job == 14 then ok (reply status (codes "run")) else ok (reply later []);
  read = λ log uri. ok (reply 200 (codes (if length log == 1 then "wait" else "done")));
  tasks = λ log number. ok [];
  info = λ log number. ok (some (released, codes "R"));
  polls = λ log. 3;
  run_of = λ body. some (record {
    status = codes "new";
    links = record { rel = codes "self"; href = codes "/run" } ∷ [];
  });
  poll_of = λ body. some (record {
    status = if length body == 4 then codes "finished" else codes "running";
    links = [];
  });
  report_of = λ body. none;
  error_of = λ body. record { status_code = 0; exception_type = []; message = [] };
}

-- A background run, then the read of the status.
released_result :
    (release_transport_verified (client 200 200) (codes "DEVK900001") true []).0
    ≡ ok (record { transport = codes "DEVK900001"; state = released; raw_status = codes "R" })
unfolding release_transport_verified
released_result = refl

-- Only the two jobs are sent.
refused_calls :
    length (release_transport_verified (client 400 401) (codes "DEVK900001") true []).1 ≡ 2
unfolding release_transport_verified
refused_calls = refl

release_transport_verified-quiet_example :
    quiet (release_transport_verified (client 400 401) (codes "DEVK900001") true []).1 ≡ true
release_transport_verified-quiet_example =
    release_transport_verified-quiet (client 400 401) (codes "DEVK900001") true
