-- ===== src/App/Lifetime/Tests.antt =====
-- A configuration of internal/app, and a runtime whose mesh does not start.
use clippy.Base.{ℕ, ◌≤◌, ◌≡◌, refl, true, none, some, List, [], ◌∷◌, All}
use clippy.Base.Bytes.{codes}
use clippy.Base.Int.{pos}
use clippy.Netmesh.Options.{Options, default_max_frame_bytes}
use clippy.App.Config.{Config}
use clippy.App.Lifetime.{
  Life, new_life, Label, silent, closes, start_returns, wait_returns, over, begins, mesh_fails,
  aborts, returns_first, returns_wait, Run, fresh, next,
}
use clippy.App.Lifetime.Waiting.{Agrees, closings, wait-Agrees}

abbrev shown : List (Label ℕ)
shown = silent ∷ silent ∷ closes ∷ start_returns (some 7) ∷ wait_returns (some 7) ∷ []

abbrev ended : Life ℕ
ended = record (new_life ℕ) {
  starter = over;
  clipboard_started = true;
  wait_err = some 7;
  wait_closed = true;
}

run : Run ℕ shown ended
run =
    next
      (next (next (next (next fresh (begins refl)) (mesh_fails 7 refl)) (aborts 7 refl))
        (returns_first (some 7) refl))
      (returns_wait refl)

wait_example :
    All (Agrees ended) shown
    × (closings shown ≤ 1)
    × (ended.wait_closed ≡ true
        → ended.wait_err ≡ none
        → (ended.done ≡ true) × (ended.mesh_done ≡ true))
wait_example = wait-Agrees shown ended run

abbrev laptop : Config
laptop = record {
  name = codes "laptop";
  listen_addr = [];
  port = pos 7420;
  service_name = [];
  domain = [];
  web_socket_path = codes "/clip";
  control_endpoint = codes "/tmp/clippy.sock";
}

abbrev resolved : Options
resolved = record {
  node_id = codes "n1";
  name = codes "laptop";
  service_name = codes "_clippy._tcp";
  domain = codes "local.";
  web_socket_path = codes "/clip";
  listen_addr = [];
  port = pos 7420;
  heartbeat_interval = pos 10000000000;
  pong_timeout = pos 30000000000;
  peer_stale_after = pos 90000000000;
  browse_cycle = pos 30000000000;
  reconnect_min_backoff = pos 1000000000;
  reconnect_max_backoff = pos 30000000000;
  max_frame_bytes = pos default_max_frame_bytes;
  send_queue_size = pos 64;
}
