-- ===== src/Host/Sample.antt =====
-- A concrete host with two credentials, one of which has a file that is the sample of Override.
use cpa_auto_refresh_quota.Host.{AuthFile, Host, is_saved}
use cpa_auto_refresh_quota.Host.Saves.{Records}
use cpa_auto_refresh_quota.Base.{
  String, refl, true, false, Option, none, some, List, [], ◌∷◌, ◌==◌, if◌then◌else◌, ok,
}
use cpa_auto_refresh_quota.Base.Int.{ℤ, pos}
use cpa_auto_refresh_quota.Auths.{Auth}

-- The files that were saved, newest first, and the content of the one file.
abbrev pub World : Type 0
World = List AuthFile × String

abbrev pub credential : String → ℤ → Auth
credential name priority = record {
  id = name;
  auth_index = name;
  provider = "codex";
  status = "active";
  disabled = false;
  unavailable = false;
  runtime_only = false;
  source = "file";
  priority = priority;
}

abbrev pub file_with : String → AuthFile
file_with content = record {
  auth_index = "a";
  name = "a.json";
  path = "/a.json";
  json = content;
  expected_sha256 = content;
}

-- The host publishes the priority of the file at once.
abbrev pub runtime_auth : String → World → Option Auth
runtime_auth auth_index (files, content) =
    if auth_index == "a"
    then some (credential "a" (if content == "WRITTEN" then pos 9 else pos 3))
    else if auth_index == "b"
    then some (credential "b" (pos 9))
    else none

abbrev pub host : Host World
host = record {
  list_auths = λ ctx w. (some (credential "a" (pos 3) ∷ credential "b" (pos 9) ∷ []), w);
  get_runtime_auth = λ ctx auth_index w. (runtime_auth auth_index w, w);
  get_auth_file = λ ctx auth_index w.
      ((if auth_index == "a" then some (file_with w.1) else some (file_with "FILE")), w);
  save_auth_file = λ ctx file w. (is_saved, (file ∷ w.0, file.json));
  execute_pinned = λ ctx req w. (ok (record { status_code = pos 200; body = [] }), w);
  now = λ w. 0;
  is_done = λ ctx w. false;
  background = 0;
  with_timeout = λ ctx timeout w. (1, w);
  cancel = λ ctx w. w;
  timer_fires = λ ctx delay w. (true, w);
  polls_left = λ ctx w. 1;
  polled = λ ctx w. w;
  gave_up = λ ctx w. w;
}

abbrev pub saved_files : World → List AuthFile
saved_files w = w.0

pub host-Records : Records host saved_files
host-Records = record {
  by_list = λ ctx w. refl;
  by_runtime = λ ctx auth_index w. refl;
  by_file = λ ctx auth_index w. refl;
  by_save = λ ctx file w. refl;
  by_execute = λ ctx req w. refl;
  by_timeout = λ ctx timeout w. refl;
  by_cancel = λ ctx w. refl;
  by_timer = λ ctx delay w. refl;
  by_poll = λ ctx w. refl;
  by_giving_up = λ ctx w. refl;
}
