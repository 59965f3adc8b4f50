-- ===== src/Tests/Windows.antt =====
-- The client for Windows, with a WinHTTP that knows its open handles and a machine that logs its
-- calls.
use wg_auth.Base.{◌≤◌, ◌≡◌, refl, true, false, List, [], ◌∷◌, Option, some, Bytes, codes, length}
use wg_auth.Client.{Response, string}
use wg_auth.Windows.Dll.Session.{
  Used, loaded, uses, logs_in, logs_out, IsConsistent, Used-IsConsistent,
}
use wg_auth.Windows.Dll.{Dll, wg_login, wg_logout}
use wg_auth.Windows.WinHttp.Handles.{
  Open, closed, with_session, with_connection, with_request, HandleLaws, post_json-handles,
}
use wg_auth.Windows.WinHttp.Reading.{post_json_bounded}
use wg_auth.Windows.WinHttp.{
  post_json, max_response_size, opened, connected, requested, sent, received, read_body,
  utf8_to_wide, starts_with,
}
use wg_auth.Windows.{WinHttpLib, WinMachine, exited}

-- The handles that are open, and the bytes of the response that are to be read.
record Net : Type 0 where
  handles : Open
  unread : Bytes

abbrev net_with : Open → Bytes → Net
net_with handles unread = record { handles = handles; unread = unread }

abbrev lib : WinHttpLib Net
lib = record {
  multi_byte_to_wide_char = λ s. s;
  crack_url = λ url. some (record { host = url; port = 443; path = [] });
  open_session = λ n. (net_with with_session n.unread, true);
  connect = λ host port n. (net_with with_connection n.unread, true);
  open_request = λ path secure n. (net_with with_request n.unread, true);
  ignore_certificate_errors = λ n. n;
  send_request = λ body n. (n, true);
  receive_response = λ n. (net_with n.handles (codes "{}"), true);
  query_status_code = λ n. 200;
  query_data_available = λ n. (n, some (length n.unread));
  read_data = λ size n. (net_with n.handles [], some n.unread);
  close_request = λ n. net_with with_connection n.unread;
  close_connect = λ n. net_with with_session n.unread;
  close_session = λ n. net_with closed n.unread;
}

lib-HandleLaws : HandleLaws lib (λ n. n.handles)
lib-HandleLaws = record {
  session = λ n h. refl;
  connection = λ host port n h. refl;
  request = λ path secure n h. refl;
  flags = λ n. refl;
  sends = λ body n. refl;
  receives = λ n. refl;
  queries = λ n. refl;
  reads = λ size n. refl;
  request_closed = λ n h. refl;
  connection_closed = λ n h. refl;
  session_closed = λ n h. refl;
}

post_json-handles_example :
    (post_json lib 9 (codes "https://vpn/login") (codes "{}") true (net_with closed [])).0.handles
    ≡ closed
post_json-handles_example =
    post_json-handles lib (λ n. n.handles) lib-HandleLaws 9 (codes "https://vpn/login") (codes "{}")
      true (net_with closed []) refl

reply :
    (post_json lib 9 (codes "https://vpn/login") (codes "{}") true (net_with closed [])).1
    ≡ some (200, codes "{}")
unfolding post_json opened connected requested sent received read_body utf8_to_wide starts_with
reply = refl

post_json_bounded_example : length (codes "{}") ≤ max_response_size
post_json_bounded_example =
    post_json_bounded lib 9 (codes "https://vpn/login") (codes "{}") true (net_with closed []) 200
      (codes "{}") reply

-- Every item of a response is a string.
abbrev response : Response
response name = some (string (codes name))

abbrev machine : WinMachine (List Bytes)
machine = record {
  exe_path = codes "C:/vpn/authwg.exe";
  write_file = λ path text k. some (path ∷ k);
  delete_file = λ path k. path ∷ k;
  create_process = λ path cmd k. (cmd ∷ k, some (exited 0));
  terminate_process = λ k. k;
  parse_json = λ s. some response;
  print_strings = λ items. codes "{}";
}

abbrev fresh : Dll Net (List Bytes)
fresh = record {
  server_url = [];
  session_token = [];
  insecure = false;
  is_running = false;
  is_connected = false;
  status = codes "Disconnected";
  network = net_with closed [];
  machine = [];
}

abbrev ann : Option Bytes
ann = some (codes "ann")

abbrev url : Option Bytes
url = some (codes "https://vpn/")

-- The session that has just begun.
abbrev begun : Dll Net (List Bytes)
begun = record fresh {
  server_url = codes "https://vpn";
  session_token = codes "token";
  is_running = true;
  is_connected = true;
  status = codes "Connected";
}

used : Used lib machine 9 (wg_logout lib machine 9 (wg_login lib machine 9 ann ann url fresh).1)
used =
    uses _ _ (uses _ _ (loaded (net_with closed []) []) (logs_in ann ann url fresh))
      (logs_out (wg_login lib machine 9 ann ann url fresh).1)

Used-IsConsistent_example :
    IsConsistent lib machine 9
      (wg_logout lib machine 9 (wg_login lib machine 9 ann ann url fresh).1)
Used-IsConsistent_example = Used-IsConsistent lib machine 9 _ used
