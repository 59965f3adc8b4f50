-- ===== src/Windows.antt =====
-- windows/client, the library of the client for Windows: what it calls and the repository does not
-- implement. WinHttp has src/win_http.cpp, Dll src/authwg.cpp
-- and Conf its configuration file.
pub mod WinHttp
pub mod Conf
pub mod Dll
use wg_auth.Base.{ℕ, Bool, List, Option, Bytes, String}
use wg_auth.Client.{Response}

-- A text in UTF-16.
abbrev pub Wide : Type 0
Wide = List ℕ

-- What WinHttpCrackUrl finds in a URL.
pub record UrlParts : Type 0 where
  pub host : Wide
  pub port : ℕ
  pub path : Wide

-- WinHTTP, with the one session, connection and request of a call in the state `N`. The results are
-- those of the functions of the name; `query_data_available` and `read_data` give `none` for FALSE.
pub record WinHttpLib (N : Type 0) : Type 0 where
  pub multi_byte_to_wide_char : Bytes → Wide
  pub crack_url : Wide → Option UrlParts
  pub open_session : N → N × Bool
  pub connect : Wide → ℕ → N → N × Bool
  pub open_request : Wide → Bool → N → N × Bool
  pub ignore_certificate_errors : N → N
  pub send_request : Bytes → N → N × Bool
  pub receive_response : N → N × Bool
  pub query_status_code : N → ℕ
  pub query_data_available : N → N × Option ℕ
  pub read_data : ℕ → N → N × Option Bytes
  pub close_request : N → N
  pub close_connect : N → N
  pub close_session : N → N

-- How a process ends within five seconds.
pub data ProcessEnd : Type 0 where
  exited : ℕ → ProcessEnd
  timed_out : ProcessEnd

-- The files and the processes of the machine `K`, the path of the program, and cJSON, whose objects
-- are read by cJSON_GetObjectItem. A NULL string adds no item to an object.
pub record WinMachine (K : Type 0) : Type 0 where
  pub exe_path : Bytes
  pub write_file : Bytes → Bytes → K → Option K
  pub delete_file : Bytes → K → K
  pub create_process : Bytes → Bytes → K → K × Option ProcessEnd
  pub terminate_process : K → K
  pub parse_json : Bytes → Option Response
  pub print_strings : List (String × Option Bytes) → Bytes
